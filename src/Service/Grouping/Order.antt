-- ===== src/Service/Grouping/Order.antt =====
-- crates/service/src/phase.rs: no argument is lost, and the invocations stand in order.
use klartext.Prelude.{
  ◌⊎◌, ℕ, ◌+◌, ◌*◌, ◌≤◌, ◌<◌, ◌≡◌, ◌≢◌, refl, sym, ap, ◌∙◌, inl, inr, true, false, Bool-cases, ◌&&◌,
  List, [], ◌∷◌, ◌++◌, append-nil, append_assoc, map, foldl, ◌==◌, arith,
}
use mathlib.Core.List.{Perm}
use mathlib.Core.List.Perm
use klartext.Service.Phase.{Text, Phase, preset, main, reset, phase_eq, rank, Invocation}
use klartext.Service.Grouping.{
  JobParameterEntry, phase_of, value_of, key_le, insert_row, sort_rows, invocation_of, push_row,
  group,
}

-- The arguments of a list of invocations, one after the other.
abbrev pub all_args : List Invocation → List Text
all_args [] = []
all_args (i ∷ is) = i.args ++ all_args is

push_row-args :
    (trim : Text → Text) (out : List Invocation) (row : JobParameterEntry)
    → all_args (push_row trim out row) ≡ all_args out ++ value_of row ∷ []
unfolding push_row invocation_of
push_row-args trim [] row = refl
push_row-args trim (i ∷ []) row =
    elim (Bool-cases ((i.function_id == row.function_id) && phase_eq i.phase (phase_of row))) [
      | inl same ↦ rw (same, append-nil, append-nil) refl
      | inr other ↦ rw other (ap (λ l. l ++ value_of row ∷ []) (sym (append-nil i.args)))
    ]
push_row-args trim (i ∷ j ∷ is) row =
    ap (λ l. i.args ++ l) (push_row-args trim (j ∷ is) row)
    ∙ sym (append_assoc i.args (all_args (j ∷ is)) (value_of row ∷ []))

push_all-args :
    (trim : Text → Text) (rows : List JobParameterEntry) (out : List Invocation)
    → all_args (foldl (push_row trim) out rows) ≡ all_args out ++ map value_of rows
push_all-args trim [] out = sym (append-nil (all_args out))
push_all-args trim (row ∷ rows) out =
    push_all-args trim rows (push_row trim out row)
    ∙ rw (push_row-args trim out row, append_assoc) refl

insert_row-Perm :
    (row : JobParameterEntry) (rows : List JobParameterEntry)
    → Perm (row ∷ rows) (insert_row row rows)
unfolding insert_row
insert_row-Perm row [] = Perm.refl (row ∷ [])
insert_row-Perm row (r ∷ rows) = elim (Bool-cases (key_le row r)) [
  | inl before ↦ rw before (Perm.refl (row ∷ r ∷ rows))
  | inr behind ↦
      rw behind (Perm.trans (Perm.swap r row rows) (Perm.cons r (insert_row-Perm row rows)))
]

sort_rows-Perm : (rows : List JobParameterEntry) → Perm rows (sort_rows rows)
unfolding sort_rows
sort_rows-Perm [] = Perm.nil
sort_rows-Perm (row ∷ rows) =
    Perm.trans (Perm.cons row (sort_rows-Perm rows)) (insert_row-Perm row (sort_rows rows))

-- A number that orders functions, and the phases of one function.
abbrev pub row_key : JobParameterEntry → ℕ
row_key row = row.function_id * 3 + rank (phase_of row)

abbrev pub key : Invocation → ℕ
key i = i.function_id * 3 + rank i.phase

-- The order of two rows: by function and phase, and by position within these.
abbrev pub InOrder : JobParameterEntry → JobParameterEntry → Type 0
InOrder a b = (row_key a < row_key b) ⊎ ((row_key a ≡ row_key b) × (a.position ≤ b.position))

abbrev pub Sorted : List JobParameterEntry → Type 0
Sorted [] = Unit
Sorted (r ∷ []) = Unit
Sorted (r ∷ s ∷ rows) = InOrder r s × Sorted (s ∷ rows)

rank_below : (p : Phase) → rank p < 3
rank_below preset = omega arith
rank_below main = omega arith
rank_below reset = omega arith

key_le-InOrder : (a b : JobParameterEntry) → key_le a b ≡ true → InOrder a b
unfolding key_le
key_le-InOrder a b h = ground (arith, rank_below (phase_of a), rank_below (phase_of b))

key_le-not : (a b : JobParameterEntry) → key_le a b ≡ false → InOrder b a
unfolding key_le
key_le-not a b h = ground (arith, rank_below (phase_of a), rank_below (phase_of b))

insert_row-Sorted :
    (row : JobParameterEntry) (rows : List JobParameterEntry)
    → Sorted rows
    → Sorted (insert_row row rows)
unfolding insert_row
insert_row-Sorted row [] h = tt
insert_row-Sorted row (r ∷ []) h = elim (Bool-cases (key_le row r)) [
  | inl before ↦ rw before (key_le-InOrder row r before, tt)
  | inr behind ↦ rw behind (key_le-not row r behind, tt)
]
insert_row-Sorted row (r ∷ s ∷ rows) h = elim (Bool-cases (key_le row r)) [
  | inl before ↦ rw before (key_le-InOrder row r before, h)
  | inr behind ↦
      let rest = insert_row-Sorted row (s ∷ rows) h.1 in
      elim (Bool-cases (key_le row s)) [
        | inl next ↦ rw (behind, next) (key_le-not row r behind, (key_le-InOrder row s next, h.1))
        | inr later ↦ rw (behind, later) (h.0, rw later at rest)
      ]
]

sort_rows-Sorted : (rows : List JobParameterEntry) → Sorted (sort_rows rows)
unfolding sort_rows
sort_rows-Sorted [] = tt
sort_rows-Sorted (row ∷ rows) = insert_row-Sorted row (sort_rows rows) (sort_rows-Sorted rows)

-- The catalog's rows are put in the order of function, phase and position, none is lost or doubled,
-- and the arguments of all invocations together are the values of the rows in that order, an empty
-- one for a row without a value.
pub group-args :
    (trim : Text → Text) (rows : List JobParameterEntry)
    → (all_args (group trim rows) ≡ map value_of (sort_rows rows))
      × Perm rows (sort_rows rows)
      × Sorted (sort_rows rows)
unfolding group
group-args trim rows =
    (push_all-args trim (sort_rows rows) [], sort_rows-Perm rows, sort_rows-Sorted rows)

-- Invocations whose keys ascend strictly, from `lo` to `hi` at most.
abbrev pub Ascends : ℕ → ℕ → List Invocation → Type 0
Ascends lo hi [] = Unit
Ascends lo hi (i ∷ is) = (lo ≤ key i) × (key i ≤ hi) × Ascends (key i + 1) hi is

same_key :
    (f g : ℕ) (p q : Phase) → f * 3 + rank p ≡ g * 3 + rank q → ((f == g) && phase_eq p q) ≡ true
same_key f g preset preset e = ground arith
same_key f g preset main e = absurd (omega arith)
same_key f g preset reset e = absurd (omega arith)
same_key f g main preset e = absurd (omega arith)
same_key f g main main e = ground arith
same_key f g main reset e = absurd (omega arith)
same_key f g reset preset e = absurd (omega arith)
same_key f g reset main e = absurd (omega arith)
same_key f g reset reset e = ground arith

push_row-Ascends :
    (trim : Text → Text) (lo hi : ℕ) (out : List Invocation) (row : JobParameterEntry)
    → Ascends lo hi out
    → hi ≤ row_key row
    → lo ≤ row_key row
    → Ascends lo (row_key row) (push_row trim out row)
unfolding push_row invocation_of
push_row-Ascends trim lo hi [] row h le low = (low, omega arith, tt)
push_row-Ascends trim lo hi (i ∷ []) row h le low =
    elim (Bool-cases ((i.function_id == row.function_id) && phase_eq i.phase (phase_of row))) [
      | inl same ↦ rw same (h.0, omega (arith, h.1, le), tt)
      | inr other ↦
          let apart : key i ≢ row_key row =
            λ e. cc (other, same_key i.function_id row.function_id i.phase (phase_of row) e) in
          rw other (h.0, omega (arith, h.1, le), (omega (arith, h.1, le, apart), omega arith, tt))
    ]
push_row-Ascends trim lo hi (i ∷ j ∷ is) row h le low = (
  h.0,
  omega (arith, h.1, le),
  push_row-Ascends trim (key i + 1) hi (j ∷ is) row h.2 le (omega (arith, h.2.0, h.2.1, le)),
)

push_all-Ascends :
    (trim : Text → Text) (hi : ℕ) (rows : List JobParameterEntry) (row : JobParameterEntry)
    (out : List Invocation)
    → Ascends 0 hi out
    → hi ≤ row_key row
    → Sorted (row ∷ rows)
    → (top : ℕ) × Ascends 0 top (foldl (push_row trim) out (row ∷ rows))
push_all-Ascends trim hi [] row out h le sorted =
    (row_key row, push_row-Ascends trim 0 hi out row h le (omega arith))
push_all-Ascends trim hi (next ∷ rows) row out h le sorted =
    push_all-Ascends trim (row_key row) rows next (push_row trim out row)
      (push_row-Ascends trim 0 hi out row h le (omega arith)) (ground (arith, sorted.0)) sorted.1

push_from_empty :
    (trim : Text → Text) (rows : List JobParameterEntry)
    → Sorted rows
    → (top : ℕ) × Ascends 0 top (foldl (push_row trim) [] rows)
push_from_empty trim [] sorted = (0, tt)
push_from_empty trim (row ∷ rows) sorted =
    push_all-Ascends trim 0 rows row [] tt (omega arith) sorted

-- The invocations of any rows ascend strictly by function and then by phase: there is at most one
-- of each phase of each function, whatever the order of the rows.
pub group-Ascends :
    (trim : Text → Text) (rows : List JobParameterEntry)
    → (top : ℕ) × Ascends 0 top (group trim rows)
unfolding group
group-Ascends trim rows = push_from_empty trim (sort_rows rows) (sort_rows-Sorted rows)
