-- ===== src/Best/Tables/Cursor.antt =====
-- crates/best/src/exec.rs: the cursor in a table.
use Prim.Native.String.{String}
use klartext.Prelude.{
  ℕ, suc, ◌+◌, ◌-◌, ◌<◌, ◌≡◌, refl, sym, subst, Bool, true, false, Option, none, some, List, [],
  ◌∷◌, length, get_elem?, ◌==◌, if◌then◌else◌, Result, ok, err, panic, arith, inl, inr,
  Option-cases, Bool-cases, ==_iff, get_elem?-some, ok_or,
}
use klartext.Sgbd.Cp1252.{Text}
use klartext.Sgbd.Program.{Table}
use klartext.Best.Machine.{Machine}
use klartext.Best.Machine.Bytes.{IsMachine}
use klartext.Best.Machine.Bounds.{Any}
use klartext.Best.Exec.{ExecError, table_not_selected, table_row, Flow, next, ExecM, set_flags}
use klartext.Best.Exec.Keeps.{Keeps, FlowInRange, Post, Sound, Keeps-set_flags}
use klartext.Best.Context.{ExecCtx, State, CtxM, ◌>>=◌, lift, pure, on_machine, asks}
use klartext.Best.Context.Keeps.{RowValid, CursorValid, IsState, KeepsState}
use klartext.Best.Tables.{
  position, moved, set_row, set_z, current_table_opt, selected_table, table_index, cell_at,
  seek_result,
}

-- A position that is found lies within the list.
pub position-bound :
    {A : Type 0} (test : A → Bool) (xs : List A) (i : ℕ) → position test xs ≡ some i → i < length xs
position-bound test [] i e = cc
position-bound test (x ∷ xs) i e = elim (Bool-cases (test x)) [
  | inl t ↦ first (rw t at e)
  | inr f ↦ elim (Option-cases (position test xs)) [
    | inl n ↦ absurd (cc (rw (f, n) at e))
    | inr (j, q) ↦
        let bound = position-bound test xs j q in
        let here : j + 1 ≡ i = cc (rw (f, q) at e) in omega (arith, bound, here)
  ]
]
  where
    first : some 0 ≡ some i → i < suc (length xs)
    first q = let here : 0 ≡ i = cc in omega (arith, here)

-- The part of the invariant beside the machine.
abbrev pub CtxValid : {F : Type 0} → ExecCtx F → Type 0
CtxValid ctx =
    (0 < length ctx.results.sets) × CursorValid ctx.tables ctx.current_table ctx.current_row

-- An action that starts from a known context.
pub record KeepsAt {F A : Type 0} (ctx : ExecCtx F) (Q : A → Type 0) (act : CtxM F A) : Type 0 where
  pub at : (m : Machine F) → IsMachine m → IsState (act (m, ctx)).1 × Post Q (act (m, ctx)).0

pub ok_or-Post :
    {A : Type 0} (o : Option A) (e : ExecError) → Sound e → Post {A = A} Any (ok_or o e)
ok_or-Post none e p = p
ok_or-Post (some a) e p = tt

pub ok_or-some : {A : Type 0} (o : Option A) (e : ExecError) (a : A) → ok_or o e ≡ ok a → o ≡ some a
ok_or-some none e a q = absurd (cc)
ok_or-some (some b) e a q = cc

module _ {F A : Type 0} {Q : A → Type 0} where
  pub everywhere :
      (act : CtxM F A) → ((ctx : ExecCtx F) → CtxValid ctx → KeepsAt ctx Q act) → KeepsState Q act
  everywhere act k = record { at = λ s w. (k s.1 (w.some_set, w.cursor)).at s.0 w.machine_sizes }

module _ {F : Type 0} (ctx : ExecCtx F) (valid : CtxValid ctx) where
  pub KeepsAt-next : KeepsAt ctx FlowInRange (pure next)
  KeepsAt-next = record {
    at = λ m w. (record { machine_sizes = w; some_set = valid.0; cursor = valid.1 }, tt);
  }

  module _ {A : Type 0} (f : A → CtxM F Flow) where
    pub KeepsAt-machine :
        (act : ExecM F A)
        → Keeps Any act
        → ((a : A) → KeepsAt ctx FlowInRange (f a))
        → KeepsAt ctx FlowInRange (on_machine act >>= f)
    KeepsAt-machine act k kf = record { at = λ m w. go (act m) (k.at m w) }
      where
        go :
            (done : Result ExecError A × Machine F)
            → IsMachine done.1 × Post Any done.0
            → let out : Result ExecError Flow × State F = elim done.0 [
              | ok a ↦ f a (done.1, ctx)
              | err e ↦ (err e, (done.1, ctx))
              | panic ↦ (panic, (done.1, ctx))
            ] in
              IsState out.1 × Post FlowInRange out.0
        go (ok a, m) (w, p) = (kf a).at m w
        go (err e, m) (w, p) =
            (record { machine_sizes = w; some_set = valid.0; cursor = valid.1 }, p)
        go (panic, m) (w, p) = absurd p

    pub KeepsAt-lift :
        (r : Result ExecError A)
        → Post Any r
        → ((a : A) → r ≡ ok a → KeepsAt ctx FlowInRange (f a))
        → KeepsAt ctx FlowInRange (lift r >>= f)
    KeepsAt-lift (ok a) p kf = kf a refl
    KeepsAt-lift (err e) p kf = record {
      at = λ m w. (record { machine_sizes = w; some_set = valid.0; cursor = valid.1 }, p);
    }
    KeepsAt-lift panic p kf = absurd p

    pub KeepsAt-asks :
        (g : ExecCtx F → A)
        → KeepsAt ctx FlowInRange (f (g ctx))
        → KeepsAt ctx FlowInRange (asks g >>= f)
    KeepsAt-asks g k = record { at = k.at }

  pub KeepsAt-selected :
      (mnemonic : String) (f : Table → CtxM F Flow)
      → ((t : Table) → current_table_opt ctx ≡ some t → KeepsAt ctx FlowInRange (f t))
      → KeepsAt ctx FlowInRange (selected_table mnemonic >>= f)
  unfolding selected_table
  KeepsAt-selected mnemonic f kf = record {
    at =
        (KeepsAt-lift f (ok_or (current_table_opt ctx) (table_not_selected mnemonic))
          (ok_or-Post (current_table_opt ctx) (table_not_selected mnemonic) tt)
          λ t q. kf t (ok_or-some (current_table_opt ctx) (table_not_selected mnemonic) t q)).at;
  }

pub checked-Post :
    {A : Type 0} (n : ℕ) (mnemonic : String) (a : A)
    → Post {A = A} Any (if n == 0 then err (table_row mnemonic) else ok a)
checked-Post {A} n mnemonic a = either (n == 0)
  where
    either : (b : Bool) → Post {A = A} Any (if b then err (table_row mnemonic) else ok a)
    either true = tt
    either false = tt

pub checked-positive :
    {A : Type 0} (n : ℕ) (mnemonic : String) (a b : A)
    → ◌≡◌ {A = Result ExecError A} (if n == 0 then err (table_row mnemonic) else ok a) (ok b)
    → (0 < n) × (a ≡ b)
checked-positive n mnemonic a b q = elim (Bool-cases (n == 0)) [
  | inl e ↦ absurd (cc (rw e at q))
  | inr e ↦ (ground (arith, e), cc (rw e at q))
]

-- A row of the selected table is a place for the cursor.
row-valid :
    {F : Type 0} (ctx : ExecCtx F) (t : Table) (r : ℕ)
    → current_table_opt ctx ≡ some t
    → r < length t.rows
    → CursorValid ctx.tables ctx.current_table (some r)
unfolding current_table_opt
row-valid ctx t r e h = go ctx.current_table e
  where
    go :
        (o : Option ℕ)
        → elim o [ none ↦ none | some i ↦ get_elem? ctx.tables i ] ≡ some t
        → CursorValid ctx.tables o (some r)
    go none q = absurd (cc)
    go (some i) q = subst (λ o. RowValid o (some r)) (sym q) h

module _ {F : Type 0} where
  -- The cursor is put on a row that is there, and a flag is set.
  pub placed :
      (ctx : ExecCtx F) (t : Table) (i : ℕ) (z : Bool)
      → CtxValid ctx
      → current_table_opt ctx ≡ some t
      → i < length t.rows
      → KeepsAt ctx FlowInRange (set_row (some i) >>= λ set. set_z z >>= λ flagged. pure next)
  placed ctx t i z valid e lt =
      let there : CtxValid (record ctx { current_row = some i }) =
        (valid.0, row-valid ctx t i e lt) in
      record {
        at =
            (KeepsAt-machine (record ctx { current_row = some i }) there (λ u. pure next)
              (set_flags (λ flags. record flags { z = z }))
              (Keeps-set_flags (λ flags. record flags { z = z }))
              λ u. KeepsAt-next (record ctx { current_row = some i }) there).at;
      }

  pub seek_result-Keeps :
      (ctx : ExecCtx F) (t : Table) (mnemonic : String) (hit : Option ℕ)
      → CtxValid ctx
      → current_table_opt ctx ≡ some t
      → ((i : ℕ) → hit ≡ some i → i < length t.rows)
      → KeepsAt ctx FlowInRange (seek_result mnemonic (length t.rows) hit)
  unfolding seek_result
  seek_result-Keeps ctx t mnemonic (some r) valid e h = placed ctx t r false valid e (h r refl)
  seek_result-Keeps ctx t mnemonic none valid e h =
      KeepsAt-lift ctx valid _ _ (checked-Post (length t.rows) mnemonic (length t.rows - 1))
        λ last q.
          let (some_row, same) =
            checked-positive (length t.rows) mnemonic (length t.rows - 1) last q in
          placed ctx t last true valid e (omega (arith, some_row, same))

-- The table that a name selects is there, and the cursor stays only where the table does.
pub moved-valid :
    (tables : List Table) (name : Text) (idx : ℕ) (table row : Option ℕ)
    → table_index tables name ≡ some idx
    → CursorValid tables table row
    → RowValid (get_elem? tables idx) (moved table idx row)
unfolding table_index
moved-valid tables name idx table row found valid = go table valid
  where
    there : (t : Table) × (get_elem? tables idx ≡ some t)
    there = get_elem?-some tables idx (position-bound _ tables idx found)

    unset : RowValid (get_elem? tables idx) none
    unset = rw there.1 tt

    go :
        (o : Option ℕ)
        → CursorValid tables o row
        → RowValid (get_elem? tables idx) (moved o idx row)
    go none v = unset
    go (some i) v = elim (Bool-cases (i == idx)) [
      | inl e ↦ rw e (subst (λ j. RowValid (get_elem? tables j) row) ((==_iff i idx).0 e) v)
      | inr e ↦ rw e unset
    ]

pub cell_at-Post : (t : Table) (row : Option ℕ) (col : ℕ) → Post Any (cell_at t row col)
unfolding cell_at
cell_at-Post t none col = tt
cell_at-Post t (some r) col = go (get_elem? t.rows r)
  where
    go :
        (o : Option (List Text))
        → Post {A = Text} Any (elim o [
          | none ↦ err (table_row "tabget")
          | some row ↦ ok_or (get_elem? row col) (table_row "tabget")
        ])
    go none = tt
    go (some row) = ok_or-Post (get_elem? row col) (table_row "tabget") tt
