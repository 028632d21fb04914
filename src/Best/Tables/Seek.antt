-- ===== src/Best/Tables/Seek.antt =====
-- crates/best/src/exec.rs: the row that `tabseek` finds.
use klartext.Prelude.{
  ℕ, suc, ◌+◌, ◌-◌, ◌<◌, ◌≡◌, refl, sym, ap, subst, inl, inr, ◌⊎◌, Bool, true, false, List, [], ◌∷◌,
  take, none, some, length, get_elem?, ◌==◌, All, Bool-cases, arith, Result, ok,
}
use klartext.Sgbd.Cp1252.{Text}
use klartext.Sgbd.Program.{Table}
use klartext.Best.Decode.{Op}
use klartext.Best.Machine.{Machine}
use klartext.Best.Exec.{ExecError, Flow, next}
use klartext.Best.Strings.{read_string}
use klartext.Best.Context.{State}
use klartext.Best.Tables.{position, key_row, column_index, selected_table, seek_result, op_tabseek}

module _ {A : Type 0} (test : A → Bool) where
  abbrev Fails : A → Type 0
  Fails x = test x ≡ false

  -- The element at the index passes, and none before it does.
  abbrev pub FirstHit : List A → ℕ → Type 0
  FirstHit xs i = (x : A) × (get_elem? xs i ≡ some x) × (test x ≡ true) × All Fails (take i xs)

  -- No element passes, and the index is the last one.
  abbrev pub NoHit : List A → ℕ → Type 0
  NoHit xs i = All Fails xs × (i + 1 ≡ length xs)

  position-cases :
      (xs : List A)
      → ((i : ℕ) × (position test xs ≡ some i) × FirstHit xs i)
        ⊎ ((position test xs ≡ none) × All Fails xs)
  position-cases [] = inr (refl, tt)
  position-cases (x ∷ xs) = elim (Bool-cases (test x)) [
    | inl t ↦ inl (0, rw t refl, (x, refl, t, tt))
    | inr f ↦ elim (position-cases xs) [
      | inl (i, e, hit) ↦
          inl (suc i, rw (f, e) (ap some (omega arith)), (hit.0, hit.1, hit.2, (f, hit.3)))
      | inr (e, h) ↦ inr (rw (f, e) refl, (f, h))
    ]
  ]

module _ {F : Type 0} where
  -- The machine with the flag Z, and the context with the cursor on a row.
  abbrev pub sought : State F → Bool → ℕ → State F
  sought s z i =
      (record s.0 { flags = record s.0.flags { z = z } }, record s.1 { current_row = some i })

  abbrev pub Sought :
      (List Text → Bool) → List (List Text) → State F → Result ExecError Flow × State F → Type 0
  Sought test rows s out =
      (i : ℕ) × (((out ≡ (ok next, sought s false i)) × FirstHit test rows i)
        ⊎ ((out ≡ (ok next, sought s true i)) × NoHit test rows i))

  seek_result-Sought :
      (mnemonic : _) (test : List Text → Bool) (rows : List (List Text)) (s : State F)
      → 0 < length rows
      → Sought test rows s (seek_result mnemonic (length rows) (position test rows) s)
  unfolding seek_result
  seek_result-Sought mnemonic test rows s some_row = elim (position-cases test rows) [
    | inl (i, e, hit) ↦ (i, inl (rw e refl, hit))
    | inr (e, none_passes) ↦
        let positive : (length rows == 0) ≡ false = ground arith in
        (length rows - 1, inr (rw (e, positive) refl, (none_passes, omega arith)))
  ]

  -- On a selected table with a row, a seek of a key in a column of the table succeeds. It puts the cursor
  -- on the first row whose cell in that column is the key, whatever the case of the letters, and clears
  -- Z; where there is none, it puts the cursor on the last row and sets Z. The rest of the machine is
  -- as the two reads of strings left it.
  pub op_tabseek-Sought :
      (op : Op) (s : State F) (t : Table) (column key : Text) (col : ℕ) (m m' : Machine F)
      → selected_table "tabseek" s ≡ (ok t, s)
      → read_string "tabseek" op.arg0 s.0 ≡ (ok column, m)
      → read_string "tabseek" op.arg1 m ≡ (ok key, m')
      → column_index t.columns column ≡ some col
      → 0 < length t.rows
      → Sought (key_row col key) t.rows (m', s.1) (op_tabseek op s)
  unfolding op_tabseek
  op_tabseek-Sought op s t column key col m m' selected first second found some_row =
      let target =
        seek_result "tabseek" (length t.rows) (position (key_row col key) t.rows) (m', s.1) in
      let placed : (op_tabseek op s ≡ target) = ground arith in
      subst (Sought (key_row col key) t.rows (m', s.1)) (sym placed)
        (seek_result-Sought "tabseek" (key_row col key) t.rows (m', s.1) some_row)
