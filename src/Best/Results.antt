-- ===== src/Best/Results.antt =====
-- crates/best/src/result.rs: the result sets of a job. The type of the floats is a parameter.
use klartext.Prelude.{
  ℕ, List, [], ◌∷◌, ◌++◌, Option, none, some, length, if◌then◌else◌, Result, ok, panic,
}
use klartext.Sgbd.Cp1252.{Text}
use klartext.Sgbd.Program.{texts_equal}

pub data ResultData (F : Type 0) : Type 0 where
  byte word dword integer : ℕ → ResultData F
  real : F → ResultData F
  text : Text → ResultData F
  binary : List ℕ → ResultData F

abbrev pub Set : Type 0 → Type 0
Set F = List (Text × ResultData F)

-- The last set is the current one.
pub record ResultSet (F : Type 0) : Type 0 where
  pub sets : List (Set F)

-- `last`, on which `expect` aborts where there is none.
abbrev pub last {ℓ} : {A : Type ℓ} → List A → Option A
last [] = none
last (x ∷ []) = some x
last (x ∷ y ∷ xs) = last (y ∷ xs)

-- A change of the last element.
abbrev pub change_last {ℓ} : {A : Type ℓ} → (A → A) → List A → List A
change_last f [] = []
change_last f (x ∷ []) = f x ∷ []
change_last f (x ∷ y ∷ xs) = x ∷ change_last f (y ∷ xs)

abbrev find_value : {F : Type 0} → Set F → Text → Option (ResultData F)
find_value [] name = none
find_value ((n, value) ∷ set) name = if texts_equal n name then some value else find_value set name

module _ {F : Type 0} where
  abbrev pub new_results : ResultSet F
  new_results = record { sets = [] ∷ [] }

  unfoldable pub current : {E : Type 0} → ResultSet F → Result E (Set F)
  current results = elim (last results.sets) [ none ↦ panic | some set ↦ ok set ]

  unfoldable pub push_named :
      {E : Type 0} → ResultSet F → Text → ResultData F → Result E (ResultSet F)
  push_named results name value = elim (last results.sets) [
    | none ↦ panic
    | some set ↦
        ok record { sets = change_last (λ pairs. pairs ++ (name, value) ∷ []) results.sets }
  ]

  unfoldable pub new_set : ResultSet F → ResultSet F
  new_set results = record { sets = results.sets ++ [] ∷ [] }

  unfoldable pub get_value : {E : Type 0} → ResultSet F → Text → Result E (Option (ResultData F))
  get_value results name = elim (last results.sets) [
    | none ↦ panic
    | some set ↦ ok (find_value set name)
  ]

  abbrev pub sets_len : ResultSet F → ℕ
  sets_len results = length results.sets
