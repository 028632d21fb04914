-- ===== src/Prelude/Ranges.antt =====
-- A range of a list overwritten, little-endian numbers, and their lemmas.
use Prim.Native.Nat.{ℕ, zero, suc, ◌+◌, ◌-◌, ◌*◌, ◌/◌, ◌%◌, ◌≤◌, ◌<◌}
use mathlib.Core.Path.{◌≡◌, refl, sym, ap, ◌∙◌}
use mathlib.Core.List.{List, [], ◌∷◌, ◌++◌}
use mathlib.Core.Logic.{◌⊎◌, inl, inr}
use native.Mathlib.Omega.{arith}
use klartext.Prelude.Lists.{
  length, get_elem?, take, drop, All, length-append, length-take, length-drop, take-append,
  drop-append,
}

-- `n.to_le_bytes()` of a number of `count` bytes, and `from_le_bytes`.
abbrev pub to_le_bytes : (count : ℕ) → ℕ → List ℕ
to_le_bytes zero n = []
to_le_bytes (suc count) n = n % 256 ∷ to_le_bytes count (n / 256)

abbrev pub from_le_bytes : List ℕ → ℕ
from_le_bytes [] = 0
from_le_bytes (b ∷ bs) = b + from_le_bytes bs * 256

pub length-to_le_bytes : (count n : ℕ) → length (to_le_bytes count n) ≡ count
length-to_le_bytes zero n = refl
length-to_le_bytes (suc count) n = omega (arith, length-to_le_bytes count (n / 256))

pub to_le_bytes-All : (count n : ℕ) → All (λ b. b < 256) (to_le_bytes count n)
to_le_bytes-All zero n = tt
to_le_bytes-All (suc count) n = (omega arith, to_le_bytes-All count (n / 256))

module _ {ℓ} {A : Type ℓ} where
  -- `xs[start..start + ys.len()].copy_from_slice(&ys)`
  abbrev pub overwrite : List A → ℕ → List A → List A
  overwrite xs start ys = take start xs ++ (ys ++ drop (start + length ys) xs)

  abbrev pub replicate : ℕ → A → List A
  replicate zero x = []
  replicate (suc n) x = x ∷ replicate n x

  -- `xs.resize(n, x)` to a length that is no smaller.
  abbrev pub grow : List A → ℕ → A → List A
  grow xs n x = xs ++ replicate (n - length xs) x

  pub length-replicate : (n : ℕ) (x : A) → length (replicate n x) ≡ n
  length-replicate zero x = refl
  length-replicate (suc n) x = omega (arith, length-replicate n x)

  pub replicate-All {κ} : (P : A → Type κ) (n : ℕ) (x : A) → P x → All P (replicate n x)
  replicate-All P zero x p = tt
  replicate-All P (suc n) x p = (p, replicate-All P n x p)

  pub length-grow : (xs : List A) (n : ℕ) (x : A) → length xs ≤ n → length (grow xs n x) ≡ n
  length-grow xs n x h =
      omega
        (arith, length-append xs (replicate (n - length xs) x), length-replicate (n - length xs) x)

  pub length-overwrite :
      (xs : List A) (start : ℕ) (ys : List A)
      → start + length ys ≤ length xs
      → length (overwrite xs start ys) ≡ length xs
  length-overwrite xs start ys h = omega (
    arith,
    length-append (take start xs) (ys ++ drop (start + length ys) xs),
    length-append ys (drop (start + length ys) xs),
    length-take start xs (omega arith),
    length-drop (start + length ys) xs,
  )

  pub get_elem?-append_left :
      (xs ys : List A) (i : ℕ) → i < length xs → get_elem? (xs ++ ys) i ≡ get_elem? xs i
  get_elem?-append_left [] ys i h = absurd (omega arith)
  get_elem?-append_left (x ∷ xs) ys zero h = refl
  get_elem?-append_left (x ∷ xs) ys (suc i) h = get_elem?-append_left xs ys i (omega arith)

  pub get_elem?-append_right :
      (xs ys : List A) (i : ℕ)
      → length xs ≤ i
      → get_elem? (xs ++ ys) i ≡ get_elem? ys (i - length xs)
  get_elem?-append_right [] ys i h = ap (get_elem? ys) (omega arith)
  get_elem?-append_right (x ∷ xs) ys zero h = absurd (omega arith)
  get_elem?-append_right (x ∷ xs) ys (suc i) h =
      get_elem?-append_right xs ys i (omega arith) ∙ ap (get_elem? ys) (omega arith)

  pub get_elem?-take :
      (n : ℕ) (xs : List A) (i : ℕ) → i < n → get_elem? (take n xs) i ≡ get_elem? xs i
  get_elem?-take zero xs i h = absurd (omega arith)
  get_elem?-take (suc n) [] i h = refl
  get_elem?-take (suc n) (x ∷ xs) zero h = refl
  get_elem?-take (suc n) (x ∷ xs) (suc i) h = get_elem?-take n xs i (omega arith)

  pub get_elem?-drop_at :
      (n : ℕ) (xs : List A) (i : ℕ) → get_elem? (drop n xs) i ≡ get_elem? xs (n + i)
  get_elem?-drop_at zero xs i = ap (get_elem? xs) (omega arith)
  get_elem?-drop_at (suc n) [] i = refl
  get_elem?-drop_at (suc n) (x ∷ xs) i =
      let next : suc (n + i) ≡ suc n + i = omega arith in
      get_elem?-drop_at n xs i ∙ ap (get_elem? (x ∷ xs)) next

  -- An overwritten range holds the new elements, and the others stay.
  pub get_elem?-overwrite_in :
      (xs : List A) (start : ℕ) (ys : List A) (i : ℕ)
      → start + length ys ≤ length xs
      → start ≤ i
      → i < start + length ys
      → get_elem? (overwrite xs start ys) i ≡ get_elem? ys (i - start)
  get_elem?-overwrite_in xs start ys i h lo hi =
      let front = length-take start xs (omega arith) in
      get_elem?-append_right (take start xs) _ i (omega arith)
      ∙ get_elem?-append_left ys _ (i - length (take start xs)) (omega arith)
      ∙ ap (get_elem? ys) (omega arith)

  pub get_elem?-overwrite_out :
      (xs : List A) (start : ℕ) (ys : List A) (i : ℕ)
      → start + length ys ≤ length xs
      → (i < start) ⊎ (start + length ys ≤ i)
      → get_elem? (overwrite xs start ys) i ≡ get_elem? xs i
  get_elem?-overwrite_out xs start ys i h (inl lo) =
      let front = length-take start xs (omega arith) in
      get_elem?-append_left (take start xs) _ i (omega arith) ∙ get_elem?-take start xs i lo
  get_elem?-overwrite_out xs start ys i h (inr hi) =
      let front = length-take start xs (omega arith) in
      get_elem?-append_right (take start xs) _ i (omega arith)
      ∙ get_elem?-append_right ys _ (i - length (take start xs)) (omega arith)
      ∙ get_elem?-drop_at (start + length ys) xs _
      ∙ ap (get_elem? xs) (omega arith)

  -- The overwritten range itself.
  pub range-overwrite :
      (xs : List A) (start : ℕ) (ys : List A)
      → start + length ys ≤ length xs
      → take (length ys) (drop start (overwrite xs start ys)) ≡ ys
  range-overwrite xs start ys h =
      let front : drop (length (take start xs)) (overwrite xs start ys)
          ≡ ys ++ drop (start + length ys) xs =
        drop-append (take start xs) (ys ++ drop (start + length ys) xs) in
      ap (take (length ys)) (
        ap (λ n. drop n (overwrite xs start ys)) (sym (length-take start xs (omega arith))) ∙ front)
      ∙ take-append ys (drop (start + length ys) xs)
