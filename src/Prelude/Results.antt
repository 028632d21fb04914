-- ===== src/Prelude/Results.antt =====
-- Rust's `Result<A, E>`, the `?` operator, and checked reads of slices. `panic` is no value of the
-- source: it stands for an index or a range out of bounds, on which the program aborts.
use Prim.Native.Nat.{ℕ, suc, ◌-◌, ◌≤◌}
use mathlib.Core.Path.{◌≡◌, refl, ap, ◌∙◌}
use mathlib.Core.Bool.{◌&&◌}
use mathlib.Core.List.{List, [], ◌∷◌, ◌++◌, append_assoc, append-nil}
use mathlib.Core.Option.{Option, none, some}
use mathlib.Core.Logic.{◌⊎◌, inl, inr}
use native.Mathlib.Omega.{arith}
use klartext.Prelude.Tests.{leb, le→leb, if◌then◌else◌}
use klartext.Prelude.Lists.{
  length, get_elem?, take, drop, get_elem?-append, length-append, take-append, drop-append,
}

pub data Result {ℓ κ} (E : Type ℓ) (A : Type κ) : Type (ℓ ⊔ κ) where
  ok : A → Result E A
  err : E → Result E A
  panic : Result E A

infixl 5 ◌>>=◌
abbrev pub ◌>>=◌ {ℓ κ μ} :
    {E : Type ℓ} {A : Type κ} {B : Type μ} → Result E A → (A → Result E B) → Result E B
ok a >>= f = f a
err e >>= f = err e
panic >>= f = panic

-- `option.ok_or(error)`
abbrev pub ok_or {ℓ κ} : {E : Type ℓ} {A : Type κ} → Option A → E → Result E A
ok_or none e = err e
ok_or (some a) e = ok a

-- `result.map(f)`
abbrev pub map_ok {ℓ κ μ} :
    {E : Type ℓ} {A : Type κ} {B : Type μ} → (A → B) → Result E A → Result E B
map_ok f (ok a) = ok (f a)
map_ok f (err e) = err e
map_ok f panic = panic

-- `result.map_err(f)`
abbrev pub map_err {ℓ κ μ} :
    {E : Type ℓ} {F : Type κ} {A : Type μ} → (E → F) → Result E A → Result F A
map_err f (ok a) = ok a
map_err f (err e) = err (f e)
map_err f panic = panic

-- To split on a computed result and keep the equation.
pub Result-cases {ℓ κ} :
    {E : Type ℓ} {A : Type κ} (r : Result E A)
    → ((a : A) × (r ≡ ok a)) ⊎ ((e : E) × (r ≡ err e)) ⊎ (r ≡ panic)
Result-cases (ok a) = inl (a, refl)
Result-cases (err e) = inr (inl (e, refl))
Result-cases panic = inr (inr refl)

-- `xs[i]`
unfoldable pub index {ℓ κ} : {E : Type ℓ} {A : Type κ} → List A → ℕ → Result E A
index xs i = elim (get_elem? xs i) [ none ↦ panic | some x ↦ ok x ]

-- `xs[lo..hi]`
unfoldable pub slice {ℓ κ} : {E : Type ℓ} {A : Type κ} → List A → ℕ → ℕ → Result E (List A)
slice xs lo hi = if leb lo hi && leb hi (length xs) then ok (take (hi - lo) (drop lo xs)) else panic

-- `xs.get(lo..hi)`, and `xs.get(lo..)`.
unfoldable pub get_range? {ℓ} : {A : Type ℓ} → List A → ℕ → ℕ → Option (List A)
get_range? xs lo hi =
    if leb lo hi && leb hi (length xs) then some (take (hi - lo) (drop lo xs)) else none

unfoldable pub get_from? {ℓ} : {A : Type ℓ} → List A → ℕ → Option (List A)
get_from? xs lo = if leb lo (length xs) then some (drop lo xs) else none

pub get_from?-one {ℓ} : {A : Type ℓ} (x : A) (xs : List A) → get_from? (x ∷ xs) 1 ≡ some xs
unfolding get_from?
get_from?-one x xs = rw (le→leb 1 (suc (length xs)) (omega arith))

pub get_from?-two {ℓ} : {A : Type ℓ} (x y : A) (xs : List A) → get_from? (x ∷ y ∷ xs) 2 ≡ some xs
unfolding get_from?
get_from?-two x y xs = rw (le→leb 2 (suc (suc (length xs))) (omega arith))

pub get_range?-two {ℓ} :
    {A : Type ℓ} (x y : A) (xs : List A) → get_range? (x ∷ y ∷ xs) 0 2 ≡ some (x ∷ y ∷ [])
unfolding get_range?
get_range?-two x y xs = rw (le→leb 2 (suc (suc (length xs))) (omega arith))

module _ {ℓ κ} {E : Type ℓ} {A : Type κ} where
  pub index-append :
      (xs : List A) (y : A) (ys : List A) → index {E = E} (xs ++ y ∷ ys) (length xs) ≡ ok y
  unfolding index
  index-append xs y ys = rw (get_elem?-append xs y ys, index)

  pub index-ok : (xs : List A) (i : ℕ) {x : A} → get_elem? xs i ≡ some x → index {E = E} xs i ≡ ok x
  unfolding index
  index-ok xs i e = rw (e, index)

  -- A range in bounds yields its elements.
  pub slice-ok :
      (xs : List A) (lo hi : ℕ)
      → lo ≤ hi
      → hi ≤ length xs
      → slice {E = E} xs lo hi ≡ ok (take (hi - lo) (drop lo xs))
  unfolding slice
  slice-ok xs lo hi h k = rw (le→leb lo hi h, le→leb hi (length xs) k)

  pub slice_front :
      (xs : List A) (hi : ℕ) → hi ≤ length xs → slice {E = E} xs 0 hi ≡ ok (take hi xs)
  slice_front xs hi h = slice-ok xs 0 hi (omega arith) h ∙ ap ok (ap (λ n. take n xs) (omega arith))

  pub slice_prefix : (xs ys : List A) → slice {E = E} (xs ++ ys) 0 (length xs) ≡ ok xs
  slice_prefix xs ys =
      slice_front (xs ++ ys) (length xs) (omega (arith, length-append xs ys))
      ∙ ap ok (take-append xs ys)

  pub slice_middle :
      (xs ys zs : List A) → slice {E = E} (xs ++ ys ++ zs) (length xs) (length (xs ++ ys)) ≡ ok ys
  slice_middle xs ys zs =
      slice-ok _ (length xs) (length (xs ++ ys)) (omega (arith, length-append xs ys))
        (omega (arith, length-append (xs ++ ys) zs))
      ∙ ap ok (
          rw (append_assoc, drop-append, length-append)
            (ap (λ n. take n (ys ++ zs)) (omega arith) ∙ take-append ys zs))

  pub slice_suffix :
      (xs ys : List A) → slice {E = E} (xs ++ ys) (length xs) (length (xs ++ ys)) ≡ ok ys
  slice_suffix xs ys = rw append-nil at (slice_middle xs ys [])
