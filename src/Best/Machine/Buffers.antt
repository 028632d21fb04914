-- ===== src/Best/Machine/Buffers.antt =====
-- crates/best/src/machine.rs: indexed stores to the string buffers, and the reversal of a slice.
use klartext.Prelude.{
  ℕ, zero, suc, ◌+◌, ◌-◌, ◌≤◌, ◌<◌, ◌≡◌, refl, sym, ap, subst, ◌∙◌, inl, inr, Option, some, List,
  [], ◌∷◌, ◌++◌, length, get_elem?, set, take, drop, ltb, if◌then◌else◌, Result, ok, ok_or, map_ok,
  ◌>>=◌, arith, le→ltb, Bool-cases, overwrite, grow, replicate, length-overwrite, length-grow,
  length-append, range-overwrite, get_elem?-overwrite_out, take-append, drop-append, drop_all,
  append-nil, get_elem?-append_left,
}
use mathlib.Core.List.{reverse, reverse-cons, reverse-reverse}
use klartext.Best.Decode.{bank_s, RegId, IndexArg, imm_index, indexed}
use klartext.Best.Machine.{
  array_max_size, Value, bytes, MachineError, out_of_range, Machine, with_s, resolve_index,
  indexed_base, read_indexed, read, stored_bytes, store_at, swap_range, put_s, write_at,
  write_indexed, swap_s_slice, slice_at,
}
use klartext.Best.Machine.Bytes.{take_one}

get_elem?-set :
    {A : Type 0} (xs : List A) (i : ℕ) (x : A) → i < length xs → get_elem? (set xs i x) i ≡ some x
get_elem?-set [] i x h = absurd (omega arith)
get_elem?-set (y ∷ ys) zero x h = refl
get_elem?-set (y ∷ ys) (suc i) x h = get_elem?-set ys i x (omega arith)

get_elem?-lt : {A : Type 0} (xs : List A) (i : ℕ) {x : A} → get_elem? xs i ≡ some x → i < length xs
get_elem?-lt [] i e = cc
get_elem?-lt (x ∷ xs) zero e = omega arith
get_elem?-lt (x ∷ xs) (suc i) e = omega (arith, get_elem?-lt xs i e)

set-set : {A : Type 0} (xs : List A) (i : ℕ) (x y : A) → set (set xs i x) i y ≡ set xs i y
set-set [] i x y = refl
set-set (z ∷ zs) zero x y = refl
set-set (z ∷ zs) (suc i) x y = ap (λ t. z ∷ t) (set-set zs i x y)

set_same : {A : Type 0} (xs : List A) (i : ℕ) {x : A} → get_elem? xs i ≡ some x → set xs i x ≡ xs
set_same [] i e = refl
set_same (y ∷ ys) zero e = cc
set_same (y ∷ ys) (suc i) e = ap (λ t. y ∷ t) (set_same ys i e)

-- A buffer made long enough for `n` elements.
abbrev fitted : List ℕ → ℕ → List ℕ
fitted buffer n = if ltb (length buffer) n then grow buffer n 0 else buffer

length-fitted : (buffer : List ℕ) (n : ℕ) → n ≤ length (fitted buffer n)
length-fitted buffer n = elim (Bool-cases (ltb (length buffer) n)) [
  | inl e ↦ rw e (omega (arith, length-grow buffer n 0 (ground (arith, e))))
  | inr e ↦ rw e (ground (arith, e))
]

-- A store leaves its bytes in the buffer, and the bytes before them as they were.
store_at-range :
    (buffer : List ℕ) (idx : ℕ) (b : List ℕ)
    → take (length b) (drop idx (store_at buffer idx b)) ≡ b
unfolding store_at
store_at-range buffer idx b =
    range-overwrite (fitted buffer (idx + length b)) idx b (length-fitted buffer (idx + length b))

store_at-before :
    (buffer : List ℕ) (idx : ℕ) (b : List ℕ) (j : ℕ)
    → j < idx
    → j < length buffer
    → get_elem? (store_at buffer idx b) j ≡ get_elem? buffer j
unfolding store_at
store_at-before buffer idx b j h k =
    get_elem?-overwrite_out (fitted buffer (idx + length b)) idx b j
      (length-fitted buffer (idx + length b)) (inl h)
    ∙ kept
  where
    kept : get_elem? (fitted buffer (idx + length b)) j ≡ get_elem? buffer j
    kept = elim (Bool-cases (ltb (length buffer) (idx + length b))) [
      | inl e ↦ rw e (get_elem?-append_left buffer _ j k)
      | inr e ↦ rw e refl
    ]

length-store_at :
    (buffer : List ℕ) (idx : ℕ) (b : List ℕ)
    → length (store_at buffer idx b) ≡ length (fitted buffer (idx + length b))
unfolding store_at
length-store_at buffer idx b =
    length-overwrite (fitted buffer (idx + length b)) idx b (length-fitted buffer (idx + length b))

-- A slice within a buffer is the range itself.
slice_at-range :
    (buffer : List ℕ) (idx : ℕ) (b : List ℕ)
    → take (length b) (drop idx buffer) ≡ b
    → idx + length b ≤ length buffer
    → idx + length b ≤ array_max_size
    → slice_at buffer idx (length b) ≡ ok b
unfolding slice_at
slice_at-range buffer idx b e h k = elim (Bool-cases (ltb idx (length buffer))) [
  | inl q ↦
      let all : 0 ≡ length b - length b = omega arith in
      rw (le→ltb array_max_size (idx + length b) k, q, e)
        (ap ok (ap (λ n. b ++ replicate n 0) (sym all) ∙ append-nil b))
  | inr q ↦
      let empty : 0 ≡ length b = ground (arith, h, q) in
      rw (le→ltb array_max_size (idx + length b) k, q) (ap ok (nothing b (sym empty)))
]
  where
    nothing : (xs : List ℕ) → length xs ≡ 0 → replicate (length xs) 0 ≡ xs
    nothing [] z = refl
    nothing (x ∷ xs) z = absurd (omega arith)

length-reverse : (xs : List ℕ) → length (reverse xs) ≡ length xs
length-reverse [] = refl
length-reverse (x ∷ xs) =
    ap length (reverse-cons x xs)
    ∙ omega (arith, length-append (reverse xs) (x ∷ []), length-reverse xs)

drop_add : (m n : ℕ) (xs : List ℕ) → drop (m + n) xs ≡ drop n (drop m xs)
drop_add zero n xs = ap (λ k. drop k xs) (omega arith)
drop_add (suc m) n [] = drop_all (suc m + n) [] (omega arith) ∙ sym (drop_all n [] (omega arith))
drop_add (suc m) n (x ∷ xs) =
    let next : suc m + n ≡ suc (m + n) = omega arith in rw next (drop_add m n xs)

-- The overwritten middle of a list.
overwrite-append :
    (a b c r : List ℕ)
    → length r ≡ length b
    → overwrite (a ++ (b ++ c)) (length a) r ≡ a ++ (r ++ c)
overwrite-append a b c r same =
    ap (λ t. t ++ (r ++ drop (length a + length r) (a ++ (b ++ c)))) (take-append a (b ++ c))
    ∙ ap (λ t. a ++ (r ++ t))
        (drop_add (length a) (length r) (a ++ (b ++ c))
          ∙ ap (drop (length r)) (drop-append a (b ++ c))
          ∙ ap (λ n. drop n (b ++ c)) same
          ∙ drop-append b c)

-- The reversal of a range within a buffer turns that range around and leaves the rest.
swap_range-append :
    (a b c : List ℕ) → swap_range (a ++ (b ++ c)) (length a) (length b) ≡ a ++ (reverse b ++ c)
unfolding swap_range
swap_range-append a b c = rw (le→ltb (length xs) (length a + length b) fits) (
    ap (λ t. take (length xs) (overwrite xs (length a) (reverse t))) middle
    ∙ ap (take (length xs)) (overwrite-append a b c (reverse b) (length-reverse b))
    ∙ whole)
  where
    xs : List ℕ
    xs = a ++ (b ++ c)

    middle : take (length b) (drop (length a) xs) ≡ b
    middle = ap (take (length b)) (drop-append a (b ++ c)) ∙ take-append b c

    fits : length a + length b ≤ length xs
    fits = omega (arith, length-append a (b ++ c), length-append b c)

    same : length xs ≡ length (a ++ (reverse b ++ c))
    same = omega (
      arith,
      length-append a (b ++ c),
      length-append b c,
      length-append a (reverse b ++ c),
      length-append (reverse b) c,
      length-reverse b,
    )

    whole : take (length xs) (a ++ (reverse b ++ c)) ≡ a ++ (reverse b ++ c)
    whole =
        ap (λ n. take n (a ++ (reverse b ++ c))) same
        ∙ ap (take (length (a ++ (reverse b ++ c)))) (sym (append-nil (a ++ (reverse b ++ c))))
        ∙ take-append (a ++ (reverse b ++ c)) []

module _ {F : Type 0} (m : Machine F) (n : ℕ) where
  put_s-ok :
      (buffer : List ℕ) (change : List ℕ → List ℕ)
      → get_elem? m.s n ≡ some buffer
      → put_s m n change ≡ ok (with_s m (set m.s n (change buffer)))
  unfolding put_s
  put_s-ok buffer change e = rw (e, put_s) refl

-- `swap_s_slice` turns a range of the named buffer around, and changes nothing else of it.
pub swap_s_slice-reverse :
    {F : Type 0} (m : Machine F) (n : ℕ) (a b c : List ℕ)
    → get_elem? m.s n ≡ some (a ++ (b ++ c))
    → let m' = with_s m (set m.s n (a ++ (reverse b ++ c))) in
      swap_s_slice m record { bank = bank_s; idx = n } (length a) (length b) ≡ ok m'
unfolding swap_s_slice
swap_s_slice-reverse m n a b c e =
    put_s-ok m n (a ++ (b ++ c)) (λ buffer. swap_range buffer (length a) (length b)) e
    ∙ ap (λ xs. ok (with_s m (set m.s n xs))) (swap_range-append a b c)

-- A reversal is undone by itself.
pub swap_s_slice_twice :
    {F : Type 0} (m : Machine F) (n : ℕ) (a b c : List ℕ)
    → get_elem? m.s n ≡ some (a ++ (b ++ c))
    → (swap_s_slice m record { bank = bank_s; idx = n } (length a) (length b) >>= λ m'.
        swap_s_slice m' record { bank = bank_s; idx = n } (length a) (length b))
      ≡ ok m
swap_s_slice_twice {F} m n a b c e =
    ap (λ r. r >>= again) (swap_s_slice-reverse m n a b c e)
    ∙ subst (λ k. swap_s_slice turned base (length a) k ≡ ok (with_s m (set turned.s n back)))
        (length-reverse b)
        (swap_s_slice-reverse turned n a (reverse b) c
          (get_elem?-set m.s n (a ++ (reverse b ++ c)) (get_elem?-lt m.s n e)))
    ∙ ap (λ t. ok (with_s m t)) restored
  where
    base : RegId
    base = record { bank = bank_s; idx = n }

    again : Machine F → Result MachineError (Machine F)
    again m' = swap_s_slice m' base (length a) (length b)

    turned : Machine F
    turned = with_s m (set m.s n (a ++ (reverse b ++ c)))

    back : List ℕ
    back = a ++ (reverse (reverse b) ++ c)

    restored : set turned.s n back ≡ m.s
    restored =
        set-set m.s n _ back
        ∙ ap (λ t. set m.s n (a ++ (t ++ c))) (reverse-reverse b)
        ∙ set_same m.s n e

module _ {F : Type 0} (m : Machine F) (n : ℕ) (buffer : List ℕ)
    (e : get_elem? m.s n ≡ some buffer) where
  -- An indexed read with immediate bounds.
  read_slice :
      (i k : ℕ) {b : List ℕ}
      → slice_at buffer i k ≡ ok b
      → read m (indexed record { bank = bank_s; idx = n } (imm_index i) (some (imm_index k)))
        ≡ ok (bytes b)
  unfolding read read_indexed indexed_base resolve_index
  read_slice i k q =
      let base : ok_or (get_elem? m.s n) (out_of_range bank_s n) ≡ ok buffer = rw e refl in
      rw (base, read, read_indexed, indexed_base, resolve_index) (ap (map_ok (λ b. bytes b)) q)

  write_at-ok :
      (idx : ℕ) (b : List ℕ)
      → idx + length b ≤ array_max_size
      → write_at m n idx b ≡ ok (with_s m (set m.s n (store_at buffer idx b)))
  unfolding write_at
  write_at-ok idx b fits =
      rw (le→ltb array_max_size (idx + length b) fits)
        (put_s-ok m n buffer (λ old. store_at old idx b) e)

-- An integer or a byte string stored at an index of a buffer is what an indexed read of its length
-- finds there, and a byte before the index stays.
pub write_indexed-read :
    {F : Type 0} (m : Machine F) (n : ℕ) (index : IndexArg) (len : Option IndexArg)
    (value : Value F) (count idx j : ℕ) (buffer b : List ℕ) {x : ℕ}
    → get_elem? m.s n ≡ some buffer
    → stored_bytes value count ≡ ok b
    → resolve_index m index ≡ ok idx
    → idx + length b ≤ array_max_size
    → j < idx
    → get_elem? buffer j ≡ some x
    → (m' : Machine F) × (write_indexed m
          (indexed record { bank = bank_s; idx = n } index len)
          value
          count
        ≡ ok m')
      × (read m' (
            indexed record { bank = bank_s; idx = n } (imm_index idx) (some (imm_index (length b))))
          ≡ ok (bytes b))
      × (read m' (indexed record { bank = bank_s; idx = n } (imm_index j) (some (imm_index 1)))
          ≡ ok (bytes (x ∷ [])))
unfolding write_indexed
write_indexed-read m n index len value count idx j buffer b {x} e stored at fits before old =
    let long : idx + length b ≤ length (store_at buffer idx b) =
      omega (arith, length-store_at buffer idx b, length-fitted buffer (idx + length b)) in
    let here = get_elem?-set m.s n (store_at buffer idx b) (get_elem?-lt m.s n e) in
    (
      with_s m (set m.s n (store_at buffer idx b)),
      ap (λ r. r >>= λ bs. resolve_index m index >>= λ i. write_at m n i bs) stored
          ∙ ap (λ r. r >>= λ i. write_at m n i b) at
          ∙ write_at-ok m n buffer e idx b fits,
      read_slice (with_s m (set m.s n (store_at buffer idx b))) n (store_at buffer idx b) here idx
          (length b)
          (slice_at-range (store_at buffer idx b) idx b (store_at-range buffer idx b) long fits),
      read_slice (with_s m (set m.s n (store_at buffer idx b))) n (store_at buffer idx b) here j 1 (
          slice_at-range (store_at buffer idx b) j (x ∷ [])
            (take_one (store_at buffer idx b) j
              (store_at-before buffer idx b j before (get_elem?-lt buffer j old) ∙ old))
            (omega (arith, long)) (omega (arith, fits))),
    )
