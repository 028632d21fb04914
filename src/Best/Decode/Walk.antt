-- ===== src/Best/Decode/Walk.antt =====
-- crates/best/src/decode.rs: `decode_job` walks a job from its start, instruction by instruction.
use klartext.Prelude.{
  ℕ, zero, suc, ◌+◌, ◌-◌, ◌≤◌, ◌≡◌, ◌≢◌, refl, sym, ap, ap₂, subst, ◌∙◌, ◌⊎◌, inl, inr, Bool, true,
  false, ◌||◌, Option, some, bit_and, ◌/◌, List, [], ◌∷◌, ◌++◌, append_assoc, append-nil, length,
  get_elem?, ltb, Bool-cases, if◌then◌else◌, ◌==◌, Result, ok, err, panic, Result-cases, arith,
  IsByte, All, le→ltb, Option-cases,
}
use klartext.Best.Opcode.{OpInfo, unimplemented, info}
use klartext.Best.Decode.{
  eoj, Op, DecodeError, Reader, DecodeM, ◌>>=◌, lift, advance, new, read_u8, validate, position,
  decode_one, decode_loop, decode_job, from_nibble, read_operand,
}
use klartext.Best.Decode.Reads.{After}
use klartext.Best.Decode.Operands.{OpInRange, decode_one-Yields}

-- To use that a computation with two parts has succeeded.
both_ok :
    {A B : Type 0} {C : Type 0} (m : DecodeM A) (f : A → DecodeM B) (r : Reader) {s : B × Reader}
    → (m >>= f) r ≡ ok s
    → ((a : A) (r₁ : Reader) → m r ≡ ok (a, r₁) → f a r₁ ≡ ok s → C)
    → C
both_ok {A} {B} {C} m f r {s} e next = split (m r) refl e
  where
    split :
        (t : Result DecodeError (A × Reader)) → m r ≡ t → ◌>>=◌ (λ (x : Reader). t) f r ≡ ok s → C
    split (ok t) q h = next t.0 t.1 q h
    split (err x) q h = absurd (cc)
    split panic q h = absurd (cc)

position_ok :
    {B : Type 0} (r : Reader) {s : B × Reader} (f : ℕ → DecodeM B)
    → (position >>= f) r ≡ ok s
    → f r.pos r ≡ ok s
unfolding position
position_ok r f e = e

module _ {B : Type 0} {C : Type 0} (r : Reader) {s : B × Reader} where
  read_u8_ok :
      (f : ℕ → DecodeM B)
      → (read_u8 >>= f) r ≡ ok s
      → ((b : ℕ) → get_elem? r.code r.pos ≡ some b → f b (advance 1 r) ≡ ok s → C)
      → C
  unfolding read_u8
  read_u8_ok f e next = elim (Option-cases (get_elem? r.code r.pos)) [
    | inl q ↦ absurd (cc (rw (q, read_u8, ◌>>=◌) at e))
    | inr (b, q) ↦ next b q (rw (q, read_u8, ◌>>=◌) at e)
  ]

  lift_ok :
      {A : Type 0} (t : Result DecodeError A) (f : A → DecodeM B)
      → (lift t >>= f) r ≡ ok s
      → ((a : A) → t ≡ ok a → f a r ≡ ok s → C)
      → C
  lift_ok (ok a) f e next = next a refl e
  lift_ok (err x) f e next = absurd (cc)
  lift_ok panic f e next = absurd (cc)

decode_one-ok :
    (r r' : Reader) (op : Op)
    → decode_one r ≡ ok (op, r')
    → (op.offset ≡ r.pos)
      × (op.len ≡ r'.pos - r.pos)
      × (get_elem? r.code r.pos ≡ some op.byte)
      × (get_elem? r.code (r.pos + 1) ≡ some op.mode_byte)
      × (validate op.byte ≡ ok tt)
unfolding decode_one
decode_one-ok r r' op e =
    let h₀ = position_ok r _ e in
    read_u8_ok r _ h₀ λ byte e₁ h₁. lift_ok (advance 1 r) (validate byte) _ h₁ λ valid e₂ h₂.
      read_u8_ok (advance 1 r) _ h₂ λ mode_byte e₃ h₃.
        both_ok (lift (from_nibble (mode_byte / 16))) _ (advance 1 (advance 1 r)) h₃
          λ mode0 r₄ e₄ h₄. both_ok (read_operand mode0) _ r₄ h₄ λ arg0 r₅ e₅ h₅.
            both_ok (lift (from_nibble (bit_and mode_byte 0x0f))) _ r₅ h₅ λ mode1 r₆ e₆ h₆.
              both_ok (read_operand mode1) _ r₆ h₆ λ arg1 r₇ e₇ h₇.
                let h₈ = position_ok r₇ _ h₇ in
                let same : record {
                  byte = byte;
                  mode_byte = mode_byte;
                  arg0 = arg0;
                  arg1 = arg1;
                  len = r₇.pos - r.pos;
                  offset = r.pos;
                }
                    ≡ op =
                  cc h₈ in
                let last : r₇ ≡ r' = cc h₈ in
                (
                  sym (ap (λ (x : Op). x.offset) same),
                  sym (ap (λ (x : Op). x.len) same) ∙ ap (λ (x : Reader). x.pos - r.pos) last,
                  e₁ ∙ ap (λ (x : Op). some x.byte) same,
                  e₃ ∙ ap (λ (x : Op). some x.mode_byte) same,
                  subst (λ (x : Op). validate x.byte ≡ ok tt) same e₂,
                )

-- An opcode of the table that is not classed as unimplemented.
abbrev pub Implemented : ℕ → Type 0
Implemented byte = (i : OpInfo) × (info byte ≡ some i) × (i.class ≢ unimplemented)

validate-Implemented : (byte : ℕ) → validate byte ≡ ok tt → Implemented byte
unfolding validate
validate-Implemented byte e = elim (Option-cases (info byte)) [
  | inl unknown ↦ absurd (cc (rw (unknown, validate) at e))
  | inr (i, known) ↦ (i, known, λ c. absurd (cc (rw (known, validate, c) at e)))
]

-- The instruction `op` stands at `start`: its opcode, which is implemented, its mode byte, and operands
-- whose registers exist.
unfoldable pub IsAt : List ℕ → ℕ → Op → Type 0
IsAt code start op =
    (op.offset ≡ start)
    × (2 ≤ op.len)
    × (get_elem? code start ≡ some op.byte)
    × (get_elem? code (start + 1) ≡ some op.mode_byte)
    × Implemented op.byte
    × OpInRange op

-- The instructions fill the code from `start` to `end` without a gap.
abbrev pub Tiles : List ℕ → ℕ → List Op → ℕ → Type 0
Tiles code start [] end = start ≡ end
Tiles code start (op ∷ ops) end = IsAt code start op × Tiles code (start + op.len) ops end

-- A test for an `eoj` among instructions.
abbrev pub has_eoj : List Op → Bool
has_eoj [] = false
has_eoj (op ∷ ops) = (op.byte == eoj) || has_eoj ops

abbrev pub reader_at : List ℕ → ℕ → Reader
reader_at code pos = record { code = code; pos = pos }

decode_one-IsAt :
    (code : List ℕ) (pos : ℕ) (op : Op) (r' : Reader)
    → All IsByte code
    → pos ≤ length code
    → decode_one (reader_at code pos) ≡ ok (op, r')
    → IsAt code pos op × (r' ≡ reader_at code (pos + op.len)) × (pos + op.len ≤ length code)
unfolding IsAt
decode_one-IsAt code pos op r' b h e =
    let (p, same, far, within) = subst (After OpInRange 2 r) e (decode_one-Yields.after r h b) in
    let (offset, len, byte, mode_byte, valid) = decode_one-ok r r' op e in
    let there : r'.pos ≡ pos + op.len = omega arith in
    (
      (offset, omega arith, byte, mode_byte, validate-Implemented op.byte valid, p),
      ap₂ reader_at same there,
      omega arith,
    )
  where
    r : Reader
    r = reader_at code pos

-- How a walk over the instructions `ops` from the start of a job ends at `end`: at the end of the
-- code, or at bytes that are no instruction, which is an error unless an `eoj` came before.
abbrev pub Ends : List ℕ → List Op → Bool → ℕ → Option (Result DecodeError (List Op)) → Type 0
Ends code ops seen_eoj end result =
    ((end ≡ length code) × (result ≡ some (ok ops)))
    ⊎ ((e : DecodeError) × (decode_one (reader_at code end) ≡ err e)
        × (((seen_eoj ≡ true) × (result ≡ some (ok ops)))
            ⊎ ((seen_eoj ≡ false) × (result ≡ some (err e)))))

abbrev pub Walk : List ℕ → ℕ → List Op → Bool → Option (Result DecodeError (List Op)) → Type 0
Walk code pos ops seen_eoj result =
    (more : List Op) × (end : ℕ) × Tiles code pos more end
    × (end ≤ length code)
    × Ends code (ops ++ more) (has_eoj more || seen_eoj) end result

or_shuffle : (a b c : Bool) → (a || (b || c)) ≡ ((b || a) || c)
or_shuffle true true c = refl
or_shuffle true false c = refl
or_shuffle false true c = refl
or_shuffle false false c = refl

module _ (code : List ℕ) (bytes : All IsByte code) where
  finished :
      (fuel pos : ℕ) (ops : List Op) (seen_eoj : Bool)
      → pos ≡ length code
      → Walk code pos ops seen_eoj (decode_loop fuel (reader_at code pos) ops seen_eoj)
  unfolding decode_loop
  finished zero pos ops seen_eoj e = (
    [],
    pos,
    refl,
    omega arith,
    inl (e, rw (le→ltb pos (length code) (omega arith), decode_loop, append-nil) refl),
  )
  finished (suc fuel) pos ops seen_eoj e = (
    [],
    pos,
    refl,
    omega arith,
    inl (e, rw (le→ltb pos (length code) (omega arith), decode_loop, append-nil) refl),
  )

  prefix :
      (pos : ℕ) (op : Op) (ops : List Op) (seen_eoj : Bool)
      {result : Option (Result DecodeError (List Op))}
      → IsAt code pos op
      → Walk code (pos + op.len) (ops ++ op ∷ []) ((op.byte == eoj) || seen_eoj) result
      → Walk code pos ops seen_eoj result
  prefix pos op ops seen_eoj {result} at (more, end, tiles, within, ends) = (
    op ∷ more,
    end,
    (at, tiles),
    within,
    subst (λ b. Ends code (ops ++ op ∷ more) b end result) (or_shuffle (has_eoj more) _ seen_eoj)
        (subst (λ xs. Ends code xs (has_eoj more || ((op.byte == eoj) || seen_eoj)) end result)
          (append_assoc ops (op ∷ []) more) ends),
  )

  loop_next :
      (fuel pos : ℕ) (ops : List Op) (seen_eoj : Bool) (s : Op × Reader)
      → ltb pos (length code) ≡ true
      → decode_one (reader_at code pos) ≡ ok s
      → decode_loop (suc fuel) (reader_at code pos) ops seen_eoj
        ≡ decode_loop fuel s.1 (ops ++ s.0 ∷ []) ((s.0.byte == eoj) || seen_eoj)
  unfolding decode_loop
  loop_next fuel pos ops seen_eoj s e q = rw (e, q, decode_loop)

  loop_stops :
      (fuel pos : ℕ) (ops : List Op) (seen_eoj : Bool) (x : DecodeError)
      → ltb pos (length code) ≡ true
      → decode_one (reader_at code pos) ≡ err x
      → decode_loop (suc fuel) (reader_at code pos) ops seen_eoj
        ≡ some (if seen_eoj then ok ops else err x)
  unfolding decode_loop
  loop_stops fuel pos ops seen_eoj x e q = rw (e, q, decode_loop)

  stopped :
      (pos : ℕ) (ops : List Op) (seen_eoj : Bool) (x : DecodeError)
      → pos ≤ length code
      → decode_one (reader_at code pos) ≡ err x
      → Walk code pos ops seen_eoj (some (if seen_eoj then ok ops else err x))
  stopped pos ops true x h q =
      ([], pos, refl, h, inr (x, q, inl (refl, ap (λ xs. some (ok xs)) (sym (append-nil ops)))))
  stopped pos ops false x h q = ([], pos, refl, h, inr (x, q, inr (refl, refl)))

  decode_loop-Walk :
      (fuel pos : ℕ) (ops : List Op) (seen_eoj : Bool)
      → pos ≤ length code
      → length code - pos ≤ fuel
      → Walk code pos ops seen_eoj (decode_loop fuel (reader_at code pos) ops seen_eoj)
  unfolding IsAt
  decode_loop-Walk zero pos ops seen_eoj h fuel_enough =
      finished zero pos ops seen_eoj (omega arith)
  decode_loop-Walk (suc fuel) pos ops seen_eoj h fuel_enough =
      elim (Bool-cases (ltb pos (length code))) [
        | inr e ↦ finished (suc fuel) pos ops seen_eoj (ground (arith, e))
        | inl e ↦ elim (Result-cases (decode_one (reader_at code pos))) [
          | inl (s, q) ↦
              let (at, next, within) = decode_one-IsAt code pos s.0 s.1 bytes h q in
              prefix pos s.0 ops seen_eoj at (
                subst (Walk code (pos + s.0.len) (ops ++ s.0 ∷ []) ((s.0.byte == eoj) || seen_eoj))
                  (sym (
                    loop_next fuel pos ops seen_eoj s e q
                    ∙ ap (λ r. decode_loop fuel r (ops ++ s.0 ∷ []) ((s.0.byte == eoj) || seen_eoj))
                        next))
                  (decode_loop-Walk fuel (pos + s.0.len) (ops ++ s.0 ∷ [])
                    ((s.0.byte == eoj) || seen_eoj) within (omega (arith, at.1))))
          | inr (inl (x, q)) ↦
              subst (Walk code pos ops seen_eoj) (sym (loop_stops fuel pos ops seen_eoj x e q))
                (stopped pos ops seen_eoj x h q)
          | inr (inr q) ↦ absurd (
              subst (After OpInRange 2 (reader_at code pos)) q
                (decode_one-Yields.after (reader_at code pos) h bytes))
        ]
      ]

or_false : (b : Bool) → (b || false) ≡ b
or_false true = refl
or_false false = refl

-- The decoder always ends, and fills the job from its first byte with instructions that lie without
-- a gap, each where it says it is, with the opcode and the mode byte that stand there, an opcode of the
-- table that is not classed as unimplemented, and registers that exist. It ends at the last byte, or at bytes that are no
-- instruction: these are dropped when an `eoj` was decoded, and are the error otherwise.
pub decode_job-Tiles :
    (code : List ℕ)
    → All IsByte code
    → (ops : List Op) × (end : ℕ) × Tiles code 0 ops end
      × (end ≤ length code)
      × Ends code ops (has_eoj ops) end (decode_job code)
unfolding decode_job
decode_job-Tiles code bytes =
    let (ops, end, tiles, within, ends) =
      decode_loop-Walk code bytes (length code) 0 [] false (omega arith) (omega arith) in
    (
      ops,
      end,
      tiles,
      within,
      subst (λ b. Ends code ops b end (decode_loop (length code) (new code) [] false))
          (or_false (has_eoj ops)) ends,
    )
