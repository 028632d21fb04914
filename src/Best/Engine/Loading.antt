-- ===== src/Best/Engine/Loading.antt =====
-- crates/best/src/engine.rs: the instructions of a job that is loaded from the bytes of a file.
use klartext.Prelude.{
  ℕ, ◌+◌, ◌-◌, ◌≡◌, sym, subst, inl, inr, Bool, Option, none, some, List, [], ◌∷◌, take, drop, All,
  All-split, take-append-drop, IsByte, Result, ok, err, panic,
}
use klartext.Sgbd.Cp1252.{Text}
use klartext.Sgbd.Program.{Prg, job_bytecode}
use klartext.Sgbd.Program.Jobs.{job_bytecode-Placed}
use klartext.Best.Decode.{DecodeError, Op, decode_job}
use klartext.Best.Decode.Operands.{OpInRange}
use klartext.Best.Decode.Walk.{IsAt, Tiles, Ends, decode_job-Tiles}
use klartext.Best.Engine.{}

Tiles-InRange :
    (code : List ℕ) (from : ℕ) (ops : List Op) (end : ℕ)
    → Tiles code from ops end
    → All OpInRange ops
unfolding IsAt
Tiles-InRange code from [] end t = tt
Tiles-InRange code from (op ∷ ops) end ((_, _, _, _, _, p), t) =
    (p, Tiles-InRange code (from + op.len) ops end t)

-- A decoded job, whose instructions have registers that exist, or an error.
abbrev pub Decoded : Option (Result DecodeError (List Op)) → Type 0
Decoded (some (ok ops)) = All OpInRange ops
Decoded (some (err e)) = Unit
Decoded (some panic) = ⊥
Decoded none = ⊥

pub decode_job-Decoded : (code : List ℕ) → All IsByte code → Decoded (decode_job code)
decode_job-Decoded code b =
    let (ops, end, tiles, within, ends) = decode_job-Tiles code b in
    outcome ops end ends (Tiles-InRange code 0 ops end tiles)
  where
    outcome :
        (ops : List Op) (end : ℕ) {seen : Bool}
        → Ends code ops seen end (decode_job code)
        → All OpInRange ops
        → Decoded (decode_job code)
    outcome ops end (inl (_, q)) h = subst Decoded (sym q) h
    outcome ops end (inr (x, _, inl (_, q))) h = subst Decoded (sym q) h
    outcome ops end (inr (x, _, inr (_, q))) h = subst Decoded (sym q) tt

All-part : (n m : ℕ) (xs : List ℕ) → All IsByte xs → All IsByte (take n (drop m xs))
All-part n m xs h =
    let (_, rest) =
      All-split IsByte (take m xs) (drop m xs)
        (subst (All IsByte) (sym (take-append-drop m xs)) h) in
    let (part, _) =
      All-split IsByte (take n (drop m xs)) (drop n (drop m xs))
        (subst (All IsByte) (sym (take-append-drop n (drop m xs))) rest) in
    part

pub job_bytecode-bytes :
    (prg : Prg) (name : Text) (code : List ℕ)
    → All IsByte prg.deob
    → job_bytecode prg name ≡ some code
    → All IsByte code
job_bytecode-bytes prg name code b e =
    let (off, end, at) = job_bytecode-Placed prg name code e in
    subst (All IsByte) (sym at.1) (All-part (end - off) off prg.deob b)
