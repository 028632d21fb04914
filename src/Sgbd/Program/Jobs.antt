-- ===== src/Sgbd/Program/Jobs.antt =====
-- crates/sgbd/src/prg.rs: where the bytecode of a job lies in its file, and the names of its jobs.
use klartext.Prelude.{
  ℕ, ◌+◌, ◌-◌, ◌≤◌, ◌<◌, ◌≡◌, refl, sym, ap, subst, ◌⊎◌, inl, inr, Bool, true, false, ◌&&◌, List,
  [], ◌∷◌, Option, none, some, length, take, drop, leb, ltb, if◌then◌else◌, arith, ltb→lt, leb→le,
  length-take, length-drop, Bool-cases, Option-cases, get_range?, All,
}
use klartext.Sgbd.Cp1252.{Text}
use klartext.Sgbd.Program.{Prg, find_offset, next_offset, job_bytecode}

-- Some job starts at `end`.
abbrev pub Starts : ℕ → List (Text × ℕ) → Type 0
Starts end [] = ⊥
Starts end (job ∷ jobs) = (job.1 ≡ end) ⊎ Starts end jobs

-- The least offset beyond `off`, or none.
abbrev Next : (off : ℕ) → List (Text × ℕ) → Option ℕ → Type 0
Next off jobs none = All (λ job. job.1 ≤ off) jobs
Next off jobs (some end) =
    (off < end) × Starts end jobs × All (λ job. off < job.1 → end ≤ job.1) jobs

weaken :
    (P Q : Text × ℕ → Type 0)
    → ((job : Text × ℕ) → P job → Q job)
    → (jobs : List (Text × ℕ)) → All P jobs
    → All Q jobs
weaken P Q f [] h = tt
weaken P Q f (job ∷ jobs) h = (f job h.0, weaken P Q f jobs h.1)

nearer :
    (off : ℕ) (job : Text × ℕ) (jobs : List (Text × ℕ)) (rest : Option ℕ)
    → Next off jobs rest
    → off < job.1
    → Next off (job ∷ jobs) (elim rest [
      | none ↦ some job.1
      | some least ↦ some (if leb job.1 least then job.1 else least)
    ])
nearer off job jobs none h lt = (
  lt,
  inl refl,
  (
    (λ k. omega arith),
    weaken (λ j. j.1 ≤ off) (λ j. off < j.1 → job.1 ≤ j.1) (λ j le k. absurd (omega arith)) jobs h,
  ),
)
nearer off job jobs (some least) h lt = elim (Bool-cases (leb job.1 least)) [
  | inl e ↦
      let le : job.1 ≤ least = leb→le job.1 least e in
      chosen true e (
        lt,
        inl refl,
        (
          (λ k. omega arith),
          weaken (λ j. off < j.1 → least ≤ j.1) (λ j. off < j.1 → job.1 ≤ j.1)
              (λ j f k. omega (arith, f k)) jobs h.2,
        ),
      )
  | inr e ↦
      let le : least ≤ job.1 = ground (arith, e) in chosen false e (h.0, inr h.1, ((λ k. le), h.2))
]
  where
    chosen :
        (b : Bool)
        → leb job.1 least ≡ b
        → Next off (job ∷ jobs) (some (if b then job.1 else least))
        → Next off (job ∷ jobs) (some (if leb job.1 least then job.1 else least))
    chosen b e = subst (λ c. Next off (job ∷ jobs) (some (if c then job.1 else least))) (sym e)

farther :
    (off : ℕ) (job : Text × ℕ) (jobs : List (Text × ℕ)) (rest : Option ℕ)
    → Next off jobs rest
    → job.1 ≤ off
    → Next off (job ∷ jobs) rest
farther off job jobs none h le = (le, h)
farther off job jobs (some end) h le = (h.0, inr h.1, ((λ k. absurd (omega arith)), h.2))

next_offset-Next : (off : ℕ) (jobs : List (Text × ℕ)) → Next off jobs (next_offset off jobs)
unfolding next_offset
next_offset-Next off [] = tt
next_offset-Next off (job ∷ jobs) = elim (Bool-cases (ltb off job.1)) [
  | inl e ↦
      rw e (
        nearer off job jobs (next_offset off jobs) (next_offset-Next off jobs) (ltb→lt off job.1 e))
  | inr e ↦
      let le : job.1 ≤ off = ground (arith, e) in
      rw e (farther off job jobs (next_offset off jobs) (next_offset-Next off jobs) le)
]

-- A range that a list has is as long as it says, and lies in the list.
get_range-some :
    (xs : List ℕ) (lo hi : ℕ) (ys : List ℕ)
    → get_range? xs lo hi ≡ some ys
    → (lo ≤ hi) × (hi ≤ length xs) × (ys ≡ take (hi - lo) (drop lo xs)) × (lo + length ys ≡ hi)
unfolding get_range?
get_range-some xs lo hi ys e = elim (Bool-cases (leb lo hi && leb hi (length xs))) [
  | inr q ↦ absurd (cc (rw q at e))
  | inl q ↦
      let low : lo ≤ hi = ground (arith, q) in
      let high : hi ≤ length xs = ground (arith, q) in
      let got : ys ≡ take (hi - lo) (drop lo xs) = cc (rw q at e) in
      (
        low,
        high,
        got,
        omega (
          arith,
          ap length got,
          length-take (hi - lo) (drop lo xs) (omega (arith, length-drop lo xs)),
          length-drop lo xs,
        ),
      )
]

-- Where the bytecode of a job lies: from the offset of the first job of its name, up to the start of
-- a later job or the end of the file, and beyond the start of none that follows it.
abbrev pub Placed : Prg → Text → List ℕ → ℕ → ℕ → Type 0
Placed prg name code off end =
    (find_offset name prg.job_offsets ≡ some off)
    × (code ≡ take (end - off) (drop off prg.deob))
    × (off + length code ≡ end)
    × (end ≤ length prg.deob)
    × ((end ≡ length prg.deob) ⊎ ((off < end) × Starts end prg.job_offsets))
    × All (λ job. off < job.1 → end ≤ job.1) prg.job_offsets

placed :
    (prg : Prg) (name : Text) (code : List ℕ) (off : ℕ)
    → find_offset name prg.job_offsets ≡ some off
    → (next : Option ℕ) → Next off prg.job_offsets next
    → get_range? prg.deob off (elim next [ none ↦ length prg.deob | some end ↦ end ]) ≡ some code
    → (end : ℕ) × Placed prg name code off end
placed prg name code off found none h e =
    let (low, high, got, size) = get_range-some prg.deob off (length prg.deob) code e in
    (
      length prg.deob,
      (
        found,
        got,
        size,
        high,
        inl refl,
        weaken (λ j. j.1 ≤ off) (λ j. off < j.1 → length prg.deob ≤ j.1)
            (λ j le k. absurd (omega arith)) prg.job_offsets h,
      ),
    )
placed prg name code off found (some end) h e =
    let (low, high, got, size) = get_range-some prg.deob off end code e in
    (end, (found, got, size, high, inr (h.0, h.1), h.2))

-- The bytecode of a job starts at the offset of the first job of its name and lies in the file. It
-- ends at the end of the file or where a later job starts, and no job starts within it.
pub job_bytecode-Placed :
    (prg : Prg) (name : Text) (code : List ℕ)
    → job_bytecode prg name ≡ some code
    → (off : ℕ) × (end : ℕ) × Placed prg name code off end
unfolding job_bytecode
job_bytecode-Placed prg name code e = elim (Option-cases (find_offset name prg.job_offsets)) [
  | inl none_found ↦ absurd (cc (rw (job_bytecode, none_found) at e))
  | inr (off, found) ↦
      let (end, at) =
        placed prg name code off found (next_offset off prg.job_offsets)
          (next_offset-Next off prg.job_offsets) (rw (job_bytecode, found) at e) in
      (off, end, at)
]
