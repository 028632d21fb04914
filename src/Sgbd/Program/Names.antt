-- ===== src/Sgbd/Program/Names.antt =====
-- crates/sgbd/src/prg.rs: the two readings of the job directory agree.
use klartext.Prelude.{
  ℕ, ◌+◌, ◌≡◌, refl, subst, ap, ◌∙◌, inl, inr, Bool, true, false, ◌||◌, List, [], ◌∷◌, map, Option,
  none, some, length, ltb, not, take, if◌then◌else◌, Bool-cases, Result, ok, err, panic,
}
use klartext.Sgbd.Cp1252.{Text}
use klartext.Sgbd.Reads.{deobf_buffer, read_string}
use klartext.Sgbd.Program.{
  Table, Prg, SgbdError, bad_magic, truncated, magic, parse_tables, name_field_len, offset_job_dir,
  job_entry_size, is_empty, texts_equal, entries, named, names_of, parse_jobs, parse_job_offsets,
  parse, find_offset, listed, has_job,
}

-- `is_some`
abbrev pub is_some : Option ℕ → Bool
is_some none = false
is_some (some n) = true

names_of-named :
    (bytes positions : List ℕ)
    → names_of bytes positions ≡ map (λ job. job.0) (named bytes positions)
unfolding names_of named
names_of-named bytes [] = refl
names_of-named bytes (entry ∷ rest) =
    elim (Bool-cases (is_empty (read_string bytes entry name_field_len).0)) [
      | inl e ↦ rw e (names_of-named bytes rest)
      | inr e ↦ rw e (
          ap (λ names. (read_string bytes entry name_field_len).0 ∷ names)
            (names_of-named bytes rest))
    ]

parse_jobs-parse_job_offsets :
    (bytes : List ℕ) → parse_jobs bytes ≡ map (λ job. job.0) (parse_job_offsets bytes)
unfolding parse_jobs parse_job_offsets
parse_jobs-parse_job_offsets bytes =
    names_of-named bytes (entries bytes offset_job_dir job_entry_size)

listed-find_offset :
    (jobs : List (Text × ℕ)) (name : Text)
    → listed (map (λ job. job.0) jobs) name ≡ is_some (find_offset name jobs)
unfolding listed find_offset
listed-find_offset [] name = refl
listed-find_offset (job ∷ jobs) name = elim (Bool-cases (texts_equal job.0 name)) [
  | inl e ↦ rw e refl
  | inr e ↦ rw e (listed-find_offset jobs name)
]

-- What `parse` yields names the jobs that its offsets do.
abbrev Parallel : Result SgbdError Prg → Type 0
Parallel (ok prg) = prg.jobs ≡ map (λ job. job.0) prg.job_offsets
Parallel (err e) = Unit
Parallel panic = Unit

parse-Parallel : (bytes : List ℕ) → Parallel (parse bytes)
unfolding parse
parse-Parallel bytes =
    cases (ltb (length bytes) (length magic) || not (texts_equal (take (length magic) bytes) magic))
      (ltb (length bytes) (offset_job_dir + 4)) (truncated (offset_job_dir + 4) (length bytes))
      (parse_tables bytes)
  where
    cases :
        (other short : Bool) (e : SgbdError) (tables : List Table)
        → Parallel (
            if other
            then err bad_magic
            else if short
            then err e
            else ok record {
              tables = tables;
              jobs = parse_jobs bytes;
              deob = deobf_buffer bytes;
              job_offsets = parse_job_offsets bytes;
            })
    cases true short e tables = tt
    cases false true e tables = tt
    cases false false e tables = parse_jobs-parse_job_offsets bytes

-- The list of the jobs of a parsed file has the names of its list of offsets, in the same order; and a
-- job is present just when a job of its name has an offset.
pub has_job-find_offset :
    (bytes : List ℕ) (prg : Prg) (name : Text)
    → parse bytes ≡ ok prg
    → (prg.jobs ≡ map (λ job. job.0) prg.job_offsets)
      × (has_job prg name ≡ is_some (find_offset name prg.job_offsets))
unfolding has_job
has_job-find_offset bytes prg name e =
    let names = subst Parallel e (parse-Parallel bytes) in
    (names, ap (λ jobs. listed jobs name) names ∙ listed-find_offset prg.job_offsets name)
