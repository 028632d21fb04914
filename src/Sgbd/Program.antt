-- ===== src/Sgbd/Program.antt =====
-- crates/sgbd/src/prg.rs: the parser of job files and its queries.
pub mod Jobs
pub mod Names
use klartext.Prelude.{
  ℕ, zero, suc, ◌+◌, ◌-◌, ◌*◌, Bool, true, false, not, ◌&&◌, ◌||◌, List, [], ◌∷◌, map, Option, none,
  some, length, get_elem?, get_range?, take, leb, ltb, ◌==◌, if◌then◌else◌, Result, ok, err,
  from_le_bytes,
}
use klartext.Sgbd.Cp1252.{Text}
use klartext.Sgbd.Reads.{deobf_buffer, deobf_u32, read_string, read_directory}

-- `MAGIC`: "@EDIABAS OBJECT".
abbrev pub magic : List ℕ
magic =
    0x40 ∷ 0x45 ∷ 0x44 ∷ 0x49 ∷ 0x41 ∷ 0x42 ∷ 0x41 ∷ 0x53 ∷ 0x20 ∷ 0x4f ∷ 0x42 ∷ 0x4a ∷ 0x45 ∷ 0x43
    ∷ 0x54 ∷ []

abbrev offset_table_dir : ℕ
offset_table_dir = 0x84

abbrev pub offset_job_dir : ℕ
offset_job_dir = 0x88

abbrev table_entry_size : ℕ
table_entry_size = 0x50

abbrev pub job_entry_size : ℕ
job_entry_size = 0x44

abbrev entry_cell_ptr : ℕ
entry_cell_ptr = 0x40

abbrev entry_columns : ℕ
entry_columns = 0x48

abbrev entry_rows : ℕ
entry_rows = 0x4c

abbrev pub name_field_len : ℕ
name_field_len = 64

pub record Table : Type 0 where
  pub name : Text
  pub columns : List Text
  pub rows : List (List Text)

pub record Prg : Type 0 where
  pub tables : List Table
  pub jobs : List Text
  pub deob : List ℕ
  pub job_offsets : List (Text × ℕ)

-- `Io` belongs to opening a file.
pub data SgbdError : Type 0 where
  bad_magic : SgbdError
  truncated : (needed got : ℕ) → SgbdError

abbrev or_zero : Option ℕ → ℕ
or_zero none = 0
or_zero (some n) = n

-- The cells of one row of `columns` columns, and the offset behind them.
unfoldable pub parse_row : List ℕ → (columns offset : ℕ) → List Text × ℕ
unfolding read_string
parse_row bytes zero offset = ([], offset)
parse_row bytes (suc columns) offset =
    let cell = read_string bytes offset (length bytes - offset) in
    let rest = parse_row bytes columns (offset + cell.1) in
    if leb (length bytes) offset
    then ([], offset)
    else if cell.1 == 0
    then (cell.0 ∷ [], offset)
    else (cell.0 ∷ rest.0, rest.1)

abbrev pub is_empty : {A : Type 0} → List A → Bool
is_empty [] = true
is_empty (x ∷ xs) = false

-- The rows of a table, the header among them; a row without a cell is left out.
unfoldable pub parse_rows : List ℕ → (columns count offset : ℕ) → List (List Text)
unfolding parse_row
parse_rows bytes columns zero offset = []
parse_rows bytes columns (suc count) offset =
    let row = parse_row bytes columns offset in
    let rest = parse_rows bytes columns count row.1 in if is_empty row.0 then rest else row.0 ∷ rest

-- `rows` is below `2 ^ 32`, so that `saturating_add` adds one.
unfoldable pub parse_cells : List ℕ → (start columns rows : ℕ) → List (List Text)
unfolding parse_rows
parse_cells bytes start columns rows = parse_rows bytes columns (rows + 1) start

abbrev header_of : List (List Text) → List Text
header_of [] = []
header_of (header ∷ rows) = header

abbrev rows_of : List (List Text) → List (List Text)
rows_of [] = []
rows_of (header ∷ rows) = rows

unfoldable pub parse_table : List ℕ → ℕ → Table
unfolding read_string deobf_u32 parse_cells
parse_table bytes entry =
    let cells =
      parse_cells bytes (or_zero (deobf_u32 bytes (entry + entry_cell_ptr)))
        (or_zero (deobf_u32 bytes (entry + entry_columns)))
        (or_zero (deobf_u32 bytes (entry + entry_rows))) in
    record {
      name = (read_string bytes entry name_field_len).0;
      columns = header_of cells;
      rows = rows_of cells;
    }

-- The positions of at most `count` entries of `size` bytes that lie within the file.
unfoldable pub entries_from : List ℕ → (size count entry : ℕ) → List ℕ
entries_from bytes size zero entry = []
entries_from bytes size (suc count) entry =
    let rest = entries_from bytes size count (entry + size) in
    if ltb (length bytes) (entry + size) then [] else entry ∷ rest

unfoldable pub entries : List ℕ → (ptr_offset size : ℕ) → List ℕ
unfolding entries_from read_directory
entries bytes ptr_offset size = elim (read_directory bytes ptr_offset) [
  | none ↦ []
  | some directory ↦ entries_from bytes size directory.1 directory.0
]

unfoldable pub parse_tables : List ℕ → List Table
unfolding entries parse_table
parse_tables bytes = map (parse_table bytes) (entries bytes offset_table_dir table_entry_size)

-- The names and offsets of the entries of the job directory, without those that have no name.
unfoldable pub named : List ℕ → List ℕ → List (Text × ℕ)
unfolding read_string deobf_u32
named bytes [] = []
named bytes (entry ∷ rest) =
    let name = (read_string bytes entry name_field_len).0 in
    if is_empty name
    then named bytes rest
    else (name, or_zero (deobf_u32 bytes (entry + name_field_len))) ∷ named bytes rest

unfoldable pub parse_job_offsets : List ℕ → List (Text × ℕ)
unfolding entries named
parse_job_offsets bytes = named bytes (entries bytes offset_job_dir job_entry_size)

unfoldable pub names_of : List ℕ → List ℕ → List Text
unfolding read_string
names_of bytes [] = []
names_of bytes (entry ∷ rest) =
    let name = (read_string bytes entry name_field_len).0 in
    if is_empty name then names_of bytes rest else name ∷ names_of bytes rest

unfoldable pub parse_jobs : List ℕ → List Text
unfolding entries names_of
parse_jobs bytes = names_of bytes (entries bytes offset_job_dir job_entry_size)

abbrev pub texts_equal : List ℕ → List ℕ → Bool
texts_equal [] [] = true
texts_equal [] (y ∷ ys) = false
texts_equal (x ∷ xs) [] = false
texts_equal (x ∷ xs) (y ∷ ys) = (x == y) && texts_equal xs ys

unfoldable pub parse : List ℕ → Result SgbdError Prg
unfolding parse_tables parse_jobs parse_job_offsets deobf_buffer
parse bytes =
    let header_end = offset_job_dir + 4 in
    if ltb (length bytes) (length magic) || not (texts_equal (take (length magic) bytes) magic)
    then err bad_magic
    else if ltb (length bytes) header_end
    then err (truncated header_end (length bytes))
    else ok record {
      tables = parse_tables bytes;
      jobs = parse_jobs bytes;
      deob = deobf_buffer bytes;
      job_offsets = parse_job_offsets bytes;
    }

-- `find` by name.
unfoldable pub find_offset : Text → List (Text × ℕ) → Option ℕ
find_offset name [] = none
find_offset name (job ∷ jobs) = if texts_equal job.0 name then some job.1 else find_offset name jobs

-- The least offset beyond `off`.
unfoldable pub next_offset : (off : ℕ) → List (Text × ℕ) → Option ℕ
next_offset off [] = none
next_offset off (job ∷ jobs) =
    let rest = next_offset off jobs in
    if ltb off job.1
    then elim rest [
      | none ↦ some job.1
      | some least ↦ some (if leb job.1 least then job.1 else least)
    ]
    else rest

unfoldable pub job_bytecode : Prg → Text → Option (List ℕ)
unfolding find_offset next_offset
job_bytecode prg name = elim (find_offset name prg.job_offsets) [
  | none ↦ none
  | some off ↦
      get_range? prg.deob off
        (elim (next_offset off prg.job_offsets) [ none ↦ length prg.deob | some end ↦ end ])
]

-- `iter().any(…)` by name.
unfoldable pub listed : List Text → Text → Bool
listed [] name = false
listed (job ∷ jobs) name = texts_equal job name || listed jobs name

unfoldable pub has_job : Prg → Text → Bool
unfolding listed
has_job prg name = listed prg.jobs name

-- `find` by name among the tables.
unfoldable pub find_table : List Table → Text → Option Table
find_table [] name = none
find_table (t ∷ tables) name = if texts_equal t.name name then some t else find_table tables name

unfoldable pub table : Prg → Text → Option Table
unfolding find_table
table prg name = find_table prg.tables name

-- `to_ascii_lowercase` of a character.
abbrev pub lowercase : ℕ → ℕ
lowercase c = if leb 0x41 c && leb c 0x5a then c + 0x20 else c

unfoldable pub find_table_ci : List Table → Text → Option Table
find_table_ci [] name = none
find_table_ci (t ∷ tables) name =
    if texts_equal (map lowercase t.name) (map lowercase name)
    then some t
    else find_table_ci tables name

unfoldable pub table_ci : Prg → Text → Option Table
unfolding find_table_ci
table_ci prg name = find_table_ci prg.tables name
