-- ===== src/Best/Tables.antt =====
-- crates/best/src/exec.rs: the instructions on the cursor over the tables of the job's file.
pub mod Cursor
pub mod Keeps
pub mod Seek
use Prim.Native.String.{String}
use klartext.Prelude.{
  ℕ, ◌+◌, ◌-◌, ◌%◌, ◌^◌, Bool, true, false, not, List, [], ◌∷◌, Option, none, some, length,
  get_elem?, leb, ◌==◌, if◌then◌else◌, Result, ok, err, panic, ok_or,
}
use klartext.Sgbd.Cp1252.{Text}
use klartext.Sgbd.Program.{Table}
use klartext.Best.Decode.{Operand, Op}
use klartext.Best.Machine.{Flags, Value, int, Machine}
use klartext.Best.Exec.{
  ExecError, table_not_selected, table_not_found, table_column, table_row, Flow, next, ExecM,
  as_u32, write_to, set_flags,
}
use klartext.Best.Strings.{read_string, write_string, read_value_data}
use klartext.Best.Texts.{eq_ignore_case, string_to_value}
use klartext.Best.Context.{ExecCtx, State, CtxM, ◌>>=◌, lift, pure, on_machine, asks, set_cursor}

-- `iter().position(…)`
abbrev pub position : {A : Type 0} → (A → Bool) → List A → Option ℕ
position test [] = none
position test (x ∷ xs) =
    if test x then some 0 else elim (position test xs) [ none ↦ none | some i ↦ some (i + 1) ]

abbrev pub passes : {A : Type 0} → (A → Bool) → Option A → Bool
passes test none = false
passes test (some a) = test a

unfoldable pub table_index : List Table → Text → Option ℕ
table_index tables name = position (λ t. eq_ignore_case t.name name) tables

unfoldable pub column_index : List Text → Text → Option ℕ
column_index columns name = position (λ c. eq_ignore_case c name) columns

-- Whether the table changes, as `Option`s.
abbrev pub moved : Option ℕ → ℕ → Option ℕ → Option ℕ
moved none idx row = none
moved (some i) idx row = if i == idx then row else none

-- The cell that the cursor selects, or an empty text where no row is selected.
unfoldable pub cell_at : Table → (row : Option ℕ) → (col : ℕ) → Result ExecError Text
cell_at table none col = ok []
cell_at table (some r) col = elim (get_elem? table.rows r) [
  | none ↦ err (table_row "tabget")
  | some row ↦ ok_or (get_elem? row col) (table_row "tabget")
]

abbrev pub counted : (Table → ℕ) → Option Table → ℕ
counted f none = 0
counted f (some t) = f t

-- The rows that `tabseek` and `tabseeku` look for.
unfoldable pub key_row : (col : ℕ) → (key : Text) → List Text → Bool
key_row col key r = passes (λ cell. eq_ignore_case cell key) (get_elem? r col)

unfoldable pub number_row : (col key : ℕ) → List Text → Bool
unfolding string_to_value
number_row col key r = passes (λ cell. as_u32 (string_to_value cell) == key) (get_elem? r col)

module _ {F : Type 0} where
  unfoldable pub current_table_opt : ExecCtx F → Option Table
  current_table_opt ctx = elim ctx.current_table [ none ↦ none | some i ↦ get_elem? ctx.tables i ]

  unfoldable pub selected_table : String → CtxM F Table
  unfolding current_table_opt
  selected_table mnemonic s = (ok_or (current_table_opt s.1) (table_not_selected mnemonic), s)

  unfoldable pub op_tabset : Op → CtxM F Flow
  unfolding read_string table_index
  op_tabset op = do
    name ← on_machine (read_string "tabset" op.arg0)
    tables ← asks (λ ctx. ctx.tables)
    idx ← lift (ok_or (table_index tables name) (table_not_found name))
    cursor ← asks (λ ctx. moved ctx.current_table idx ctx.current_row)
    set ← set_cursor (some idx) cursor
    pure next

  abbrev pub set_row : Option ℕ → CtxM F (Unit {0})
  set_row row s = (ok tt, (s.0, record s.1 { current_row = row }))

  abbrev pub set_z : Bool → CtxM F (Unit {0})
  set_z z = on_machine (set_flags (λ flags. record flags { z = z }))

  unfoldable pub seek_result : String → (rows : ℕ) → (hit : Option ℕ) → CtxM F Flow
  seek_result mnemonic rows (some r) = do set ← set_row (some r); flagged ← set_z false; pure next
  seek_result mnemonic rows none = do
    last ← lift (if rows == 0 then err (table_row mnemonic) else ok (rows - 1))
    set ← set_row (some last)
    flagged ← set_z true
    pure next

  unfoldable pub op_tabseek : Op → CtxM F Flow
  unfolding selected_table read_string column_index seek_result key_row
  op_tabseek op = do
    table ← selected_table "tabseek"
    column ← on_machine (read_string "tabseek" op.arg0)
    key ← on_machine (read_string "tabseek" op.arg1)
    col ← lift (ok_or (column_index table.columns column) (table_column "tabseek" column))
    seek_result "tabseek" (length table.rows) (position (key_row col key) table.rows)

  unfoldable pub op_tabseeku : Op → CtxM F Flow
  unfolding selected_table read_string read_value_data column_index seek_result number_row
  op_tabseeku op = do
    table ← selected_table "tabseeku"
    column ← on_machine (read_string "tabseeku" op.arg0)
    key ← on_machine (read_value_data "tabseeku" op.arg1)
    col ← lift (ok_or (column_index table.columns column) (table_column "tabseeku" column))
    seek_result "tabseeku" (length table.rows) (position (number_row col key) table.rows)

  unfoldable pub op_tabget : Op → CtxM F Flow
  unfolding selected_table read_string write_string column_index cell_at
  op_tabget op = do
    table ← selected_table "tabget"
    column ← on_machine (read_string "tabget" op.arg1)
    col ← lift (ok_or (column_index table.columns column) (table_column "tabget" column))
    row ← asks (λ ctx. ctx.current_row)
    entry ← lift (cell_at table row col)
    written ← on_machine (write_string op.arg0 entry)
    pure next

  unfoldable pub op_tabline : Op → CtxM F Flow
  unfolding selected_table read_value_data
  op_tabline op = do
    table ← selected_table "tabline"
    line ← on_machine (read_value_data "tabline" op.arg0)
    checked ← lift (if length table.rows == 0 then err (table_row "tabline") else ok tt)
    set ← set_row (some (if leb (length table.rows) line then length table.rows - 1 else line))
    flagged ← set_z (leb (length table.rows) line)
    pure next

  unfoldable pub op_tabcols : Op → CtxM F Flow
  unfolding current_table_opt
  op_tabcols op = do
    columns ← asks (λ ctx. counted (λ t. as_u32 (length t.columns)) (current_table_opt ctx))
    written ← on_machine (write_to op.arg0 (int columns))
    pure next

  unfoldable pub op_tabrows : Op → CtxM F Flow
  unfolding current_table_opt
  op_tabrows op = do
    rows ← asks (λ ctx. counted (λ t. as_u32 (length t.rows + 1)) (current_table_opt ctx))
    written ← on_machine (write_to op.arg0 (int rows))
    pure next
