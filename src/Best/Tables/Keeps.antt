-- ===== src/Best/Tables/Keeps.antt =====
-- crates/best/src/exec.rs: the instructions on the tables and the invariant of a run.
use klartext.Prelude.{ℕ, ◌-◌, ◌<◌, some, length, leb, if◌then◌else◌, arith, ok_or}
use klartext.Sgbd.Cp1252.{Text}
use klartext.Best.Decode.{Op}
use klartext.Best.Decode.Reads.{OperandInRange}
use klartext.Best.Exec.{table_not_found, table_column, Flow, next}
use klartext.Best.Exec.Keeps.{FlowInRange}
use klartext.Best.Strings.{read_string, write_string, read_value_data}
use klartext.Best.Strings.Keeps.{Keeps-read_string, Keeps-write_string, Keeps-read_value_data}
use klartext.Best.Context.{CtxM, ◌>>=◌, lift, pure, on_machine, asks, set_cursor}
use klartext.Best.Context.Keeps.{KeepsState, state_rules}
use klartext.Best.Tables.{
  position, key_row, number_row, moved, set_row, set_z, table_index, column_index, cell_at,
  seek_result, op_tabset, op_tabseek, op_tabseeku, op_tabget, op_tabline, op_tabcols, op_tabrows,
}
use klartext.Best.Tables.Cursor.{
  position-bound, ok_or-Post, ok_or-some, everywhere, KeepsAt-next, KeepsAt-machine, KeepsAt-lift,
  KeepsAt-asks, KeepsAt-selected, checked-Post, checked-positive, placed, seek_result-Keeps,
  moved-valid, cell_at-Post,
}

module _ {F : Type 0} (op : Op) (h : OperandInRange op.arg0) (k : OperandInRange op.arg1) where
  pub op_tabseek-Keeps : KeepsState {F = F} FlowInRange (op_tabseek op)
  unfolding op_tabseek
  op_tabseek-Keeps = everywhere (op_tabseek op) λ ctx valid.
      KeepsAt-selected ctx valid "tabseek" _ λ t e.
        KeepsAt-machine ctx valid _ (read_string "tabseek" op.arg0)
          (Keeps-read_string "tabseek" op.arg0 h)
          λ column.
            KeepsAt-machine ctx valid _ (read_string "tabseek" op.arg1)
              (Keeps-read_string "tabseek" op.arg1 k)
              λ key.
                KeepsAt-lift ctx valid
                  (λ col. seek_result "tabseek" (length t.rows) (position (key_row col key) t.rows))
                  _ (ok_or-Post (column_index t.columns column) (table_column "tabseek" column) tt)
                  λ col _.
                    seek_result-Keeps ctx t "tabseek" (position (key_row col key) t.rows) valid e
                      (position-bound (key_row col key) t.rows)

  pub op_tabseeku-Keeps : KeepsState {F = F} FlowInRange (op_tabseeku op)
  unfolding op_tabseeku
  op_tabseeku-Keeps = everywhere (op_tabseeku op) λ ctx valid.
      KeepsAt-selected ctx valid "tabseeku" _ λ t e.
        KeepsAt-machine ctx valid _ (read_string "tabseeku" op.arg0)
          (Keeps-read_string "tabseeku" op.arg0 h)
          λ column.
            KeepsAt-machine ctx valid _ (read_value_data "tabseeku" op.arg1)
              (Keeps-read_value_data "tabseeku" op.arg1 k)
              λ key.
                KeepsAt-lift ctx valid
                  (λ col.
                    seek_result "tabseeku" (length t.rows) (position (number_row col key) t.rows))
                  _ (ok_or-Post (column_index t.columns column) (table_column "tabseeku" column) tt)
                  λ col _.
                    seek_result-Keeps ctx t "tabseeku" (position (number_row col key) t.rows) valid
                      e (position-bound (number_row col key) t.rows)

  pub op_tabline-Keeps : KeepsState {F = F} FlowInRange (op_tabline op)
  unfolding op_tabline
  op_tabline-Keeps = everywhere (op_tabline op) λ ctx valid.
      KeepsAt-selected ctx valid "tabline" _ λ t e.
        KeepsAt-machine ctx valid _ (read_value_data "tabline" op.arg0)
          (Keeps-read_value_data "tabline" op.arg0 h)
          λ line.
            KeepsAt-lift ctx valid
              (λ u.
                set_row (some (if leb (length t.rows) line then length t.rows - 1 else line))
                >>= λ set. set_z (leb (length t.rows) line) >>= λ flagged. pure next)
              _ (checked-Post (length t.rows) "tabline" tt)
              λ u q.
                placed ctx t (if leb (length t.rows) line then length t.rows - 1 else line)
                  (leb (length t.rows) line) valid e
                  (clamped line (length t.rows)
                    (checked-positive (length t.rows) "tabline" tt u q).0)
    where
      clamped : (line rows : ℕ) → 0 < rows → (if leb rows line then rows - 1 else line) < rows
      clamped line rows p = ground arith

  pub op_tabset-Keeps : KeepsState {F = F} FlowInRange (op_tabset op)
  unfolding op_tabset
  op_tabset-Keeps = everywhere (op_tabset op) λ ctx valid.
      KeepsAt-machine ctx valid _ (read_string "tabset" op.arg0)
        (Keeps-read_string "tabset" op.arg0 h)
        λ name.
          KeepsAt-asks ctx valid
            (λ tables. lift (ok_or (table_index tables name) (table_not_found name)) >>= chosen)
            (λ c. c.tables)
            (KeepsAt-lift ctx valid chosen
              (ok_or (table_index ctx.tables name) (table_not_found name))
              (ok_or-Post (table_index ctx.tables name) (table_not_found name) tt)
              λ idx q. record {
                at = λ m w. (
                  record {
                    machine_sizes = w;
                    some_set = valid.0;
                    cursor =
                        moved-valid ctx.tables name idx ctx.current_table ctx.current_row
                          (ok_or-some (table_index ctx.tables name) (table_not_found name) idx q)
                          valid.1;
                  },
                  tt,
                );
              })
    where
      chosen : ℕ → CtxM F Flow
      chosen idx = asks (λ ctx. moved ctx.current_table idx ctx.current_row) >>= λ cursor.
          set_cursor (some idx) cursor >>= λ set. pure next

  pub op_tabget-Keeps : KeepsState {F = F} FlowInRange (op_tabget op)
  unfolding op_tabget
  op_tabget-Keeps = everywhere (op_tabget op) λ ctx valid.
      KeepsAt-selected ctx valid "tabget" _ λ t e.
        KeepsAt-machine ctx valid _ (read_string "tabget" op.arg1)
          (Keeps-read_string "tabget" op.arg1 k)
          λ column.
            KeepsAt-lift ctx valid _ _
              (ok_or-Post (column_index t.columns column) (table_column "tabget" column) tt)
              λ col _.
                KeepsAt-asks ctx valid (λ row. lift (cell_at t row col) >>= written)
                  (λ c. c.current_row)
                  (KeepsAt-lift ctx valid written (cell_at t ctx.current_row col)
                    (cell_at-Post t ctx.current_row col)
                    λ entry _.
                      KeepsAt-machine ctx valid (λ u. pure next) (write_string op.arg0 entry)
                        (Keeps-write_string op.arg0 entry h) λ u. KeepsAt-next ctx valid)
    where
      written : Text → CtxM F Flow
      written entry = on_machine (write_string op.arg0 entry) >>= λ u. pure next

  pub op_tabcols-Keeps : KeepsState {F = F} FlowInRange (op_tabcols op)
  unfolding op_tabcols
  op_tabcols-Keeps = search state_rules depth 12

  pub op_tabrows-Keeps : KeepsState {F = F} FlowInRange (op_tabrows op)
  unfolding op_tabrows
  op_tabrows-Keeps = search state_rules depth 12
