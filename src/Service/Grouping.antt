-- ===== src/Service/Grouping.antt =====
-- crates/service/src/phase.rs: the catalog's rows grouped into invocations. Ids and positions are
-- numbers from 0 on, and `str::trim` is a parameter.
pub mod Order
use klartext.Prelude.{
  ℕ, ◌+◌, ◌*◌, Bool, true, false, ◌&&◌, ◌||◌, List, [], ◌∷◌, ◌++◌, map, foldl, Option, none, some,
  ltb, leb, ◌==◌, if◌then◌else◌,
}
use klartext.Best.Exchange.{bytes_eq}
use klartext.Service.Phase.{Text, Phase, preset, main, reset, phase_eq, rank, Invocation}

-- `JobParameterEntry` of crates/semantic/src/catalog.rs.
pub record JobParameterEntry : Type 0 where
  pub function_id : ℕ
  pub function_en : Option Text
  pub function_de : Option Text
  pub phase : Option Text
  pub position : ℕ
  pub value : Option Text
  pub label : Option Text

-- "Preset", "Reset" and "Main".
abbrev pub preset_text : Text
preset_text = 0x50 ∷ 0x72 ∷ 0x65 ∷ 0x73 ∷ 0x65 ∷ 0x74 ∷ []

abbrev pub reset_text : Text
reset_text = 0x52 ∷ 0x65 ∷ 0x73 ∷ 0x65 ∷ 0x74 ∷ []

abbrev pub main_text : Text
main_text = 0x4d ∷ 0x61 ∷ 0x69 ∷ 0x6e ∷ []

-- `option.unwrap_or(default)`
abbrev pub unwrap_or : Option Text → Text → Text
unwrap_or none default = default
unwrap_or (some t) default = t

unfoldable pub from_catalog : Option Text → Phase
from_catalog text =
    if bytes_eq (unwrap_or text main_text) preset_text
    then preset
    else if bytes_eq (unwrap_or text main_text) reset_text
    then reset
    else main

-- The phase of a row, and its value as an argument.
abbrev pub phase_of : JobParameterEntry → Phase
phase_of row = from_catalog row.phase

abbrev pub value_of : JobParameterEntry → Text
value_of row = unwrap_or row.value []

-- The comparison of the sort keys `(function_id, phase, position)`.
unfoldable pub key_le : JobParameterEntry → JobParameterEntry → Bool
key_le a b =
    ltb a.function_id b.function_id
    || a.function_id == b.function_id
      && (ltb (rank (phase_of a)) (rank (phase_of b))
          || rank (phase_of a) == rank (phase_of b) && leb a.position b.position)

-- `sort_by_key`, which is stable: an insertion before the first row that is not smaller.
unfoldable pub insert_row : JobParameterEntry → List JobParameterEntry → List JobParameterEntry
insert_row row [] = row ∷ []
insert_row row (r ∷ rows) =
    let rest = insert_row row rows in if key_le row r then row ∷ r ∷ rows else r ∷ rest

unfoldable pub sort_rows : List JobParameterEntry → List JobParameterEntry
unfolding insert_row
sort_rows [] = []
sort_rows (row ∷ rows) = insert_row row (sort_rows rows)

-- `option.filter(|t| !t.is_empty())`
abbrev pub non_empty : Option Text → Option Text
non_empty none = none
non_empty (some []) = none
non_empty (some (c ∷ t)) = some (c ∷ t)

-- `a.or_else(|| b)`
abbrev pub or_else : Option Text → Option Text → Option Text
or_else none b = b
or_else (some a) b = some a

module _ (trim : Text → Text) where
  -- `option.map(|t| t.trim().to_string())`
  abbrev pub trimmed : Option Text → Option Text
  trimmed none = none
  trimmed (some t) = some (trim t)

  unfoldable pub title_of : JobParameterEntry → Option Text
  title_of row = non_empty (trimmed (or_else row.function_en row.function_de))

  unfoldable pub invocation_of : JobParameterEntry → Invocation
  unfolding title_of
  invocation_of row = record {
    function_id = row.function_id;
    title = title_of row;
    phase = phase_of row;
    args = value_of row ∷ [];
  }

  -- The turn of the loop for a row, on what has been pushed so far: `last_mut` of the list.
  unfoldable pub push_row : List Invocation → JobParameterEntry → List Invocation
  unfolding invocation_of
  push_row [] row = invocation_of row ∷ []
  push_row (i ∷ []) row =
      if (i.function_id == row.function_id) && phase_eq i.phase (phase_of row)
      then record i { args = i.args ++ value_of row ∷ []; title = or_else i.title (title_of row) }
        ∷ []
      else i ∷ invocation_of row ∷ []
  push_row (i ∷ j ∷ is) row = i ∷ push_row (j ∷ is) row

  unfoldable pub group : List JobParameterEntry → List Invocation
  unfolding push_row sort_rows
  group rows = foldl push_row [] (sort_rows rows)
