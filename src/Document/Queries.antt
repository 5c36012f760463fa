-- ===== src/Document/Queries.antt =====
-- crdt_editor/src/document.cpp: the questions about lines, columns and ranges that the cursor, the
-- input handler and the widget ask.
use crdt_networking_applicat.Prelude.{
  ℕ, ◌+◌, ◌-◌, Bool, true, false, Option, none, some, List, [], ◌∷◌, ◌++◌, ltb, ◌==◌, min, max,
  if◌then◌else◌, ite, not,
}
use crdt_networking_applicat.Prelude.Maps.{contains, same_key}
use crdt_networking_applicat.Ids.{ElementId, id_key, root_id}
use crdt_networking_applicat.Outcome.{Result, ok, err, ◌>>=◌, element_not_found}
use crdt_networking_applicat.Document.{Document}
use crdt_networking_applicat.Document.Visit.{
  element_at, get_character, visit_document, newline, Place, start, past, at_place, get_line_column,
}

unfoldable pub element_at_step :
    Document → Place → ElementId → Place × Option ElementId → Result (Place × Option ElementId)
element_at_step d target id (p, some r) = ok (p, some r)
element_at_step d target id (p, none) =
    if at_place p target then ok (p, some id) else do c ← get_character d id; ok (past c p, none)

-- Document::get_element_at
unfoldable pub get_element_at : Document → Place → Result (Option ElementId)
get_element_at d target = do
  (p, result) ← visit_document d (element_at_step d target) (start, none)
  ok result

pub record AnchorSearch : Type 0 where
  pub place : Place
  pub previous : ElementId
  pub result : Option ElementId

-- The cursor belongs immediately before the element at the target.
unfoldable pub anchor_step : Document → Place → ElementId → AnchorSearch → Result AnchorSearch
anchor_step d target id s = elim s.result [
  | some r ↦ ok s
  | none ↦ if at_place s.place target then ok (record s { result = some s.previous }) else do
    c ← get_character d id
    ok (record { place = past c s.place; previous = id; result = none })
]

-- Cursor at the end of the document.
unfoldable pub anchor_result : Place → AnchorSearch → Option ElementId
anchor_result target s = elim s.result [
  | some r ↦ some r
  | none ↦ if at_place s.place target then some s.previous else none
]

-- Document::get_anchor_at
unfoldable pub get_anchor_at : Document → Place → Result (Option ElementId)
get_anchor_at d target = do
  s ←
      visit_document d (anchor_step d target)
        (record { place = start; previous = root_id; result = none })
  ok (anchor_result target s)

-- current_line and length
pub record LineScan : Type 0 where
  pub current_line : ℕ
  pub scanned : ℕ

unfoldable pub line_length_step : Document → ℕ → ElementId → LineScan → Result LineScan
line_length_step d target id s = do
  c ← get_character d id
  if ltb target s.current_line
      then ok s
      else if s.current_line == target
      then (if c == newline
          then ok (record s { current_line = s.current_line + 1 })
          else ok (record s { scanned = s.scanned + 1 }))
      else (if c == newline then ok (record s { current_line = s.current_line + 1 }) else ok s)

unfoldable pub line_length_result : ℕ → LineScan → Option ℕ
line_length_result target s =
    if s.current_line == target
    then some s.scanned
    else if ltb target s.current_line
    then some s.scanned
    else none

-- Document::get_line_length
unfoldable pub get_line_length : Document → ℕ → Result (Option ℕ)
get_line_length d target = do
  s ← visit_document d (line_length_step d target) (record { current_line = 0; scanned = 0 })
  ok (line_length_result target s)

unfoldable pub line_count_step : Document → ElementId → ℕ → Result ℕ
line_count_step d id line = do c ← get_character d id; ok (if c == newline then line + 1 else line)

-- Document::get_line_count
unfoldable pub get_line_count : Document → Result ℕ
get_line_count d = visit_document d (line_count_step d) 1

-- max_length and current_length
pub record MaxScan : Type 0 where
  pub max_length : ℕ
  pub current_length : ℕ

unfoldable pub max_length_step : Document → ElementId → MaxScan → Result MaxScan
max_length_step d id s = do
  c ← get_character d id
  ok (
      if c == newline
      then record { max_length = max s.max_length s.current_length; current_length = 0 }
      else record s { current_length = s.current_length + 1 })

-- Document::get_max_line_length
unfoldable pub get_max_line_length : Document → Result ℕ
get_max_line_length d = do
  s ← visit_document d (max_length_step d) (record { max_length = 0; current_length = 0 })
  ok (max s.max_length s.current_length)

abbrev pub value_or : Option ℕ → ℕ → ℕ
value_or none n = n
value_or (some m) n = m

-- Document::clamp_position
unfoldable pub clamp_position : Document → Place → Result Place
clamp_position d requested = do
  line_count ← get_line_count d
  if line_count == 0 then ok start else do
    let line = min requested.line (line_count - 1)
    length ← get_line_length d line
    ok (record { line = line; column = min requested.column (value_or length 0) })

pub record DocumentRange : Type 0 where
  pub first : ElementId
  pub last : ElementId

-- collecting and the result
unfoldable pub range_step :
    DocumentRange → ElementId → Bool × List ElementId → Result (Bool × List ElementId)
range_step r id (collecting, out) =
    ite (same_key id r.last) (ok (false, if collecting then out ++ id ∷ [] else out)) (
      ite (same_key id r.first) (ok (true, out))
        (ok (collecting, if collecting then out ++ id ∷ [] else out)))

-- Document::get_visible_range
unfoldable pub get_visible_range : Document → DocumentRange → Result (List ElementId)
get_visible_range d r = ite (same_key r.first r.last) (ok []) (do
  (collecting, out) ←
      visit_document d (range_step r) (ite (same_key r.first root_id) true false, [])
  ok out)

-- Document::get_cursor_position: the place behind a visible element.
unfoldable pub get_cursor_position : Document → ElementId → Result Place
get_cursor_position d anchor = ite (same_key anchor root_id) (ok start) (
    if not (contains anchor d.elements) then err element_not_found else do
      c ← element_at d anchor
      if c.deleted then err element_not_found else do
        p ← get_line_column d anchor
        ch ← get_character d anchor
        if ch == newline
            then ok (record { line = p.line + 1; column = 0 })
            else ok (record { line = p.line; column = p.column + 1 }))
