-- ===== src/Cursor.antt =====
-- crdt_editor/editor/cursor.*: the cursor stands behind its anchor; a selection goes from the
-- selection anchor to the anchor. What was written before an exception stays written.
use crdt_networking_applicat.Prelude.{
  ℕ, Bool, true, false, not, Option, none, some, ite, if◌then◌else◌,
}
use crdt_networking_applicat.Prelude.Maps.{same_key, is_some}
use crdt_networking_applicat.Ids.{ElementId, id_key, root_id}
use crdt_networking_applicat.Operation.{InsertOperation, RemoveOperation, Operation, insert, remove}
use crdt_networking_applicat.Outcome.{
  Result, ok, err, ◌>>=◌, Outcome, done, on_result, no_selection,
}
use crdt_networking_applicat.Document.{Document}
use crdt_networking_applicat.Document.Visit.{Place, visit_document}
use crdt_networking_applicat.Document.Queries.{DocumentRange, get_cursor_position}
use crdt_networking_applicat.Document.Walk.{visible_predecessor}

pub record Cursor : Type 0 where
  pub anchor : ElementId
  pub desired_column : Option ℕ
  pub selection_anchor : Option ElementId

-- Cursor::Cursor
unfoldable pub new_cursor : ElementId → Cursor
new_cursor p = record { anchor = p; desired_column = none; selection_anchor = none }

-- Cursor::set_anchor
abbrev pub set_anchor : ElementId → Cursor → Cursor
set_anchor new_anchor c = record c { anchor = new_anchor }

-- Cursor::update_on_insert
unfoldable pub update_on_insert : InsertOperation → Cursor → Cursor
update_on_insert o c = ite (same_key o.parent c.anchor) (set_anchor o.ident c) c

-- Cursor::update_on_delete
unfoldable pub update_on_delete : Document → RemoveOperation → Cursor → Outcome Cursor
update_on_delete d o c =
    ite (same_key o.the_target c.anchor)
      (on_result (visible_predecessor d o.the_target) c (λ p. done (set_anchor p c))) (done c)

-- Cursor::update_on_remote
unfoldable pub update_on_remote : Document → Operation → Cursor → Outcome Cursor
unfolding update_on_delete
update_on_remote d (insert o) c = done c
update_on_remote d (remove o) c = update_on_delete d o c

-- Cursor::update
unfoldable pub update : Document → Operation → Cursor → Outcome Cursor
unfolding update_on_insert update_on_delete
update d (insert o) c = done (update_on_insert o c)
update d (remove o) c = update_on_delete d o c

-- Cursor::get_line_column
unfoldable pub get_line_column : Document → Cursor → Result Place
get_line_column d c = get_cursor_position d c.anchor

-- Cursor::has_desired_column
abbrev pub has_desired_column : Cursor → Bool
has_desired_column c = is_some c.desired_column

-- Cursor::set_desired_column
abbrev pub set_desired_column : ℕ → Cursor → Cursor
set_desired_column column c = record c { desired_column = some column }

-- Cursor::update_desired_column
unfoldable pub update_desired_column : Document → Cursor → Outcome Cursor
unfolding get_line_column
update_desired_column d c =
    on_result (get_line_column d c) c λ p. done (set_desired_column p.column c)

-- Cursor::set_position
unfoldable pub set_position : ElementId → Document → Cursor → Outcome Cursor
unfolding update_desired_column
set_position new_anchor d c = update_desired_column d (set_anchor new_anchor c)

-- Cursor::has_selection
unfoldable pub has_selection : Cursor → Bool
has_selection c = elim c.selection_anchor [
  | none ↦ false
  | some s ↦ ite (same_key s c.anchor) false true
]

-- Cursor::get_selection_anchor
unfoldable pub get_selection_anchor : Cursor → Result ElementId
unfolding has_selection
get_selection_anchor c = elim c.selection_anchor [
  | none ↦ err no_selection
  | some s ↦ if has_selection c then ok s else err no_selection
]

-- Cursor::start_selection
unfoldable pub start_selection : Cursor → Cursor
start_selection c = record c { selection_anchor = some c.anchor }

-- Cursor::clear_selection
unfoldable pub clear_selection : Cursor → Cursor
clear_selection c = record c { selection_anchor = none }

-- The visitor of normalized_range: whichever of the two ends it meets first comes first.
unfoldable pub meet_ends :
    ElementId → ElementId → ElementId → Option DocumentRange → Result (Option DocumentRange)
meet_ends from to id (some r) = ok (some r)
meet_ends from to id none =
    ite (same_key id from) (ok (some (record { first = from; last = to })))
      (ite (same_key id to) (ok (some (record { first = to; last = from }))) (ok none))

-- Cursor::normalized_range
unfoldable pub normalized_range : Document → Cursor → Result (Option DocumentRange)
unfolding has_selection get_selection_anchor meet_ends
normalized_range d c = if not (has_selection c) then ok none else do
  from ← get_selection_anchor c
  ite (same_key from c.anchor) (ok none) (
      ite (same_key from root_id) (ok (some (record { first = from; last = c.anchor }))) (
        ite (same_key c.anchor root_id) (ok (some (record { first = c.anchor; last = from })))
          (visit_document d (meet_ends from c.anchor) none)))
