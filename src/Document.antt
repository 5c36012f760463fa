-- ===== src/Document.antt =====
-- crdt_editor/src/document.hpp and document.cpp: the replicated document and how it applies
-- operations. The loops over unordered maps go in the order of the association lists.
pub mod Siblings
pub mod Invariant
pub mod History
pub mod Convergence
pub mod Visit
pub mod Queries
pub mod Walk
pub mod Validate
pub mod Positions
pub mod Ranges
pub mod Typing
use crdt_networking_applicat.Prelude.{
  ℕ, zero, suc, ◌+◌, Bool, true, false, Option, none, some, List, [], ◌∷◌, ◌++◌, not, ◌&&◌, ◌||◌,
  if◌then◌else◌, length, ite,
}
use crdt_networking_applicat.Prelude.Maps.{
  Map, Set, lookup, contains, erase, assign, emplace, modify, same_key,
}
use crdt_networking_applicat.Ids.{ElementId, id_key, root_id}
use crdt_networking_applicat.Operation.{
  Character, set_deleted, InsertOperation, RemoveOperation, Operation, insert, remove,
}
use crdt_networking_applicat.Outcome.{
  Fault, Outcome, done, threw, ◌then_do◌, out_of_fuel, buffered_for_present_parent,
  buffered_under_wrong_key, buffered_and_inserted,
}
use Siblings.{sort_descending}

pub record Document : Type 0 where
  pub elements : Map ElementId Character
  pub buffered_deletes : Set ElementId
  pub buffered_inserts : Map ElementId (List InsertOperation)
  pub children : Map ElementId (List ElementId)
  pub parent_of : Map ElementId ElementId
  pub buffered_insert_ids : Set ElementId

-- Document::Document()
unfoldable pub new_document : Document
new_document = record {
  elements = (root_id, record { actual_char = 0; deleted = false }) ∷ [];
  buffered_deletes = [];
  buffered_inserts = [];
  children = (root_id, []) ∷ [];
  parent_of = (root_id, root_id) ∷ [];
  buffered_insert_ids = [];
}

-- children[p]: an empty list where there is none
abbrev pub list_at {ℓ} : {A : Type ℓ} → Option (List A) → List A
list_at none = []
list_at (some xs) = xs

-- buffered_inserts[oper.get_parent()].push_back(oper), once for each id
unfoldable pub enqueue : InsertOperation → Document → Document
enqueue o d = record d {
  buffered_insert_ids = emplace o.ident tt d.buffered_insert_ids;
  buffered_inserts =
      assign o.parent (list_at (lookup o.parent d.buffered_inserts) ++ o ∷ []) d.buffered_inserts;
}

unfoldable pub buffer_insert : InsertOperation → Document → Document
buffer_insert o d = if contains o.ident d.buffered_insert_ids then d else enqueue o d

-- The element enters `elements`, `parent_of` and its parent's sorted children.
unfoldable pub place : InsertOperation → Document → Document
place o d = record d {
  elements =
      emplace o.ident (record { actual_char = o.ch; deleted = contains o.ident d.buffered_deletes })
        d.elements;
  buffered_deletes = erase o.ident d.buffered_deletes;
  buffered_insert_ids = erase o.ident d.buffered_insert_ids;
  parent_of = emplace o.ident o.parent d.parent_of;
  children =
      let siblings = list_at (lookup o.parent d.children) ++ o.ident ∷ [] in
      assign o.parent (sort_descending siblings)
        (emplace o.ident [] (assign o.parent siblings d.children));
}

-- The checks at the end of applyInsert, over the operations of one key and over all keys.
unfoldable pub check_waiting : Document → ElementId → List InsertOperation → Option Fault
check_waiting d key [] = none
check_waiting d key (o ∷ os) =
    let rest = check_waiting d key os in
    ite (same_key o.parent key)
      (if contains o.ident d.elements then some buffered_and_inserted else rest)
      (some buffered_under_wrong_key)

unfoldable pub check_entries : Document → Map ElementId (List InsertOperation) → Option Fault
check_entries d [] = none
check_entries d ((missing_parent, operations) ∷ m) =
    let rest = check_entries d m in
    if contains missing_parent d.elements
    then some buffered_for_present_parent
    else elim (check_waiting d missing_parent operations) [ none ↦ rest | some e ↦ some e ]

unfoldable pub check_buffers : Document → Outcome Document
check_buffers d = elim (check_entries d d.buffered_inserts) [ none ↦ done d | some e ↦ threw e d ]

-- for (child : waiting_children) applyInsert(child)
unfoldable pub apply_each :
    (Document → InsertOperation → Outcome Document)
    → List InsertOperation
    → Document
    → Outcome Document
apply_each f [] d = done d
apply_each f (o ∷ os) d = f d o then_do apply_each f os

-- What follows the sort: the operations that waited for `x` are taken out and applied.
unfoldable pub release :
    (Document → InsertOperation → Outcome Document) → ElementId → Document → Outcome Document
release f x d = elim (lookup x d.buffered_inserts) [
  | none ↦ done d
  | some waiting ↦
      apply_each f waiting (record d { buffered_inserts = erase x d.buffered_inserts })
      then_do check_buffers
]

-- Document::applyInsert; the fuel bounds the depth of the nested calls.
unfoldable pub apply_insert : ℕ → Document → InsertOperation → Outcome Document
apply_insert zero d o = threw out_of_fuel d
apply_insert (suc fuel) d o =
    if contains o.ident d.elements
    then done d
    else if contains o.parent d.elements
    then release (apply_insert fuel) o.ident (place o d)
    else done (buffer_insert o d)

-- Document::applyDelete
unfoldable pub apply_delete : Document → RemoveOperation → Document
apply_delete d o =
    if contains o.the_target d.elements
    then record d { elements = modify o.the_target (set_deleted true) d.elements }
    else record d { buffered_deletes = emplace o.the_target tt d.buffered_deletes }

-- How many operations are buffered.
abbrev pub waiting_count : Map ElementId (List InsertOperation) → ℕ
waiting_count [] = 0
waiting_count ((k, os) ∷ m) = length os + waiting_count m

-- Document::apply
unfoldable pub apply : Document → Operation → Outcome Document
apply d (insert o) = apply_insert (suc (waiting_count d.buffered_inserts)) d o
apply d (remove o) = done (apply_delete d o)

unfoldable pub apply_history : List Operation → Document → Outcome Document
apply_history [] d = done d
apply_history (op ∷ ops) d = apply d op then_do apply_history ops
