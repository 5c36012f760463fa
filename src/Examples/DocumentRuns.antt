-- ===== src/Examples/DocumentRuns.antt =====
-- Two replicas of crdt_editor/src/document.cpp that receive the same operations in two orders.
use crdt_networking_applicat.Prelude.{
  some, none, ◌≤◌, ltb, if◌then◌else◌, Bool-cases, if_neg, refl, ◌≢◌, ℕ, ◌≡◌, ◌↔◌, true, List, [],
  ◌∷◌, In, inl, inr, map, arith,
}
use crdt_networking_applicat.Prelude.Maps.{
  contains, lookup_of_contains, contains_of_lookup, same_key,
}
use crdt_networking_applicat.Ids.{ElementId, root_id, id_key}
use crdt_networking_applicat.Operation.{InsertOperation, Operation, insert, remove}
use crdt_networking_applicat.Outcome.{done, ok}
use crdt_networking_applicat.Document.{Document, apply_history, new_document}
use crdt_networking_applicat.Document.History.{Removed, Holds, apply_history-Holds}
use crdt_networking_applicat.Document.Visit.{visit_document, render, Place, get_line_column}
use crdt_networking_applicat.Document.Queries.{
  get_cursor_position, get_anchor_at, get_element_at, clamp_position, get_line_count,
  get_line_length,
}
use crdt_networking_applicat.Document.Positions.RoundTrip.{
  get_anchor_at-get_cursor_position, get_element_at-get_line_column,
}
use crdt_networking_applicat.Document.Positions.Lines.{
  clamp_position-get_anchor_at, get_line_length-get_line_count,
}
use crdt_networking_applicat.Document.Visit.Fold.{
  is_visible, visible, fold_each, visit_document-fold,
}
use crdt_networking_applicat.Document.Visit.Members.{is_visible-Has}
use crdt_networking_applicat.Document.Visit.Collect.{note_down, visit_document-meets}
use crdt_networking_applicat.Document.Visit.Render.{char_of, render-visible, replicas-render}
use crdt_networking_applicat.Document.Validate.{validate, validate-apply_history}
use crdt_networking_applicat.Document.Siblings.{Distinct}
use crdt_networking_applicat.Document.Invariant.{IsGenuine}
use crdt_networking_applicat.Document.History.{Inserted}
use crdt_networking_applicat.Document.Convergence.{Agree, replicas-Agree}

abbrev pub id_h : ElementId
id_h = record { lamport = 1; site_id = b'A' ∷ [] }

abbrev pub id_i : ElementId
id_i = record { lamport = 2; site_id = b'B' ∷ [] }

abbrev pub insert_h : InsertOperation
insert_h = record { parent = root_id; ident = id_h; ch = b'h' }

abbrev pub insert_i : InsertOperation
insert_i = record { parent = id_h; ident = id_i; ch = b'i' }

abbrev pub in_order : List Operation
in_order = insert insert_h ∷ insert insert_i ∷ remove (record { the_target = id_h }) ∷ []

-- The tombstone and the child come before the element, which comes twice.
abbrev pub out_of_order : List Operation
out_of_order =
    remove (record { the_target = id_h }) ∷ insert insert_i ∷ insert insert_h ∷ insert insert_h ∷ []

pub in_order-IsGenuine : IsGenuine (Inserted in_order)
in_order-IsGenuine = record {
  unique = λ o o' p q e. ground arith;
  not_root = λ o p e. ground arith;
}

pub same_operations : (op : Operation) → In op in_order ↔ In op out_of_order
same_operations op = (ground arith, ground arith)

replicas-Agree_example :
    (d d' : Document) × (apply_history in_order new_document ≡ done d)
    × (apply_history out_of_order new_document ≡ done d')
    × Agree d d'
replicas-Agree_example = replicas-Agree in_order out_of_order in_order-IsGenuine same_operations

replicas-render_example :
    (d d' : Document) × (text : List ℕ) × (apply_history in_order new_document ≡ done d)
    × (apply_history out_of_order new_document ≡ done d')
    × (render d ≡ ok text)
    × (render d' ≡ ok text)
replicas-render_example = replicas-render in_order out_of_order in_order-IsGenuine same_operations

apply_history-Holds_example :
    (d : Document) × (apply_history in_order new_document ≡ done d)
    × Holds (Inserted in_order) (Removed in_order) d
apply_history-Holds_example = apply_history-Holds in_order in_order-IsGenuine

validate-apply_history_example :
    (d : Document) × (apply_history in_order new_document ≡ done d) × (validate d ≡ ok tt)
validate-apply_history_example = validate-apply_history in_order in_order-IsGenuine

-- the document after the history
abbrev pub after : Document
after = (apply_history-Holds in_order in_order-IsGenuine).0

pub after-Holds : Holds (Inserted in_order) (Removed in_order) after
after-Holds = (apply_history-Holds in_order in_order-IsGenuine).2

visit_document-fold_example :
    visit_document after (λ id n. ok (id ∷ n)) []
    ≡ fold_each (λ id n. ok (id ∷ n)) (visible after) []
visit_document-fold_example = visit_document-fold after-Holds (λ id n. ok (id ∷ n)) []

visit_document-meets_example :
    (met : List ElementId) × (visit_document after note_down [] ≡ ok met)
    × Distinct met
    × ((x : ElementId) → In x met ↔ (is_visible after x ≡ true))
visit_document-meets_example = visit_document-meets after-Holds

render-visible_example : render after ≡ ok (map (char_of after) (visible after))
render-visible_example = render-visible after-Holds

two_siblings-Distinct : Distinct (id_h ∷ id_i ∷ [])
two_siblings-Distinct = (elim [ inl e ↦ ground arith | inr m ↦ m ], ((λ m. m), tt))

-- the element that is left is visible
pub id_i_visible : is_visible after id_i ≡ true
unfolding is_visible
id_i_visible =
    let v = after-Holds in
    let root = contains_of_lookup root_id after.elements v.root_element.1 in
    let there = v.placed insert_i (inr (inl refl)) (v.placed insert_h (inl refl) root) in
    let (c, e) = lookup_of_contains id_i after.elements there in
    let other : id_i ≢ root_id = (λ q. ground arith) in
    rw (if_neg (same_key id_i root_id) other, e)
      (elim (Bool-cases c.deleted) [
        | inl gone ↦ absurd (not_removed ((v.removed id_i c e).0 gone))
        | inr alive ↦ rw alive refl
      ])
  where
    not_removed : ¬ Removed in_order id_i
    not_removed m = ground arith

get_anchor_at-get_cursor_position_example :
    (p : Place) × (get_cursor_position after id_i ≡ ok p) × (get_anchor_at after p ≡ ok (some id_i))
get_anchor_at-get_cursor_position_example =
    get_anchor_at-get_cursor_position after-Holds id_i (inr id_i_visible)

get_element_at-get_line_column_example :
    (p : Place) × (get_line_column after id_i ≡ ok p) × (get_element_at after p ≡ ok (some id_i))
get_element_at-get_line_column_example =
    get_element_at-get_line_column after-Holds id_i id_i_visible

abbrev far_away : Place
far_away = record { line = 7; column = 9 }

clamp_position-get_anchor_at_example :
    (p : Place) × (a : ElementId) × (clamp_position after far_away ≡ ok p)
    × (get_anchor_at after p ≡ ok (some a))
    × (p.line ≤ 7)
    × (p.column ≤ 9)
clamp_position-get_anchor_at_example = clamp_position-get_anchor_at after-Holds far_away

get_line_length-get_line_count_example :
    (count : ℕ) × (size : ℕ) × (get_line_count after ≡ ok count)
    × (get_line_length after 0 ≡ ok (if ltb 0 count then some size else none))
get_line_length-get_line_count_example = get_line_length-get_line_count after-Holds 0

pub id_i_there : contains id_i after.elements ≡ true
id_i_there = is_visible-Has after-Holds id_i id_i_visible
