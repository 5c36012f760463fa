-- ===== src/Document/Visit/Collect.antt =====
-- What visit_visible of crdt_editor/src/document.cpp meets, by the list of its calls.
use crdt_networking_applicat.Prelude.{◌≡◌, sym, ap, ◌∙◌, ◌↔◌, true, List, [], ◌∷◌, ◌++◌, In}
use mathlib.Core.List.{append_assoc, append-nil}
use crdt_networking_applicat.Ids.{ElementId}
use crdt_networking_applicat.Operation.{InsertOperation}
use crdt_networking_applicat.Outcome.{Result, ok}
use crdt_networking_applicat.Document.{Document}
use crdt_networking_applicat.Document.Siblings.{Distinct}
use crdt_networking_applicat.Document.History.{Holds}
use crdt_networking_applicat.Document.Visit.{visit_document}
use crdt_networking_applicat.Document.Visit.Fold.{
  is_visible, visible, fold_each, visit_document-fold,
}
use crdt_networking_applicat.Document.Visit.Members.{mem-visible}
use crdt_networking_applicat.Document.Visit.Once.{visible-Distinct}

-- the visitor that notes each element
abbrev pub note_down : ElementId → List ElementId → Result (List ElementId)
note_down x noted = ok (noted ++ x ∷ [])

fold_each-note_down : (xs noted : List ElementId) → fold_each note_down xs noted ≡ ok (noted ++ xs)
fold_each-note_down [] noted = ap ok (sym (append-nil noted))
fold_each-note_down (x ∷ xs) noted =
    fold_each-note_down xs (noted ++ x ∷ []) ∙ ap ok (append_assoc noted (x ∷ []) xs)

module _ {T : InsertOperation → Type 0} {R : ElementId → Type 0} {d : Document}
    (v : Holds T R d) where
  -- In a document that some history of operations leaves, the walk comes to an end, meets no
  -- element twice, and meets exactly the elements that are there, have no tombstone and are not
  -- the root.
  pub visit_document-meets :
      (met : List ElementId) × (visit_document d note_down [] ≡ ok met)
      × Distinct met
      × ((x : ElementId) → In x met ↔ (is_visible d x ≡ true))
  visit_document-meets = (
    visible d,
    visit_document-fold v note_down [] ∙ fold_each-note_down (visible d) [],
    visible-Distinct v,
    mem-visible v,
  )
