-- ===== src/Document/Validate.antt =====
-- crdt_editor/src/document.cpp: Document::validate, which passes after every genuine history.
use crdt_networking_applicat.Prelude.{
  ℕ, zero, suc, ◌≡◌, refl, sym, subst, ◌∙◌, inl, inr, true, none, some, List, [], ◌∷◌, In,
  if◌then◌else◌, ite, if_pos, arith, Bool-cases, Option-cases,
}
use crdt_networking_applicat.Prelude.Maps.{
  Map, lookup, contains, erase, same_key, IsFunctional, assign-IsFunctional, contains_of_lookup,
  emplace-IsFunctional, contains-In,
}
use crdt_networking_applicat.Ids.{ElementId, id_key, root_id}
use crdt_networking_applicat.Operation.{
  Character, InsertOperation, RemoveOperation, Operation, insert, remove,
}
use crdt_networking_applicat.Outcome.{
  object, Result, ok, err, ◌>>◌, Outcome, done, threw, ◌then_do◌, out_of_range,
  root_not_in_elements, root_not_in_children, root_not_in_parent_of, no_children_entry, no_parent,
  child_not_in_elements, child_without_parent, parent_disagrees,
}
use crdt_networking_applicat.Document.{
  Document, list_at, apply, apply_history, apply_insert, apply_each, release, apply_delete, place,
  buffer_insert, enqueue, check_buffers, new_document,
}
use crdt_networking_applicat.Document.Invariant.{IsGenuine}
use crdt_networking_applicat.Document.History.{Inserted, Holds, apply_history-Holds}

-- the loop over the elements
unfoldable pub validate_elements : Document → Map ElementId Character → Result {0} Unit
validate_elements d [] = ok tt
validate_elements d ((x, c) ∷ m) =
    let rest = validate_elements d m in
    if contains x d.children
    then (if contains x d.parent_of then rest else err no_parent)
    else err no_children_entry

-- parent_of.at(child) != parent
unfoldable pub check_parent : Document → ElementId → ElementId → Result {0} Unit
check_parent d p x = elim (lookup x d.parent_of) [
  | none ↦ err out_of_range
  | some q ↦ ite (same_key q p) (ok tt) (err parent_disagrees)
]

-- the loop over the children of one element
unfoldable pub validate_list : Document → ElementId → List ElementId → Result {0} Unit
unfolding check_parent
validate_list d p [] = ok tt
validate_list d p (x ∷ xs) =
    let rest = validate_list d p xs in
    if contains x d.elements
    then (if contains x d.parent_of then check_parent d p x >> rest else err child_without_parent)
    else err child_not_in_elements

-- the loop over the children map
unfoldable pub validate_children : Document → Map ElementId (List ElementId) → Result {0} Unit
unfolding validate_list
validate_children d [] = ok tt
validate_children d ((p, xs) ∷ m) = validate_list d p xs >> validate_children d m

-- Document::validate
unfoldable pub validate : Document → Result {0} Unit
unfolding validate_elements validate_children
validate d =
    if contains root_id d.elements
    then if contains root_id d.children
      then if contains root_id d.parent_of
        then validate_elements d d.elements >> validate_children d d.children
        else err root_not_in_parent_of
      else err root_not_in_children
    else err root_not_in_elements

-- A property that every change of the document keeps holds after every operation.
module _ (P : Document → Type 0)
    (on_place : (o : InsertOperation) (d : Document) → P d → P (place o d))
    (on_buffer : (o : InsertOperation) (d : Document) → P d → P (buffer_insert o d))
    (on_take : (k : ElementId) (d : Document)
      → P d
      → P (record d { buffered_inserts = erase k d.buffered_inserts }))
    (on_delete : (o : RemoveOperation) (d : Document) → P d → P (apply_delete d o)) where
  after_both :
      (r : Outcome Document) (f : Document → Outcome Document)
      → P (object r)
      → ((d : Document) → P d → P (object (f d)))
      → P (object (r then_do f))
  after_both (done d) f p h = h d p
  after_both (threw e d) f p h = p

  after_checks : (d : Document) → P d → P (object (check_buffers d))
  unfolding check_buffers
  after_checks d p = ground arith

  after_each :
      (f : Document → InsertOperation → Outcome Document)
      → ((d : Document) (o : InsertOperation) → P d → P (object (f d o)))
      → (os : List InsertOperation) (d : Document) → P d
      → P (object (apply_each f os d))
  unfolding apply_each
  after_each f h [] d p = p
  after_each f h (o ∷ os) d p =
      after_both (f d o) (λ d'. apply_each f os d') (h d o p) (λ d' p'. after_each f h os d' p')

  after_release :
      (f : Document → InsertOperation → Outcome Document)
      → ((d : Document) (o : InsertOperation) → P d → P (object (f d o)))
      → (x : ElementId) (d : Document) → P d
      → P (object (release f x d))
  unfolding release
  after_release f h x d p = elim (Option-cases (lookup x d.buffered_inserts)) [
    | inl nobody ↦ rw (object, nobody) p
    | inr (os, found) ↦
        let d' : Document = record d { buffered_inserts = erase x d.buffered_inserts } in
        rw (object, found)
          (after_both (apply_each f os d') (λ e. check_buffers e)
            (after_each f h os d' (on_take x d p)) after_checks)
  ]

  after_insert :
      (fuel : ℕ) (d : Document) (o : InsertOperation) → P d → P (object (apply_insert fuel d o))
  unfolding apply_insert
  after_insert zero d o p = p
  after_insert (suc fuel) d o p = elim (Bool-cases (contains o.ident d.elements)) [
    | inl known ↦ rw known p
    | inr fresh ↦ elim (Bool-cases (contains o.parent d.elements)) [
      | inl there ↦
          rw (fresh, there)
            (after_release (apply_insert fuel) (after_insert fuel) o.ident (place o d)
              (on_place o d p))
      | inr missing ↦ rw (fresh, missing) (on_buffer o d p)
    ]
  ]

  after_history : (h : List Operation) (d : Document) → P d → P (object (apply_history h d))
  unfolding apply_history apply
  after_history [] d p = p
  after_history (insert o ∷ h) d p =
      after_both (apply d (insert o)) (apply_history h) (after_insert _ d o p) (after_history h)
  after_history (remove o ∷ h) d p = after_history h (apply_delete d o) (on_delete o d p)

-- No element has two entries in the children map.
abbrev Once : Document → Type 0
Once d = IsFunctional d.children

place-Once : (o : InsertOperation) (d : Document) → Once d → Once (place o d)
unfolding place
place-Once o d f =
    assign-IsFunctional o.parent _ _
      (emplace-IsFunctional o.ident [] _ (assign-IsFunctional o.parent _ d.children f))

buffer_insert-Once : (o : InsertOperation) (d : Document) → Once d → Once (buffer_insert o d)
unfolding buffer_insert enqueue
buffer_insert-Once o d f = elim (Bool-cases (contains o.ident d.buffered_insert_ids)) [
  | inl known ↦ rw known f
  | inr fresh ↦ rw fresh f
]

apply_delete-Once : (o : RemoveOperation) (d : Document) → Once d → Once (apply_delete d o)
unfolding apply_delete
apply_delete-Once o d f = elim (Bool-cases (contains o.the_target d.elements)) [
  | inl there ↦ rw there f
  | inr missing ↦ rw missing f
]

new_document-Once : Once new_document
unfolding new_document lookup
new_document-Once k v h = ground arith

apply_history-Once :
    (h : List Operation) (d : Document) → apply_history h new_document ≡ done d → Once d
apply_history-Once h d e =
    subst (λ r. Once (object r)) e
      (after_history Once place-Once buffer_insert-Once (λ k d' f. f) apply_delete-Once h
        new_document new_document-Once)

check_parent-ok :
    (d : Document) (p x : ElementId) → lookup x d.parent_of ≡ some p → check_parent d p x ≡ ok tt
unfolding check_parent
check_parent-ok d p x h =
    rw (check_parent, h) (if_pos (same_key p p) refl (ok tt) (err parent_disagrees))

module _ {T : InsertOperation → Type 0} {R : ElementId → Type 0} {d : Document}
    (v : Holds T R d) where
  elements_pass :
      (m : Map ElementId Character)
      → ((x : ElementId) (c : Character) → In (x, c) m → contains x d.elements ≡ true)
      → validate_elements d m ≡ ok tt
  unfolding validate_elements
  elements_pass [] h = refl
  elements_pass ((x, c) ∷ m) h =
      let there = h x c (inl refl) in
      rw (v.children_keys x ∙ there, v.parent_keys x ∙ there)
        (elements_pass m (λ y c' i. h y c' (inr i)))

  list_passes :
      (p : ElementId) (xs : List ElementId)
      → ((x : ElementId) → In x xs → lookup x d.parent_of ≡ some p)
      → validate_list d p xs ≡ ok tt
  unfolding validate_list
  list_passes p [] h = refl
  list_passes p (x ∷ xs) h =
      let found = h x (inl refl) in
      let there = contains_of_lookup x d.parent_of found in
      rw (sym (v.parent_keys x) ∙ there, there, check_parent-ok d p x found)
        (list_passes p xs (λ y i. h y (inr i)))

  children_pass :
      (m : Map ElementId (List ElementId))
      → ((p : ElementId) (xs : List ElementId) → In (p, xs) m → lookup p d.children ≡ some xs)
      → validate_children d m ≡ ok tt
  unfolding validate_children
  children_pass [] h = refl
  children_pass ((p, xs) ∷ m) h =
      let found = h p xs (inl refl) in
      rw (list_passes p xs (λ x i. ((v.kin p x).0 (subst (λ o. In x (list_at o)) (sym found) i)).0))
        (children_pass m (λ q ys i. h q ys (inr i)))

  validate-ok : Once d → validate d ≡ ok tt
  unfolding validate
  validate-ok f =
      let root = contains_of_lookup root_id d.elements v.root_element.1 in
      rw
        (
          root,
          v.children_keys root_id ∙ root,
          v.parent_keys root_id ∙ root,
          elements_pass d.elements (λ x c i. contains-In x c d.elements i),
        )
        (children_pass d.children f)

-- After every history in which each id has one insertion and the root has none, in any order and
-- with repetitions, `validate` finds nothing wrong.
pub validate-apply_history :
    (h : List Operation)
    → IsGenuine (Inserted h)
    → (d : Document) × (apply_history h new_document ≡ done d) × (validate d ≡ ok tt)
validate-apply_history h g =
    let (d, e, v) = apply_history-Holds h g in (d, e, validate-ok v (apply_history-Once h d e))
