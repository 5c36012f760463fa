-- ===== src/Document/Positions.antt =====
-- crdt_editor/src/document.cpp: the questions about places, as searches in the list of the visible
-- elements.
pub mod RoundTrip
pub mod Lines
pub mod Reach
pub mod Longest
use crdt_networking_applicat.Prelude.{
  ℕ, ◌+◌, ◌<◌, ◌≤◌, ◌≡◌, refl, sym, ap, subst, ◌∙◌, ◌⊎◌, inl, inr, Bool, true, false, Option, none,
  some, List, [], ◌∷◌, In, arith, if◌then◌else◌, ite, if_pos, if_neg, ◌==◌, ◌&&◌, Bool-cases,
}
use crdt_networking_applicat.Prelude.Maps.{contains, same_key}
use crdt_networking_applicat.Ids.{ElementId, id_key, root_id}
use crdt_networking_applicat.Operation.{InsertOperation}
use crdt_networking_applicat.Outcome.{Result, ok, err, ◌>>=◌, element_not_found}
use crdt_networking_applicat.Document.{Document}
use crdt_networking_applicat.Document.Invariant.{Has, Inv}
use crdt_networking_applicat.Document.History.{Holds}
use crdt_networking_applicat.Document.Visit.{
  get_character, visit_document, newline, Place, start, past, at_place, line_column_step,
  get_line_column,
}
use crdt_networking_applicat.Document.Visit.Fold.{visible, fold_each, visit_document-fold}
use crdt_networking_applicat.Document.Visit.Members.{mem-visible, is_visible-Has}
use crdt_networking_applicat.Document.Visit.Render.{char_of, get_character-ok}
use crdt_networking_applicat.Document.Queries.{
  element_at_step, get_element_at, AnchorSearch, anchor_step, anchor_result, get_anchor_at,
}

-- the place of an element, if the first of the list stands at `p`
unfoldable pub position : Document → ElementId → Place → List ElementId → Option Place
position d x p [] = none
position d x p (y ∷ ys) = ite (same_key y x) (some p) (position d x (past (char_of d y) p) ys)

-- the element at a place
unfoldable pub element : Document → Place → Place → List ElementId → Option ElementId
element d q p [] = none
element d q p (y ∷ ys) =
    let rest = element d q (past (char_of d y) p) ys in if at_place p q then some y else rest

-- the element in front of a place, where the end of the text is a place too
unfoldable pub anchor : Document → Place → Place → ElementId → List ElementId → Option ElementId
anchor d q p previous [] = if at_place p q then some previous else none
anchor d q p previous (y ∷ ys) =
    let rest = anchor d q (past (char_of d y) p) y ys in
    if at_place p q then some previous else rest

unfoldable pub AllThere : Document → List ElementId → Type 0
AllThere d xs = (y : ElementId) → In y xs → Has d y

module _ (d : Document) where
  line_column_found :
      (x : ElementId) (xs : List ElementId) (p r : Place)
      → fold_each (line_column_step d x) xs (p, some r) ≡ ok (p, some r)
  unfolding line_column_step
  line_column_found x [] p r = refl
  line_column_found x (y ∷ ys) p r = line_column_found x ys p r

  line_column_search :
      (x : ElementId) (xs : List ElementId) (p : Place)
      → AllThere d xs
      → (q : Place) × (fold_each (line_column_step d x) xs (p, none) ≡ ok (q, position d x p xs))
  unfolding line_column_step position AllThere
  line_column_search x [] p h = (p, refl)
  line_column_search x (y ∷ ys) p h = elim (same_key y x) [
    | yes e ↦
        (p, rw (if_pos (same_key y x) e, if_pos (same_key y x) e) (line_column_found x ys p p))
    | no n ↦
        let (q, e) = line_column_search x ys (past (char_of d y) p) (λ z m. h z (inr m)) in
        (
          q,
          rw
              (
                if_neg (same_key y x) n,
                if_neg (same_key y x) n,
                get_character-ok d y (h y (inl refl)),
              )
              e,
        )
  ]

  element_found :
      (t : Place) (xs : List ElementId) (p : Place) (r : ElementId)
      → fold_each (element_at_step d t) xs (p, some r) ≡ ok (p, some r)
  unfolding element_at_step
  element_found t [] p r = refl
  element_found t (y ∷ ys) p r = element_found t ys p r

  element_search :
      (t : Place) (xs : List ElementId) (p : Place)
      → AllThere d xs
      → (q : Place) × (fold_each (element_at_step d t) xs (p, none) ≡ ok (q, element d t p xs))
  unfolding element_at_step element AllThere
  element_search t [] p h = (p, refl)
  element_search t (y ∷ ys) p h = elim (Bool-cases (at_place p t)) [
    | inl here ↦ (p, rw here (element_found t ys p y))
    | inr there ↦
        let (q, e) = element_search t ys (past (char_of d y) p) (λ z m. h z (inr m)) in
        (q, rw (there, get_character-ok d y (h y (inl refl))) e)
  ]

  anchor_found :
      (t : Place) (xs : List ElementId) (s : AnchorSearch) (r : ElementId)
      → fold_each (anchor_step d t) xs (record s { result = some r })
        ≡ ok (record s { result = some r })
  unfolding anchor_step
  anchor_found t [] s r = refl
  anchor_found t (y ∷ ys) s r = anchor_found t ys s r

  anchor_search :
      (t : Place) (xs : List ElementId) (p : Place) (previous : ElementId)
      → AllThere d xs
      → (fold_each (anchor_step d t) xs (record { place = p; previous = previous; result = none })
          >>= λ s. ok (anchor_result t s))
        ≡ ok (anchor d t p previous xs)
  unfolding anchor_step anchor AllThere anchor_result
  anchor_search t [] p previous h = refl
  anchor_search t (y ∷ ys) p previous h = elim (Bool-cases (at_place p t)) [
    | inl here ↦ rw (
      here,
      anchor_found t ys (record { place = p; previous = previous; result = none }) previous,
    )
    | inr there ↦
        rw (there, get_character-ok d y (h y (inl refl)))
          (anchor_search t ys (past (char_of d y) p) y (λ z m. h z (inr m)))
  ]

abbrev pub place_or_throw : Option Place → Result Place
place_or_throw none = err element_not_found
place_or_throw (some r) = ok r

module _ {T : InsertOperation → Type 0} {R : ElementId → Type 0} {d : Document}
    (v : Holds T R d) where
  pub visible-AllThere : AllThere d (visible d)
  unfolding AllThere
  visible-AllThere y m = is_visible-Has v y ((mem-visible v y).0 m)

  pub get_line_column-position :
      (x : ElementId) → get_line_column d x ≡ place_or_throw (position d x start (visible d))
  unfolding get_line_column
  get_line_column-position x =
      let (q, e) = line_column_search d x (visible d) start visible-AllThere in
      rw (visit_document-fold v (line_column_step d x) (start, none) ∙ e)
        (on_option (position d x start (visible d)))
    where
      on_option :
          (o : Option Place)
          → elim o [ none ↦ err element_not_found | some r ↦ ok r ] ≡ place_or_throw o
      on_option none = refl
      on_option (some r) = refl

  pub get_element_at-element : (t : Place) → get_element_at d t ≡ ok (element d t start (visible d))
  unfolding get_element_at
  get_element_at-element t =
      let (q, e) = element_search d t (visible d) start visible-AllThere in
      rw (visit_document-fold v (element_at_step d t) (start, none) ∙ e)

  pub get_anchor_at-anchor :
      (t : Place) → get_anchor_at d t ≡ ok (anchor d t start root_id (visible d))
  unfolding get_anchor_at
  get_anchor_at-anchor t =
      rw
        (visit_document-fold v (anchor_step d t)
          (record { place = start; previous = root_id; result = none }))
        (anchor_search d t (visible d) start root_id visible-AllThere)
