-- ===== src/Document/Positions/Reach.antt =====
-- crdt_editor/src/document.cpp: the places where a cursor may stand, found from a line and a column.
use crdt_networking_applicat.Prelude.{
  ℕ, ◌+◌, ◌≤◌, ◌≡◌, sym, ap, subst, ◌∙◌, ◌⊎◌, inl, inr, true, none, some, List, [], ◌∷◌, In, arith,
  if_pos, if_neg, Bool-cases, Option-cases, leb,
}
use crdt_networking_applicat.Prelude.Maps.{same_key}
use crdt_networking_applicat.Ids.{ElementId, id_key, root_id}
use crdt_networking_applicat.Operation.{InsertOperation}
use crdt_networking_applicat.Outcome.{ok}
use crdt_networking_applicat.Document.{Document}
use crdt_networking_applicat.Document.Siblings.{Distinct}
use crdt_networking_applicat.Document.History.{Holds}
use crdt_networking_applicat.Document.Visit.{Place, start, past, at_place}
use crdt_networking_applicat.Document.Visit.Fold.{is_visible, visible}
use crdt_networking_applicat.Document.Visit.Members.{mem-visible}
use crdt_networking_applicat.Document.Visit.Once.{visible-Distinct}
use crdt_networking_applicat.Document.Visit.Render.{char_of}
use crdt_networking_applicat.Document.Queries.{get_line_length, get_anchor_at, get_cursor_position}
use crdt_networking_applicat.Document.Positions.{
  position, anchor, place_or_throw, get_line_column-position, get_anchor_at-anchor,
}
use crdt_networking_applicat.Document.Positions.RoundTrip.{cursor_behind, position-In}
use crdt_networking_applicat.Document.Positions.Lines.{
  newlines, line_size, sized, line_reached, get_line_length-line_size,
}

same_place : (p q : Place) → at_place p q ≡ true → p ≡ q
same_place p q e = ground arith

module _ (d : Document) where
  -- What stands in front of a place: the element that the search came from, at its place, or an
  -- element of the list whose end is there.
  anchor-place :
      (q : Place) (a : ElementId) (xs : List ElementId) (p : Place) (previous : ElementId)
      → Distinct xs
      → anchor d q p previous xs ≡ some a
      → ((a ≡ previous) × (p ≡ q))
        ⊎ ((r : Place) × In a xs × (position d a p xs ≡ some r) × (past (char_of d a) r ≡ q))
  unfolding anchor position
  anchor-place q a [] p previous u e = elim (Bool-cases (at_place p q)) [
    | inl here ↦ inl (cc (rw here at e), same_place p q here)
    | inr there ↦ absurd (cc (rw there at e))
  ]
  anchor-place q a (y ∷ ys) p previous u e = elim (Bool-cases (at_place p q)) [
    | inl here ↦ inl (cc (rw here at e), same_place p q here)
    | inr there ↦ elim (anchor-place q a ys (past (char_of d y) p) y u.1 (rw there at e)) [
      | inl (same, place) ↦ inr (
        p,
        inl same,
        if_pos (same_key y a) (sym same) _ _,
        ap (λ z. past (char_of d z) p) same ∙ place,
      )
      | inr (r, m, found, place) ↦ inr (
        r,
        inr m,
        if_neg (same_key y a) (λ k. u.0 (subst (λ z. In z ys) (sym k) m)) _ _ ∙ found,
        place,
      )
    ]
  ]

  -- The line behind an element is a line of the text.
  position-newlines :
      (a : ElementId) (xs : List ElementId) (p r : Place)
      → position d a p xs ≡ some r
      → (past (char_of d a) r).line ≤ p.line + newlines d xs
  unfolding position newlines past
  position-newlines a [] p r e = cc
  position-newlines a (y ∷ ys) p r e = elim (same_key y a) [
    | yes here ↦
        let same : p ≡ r = cc (rw (if_pos (same_key y a) here) at e) in
        subst (λ z. (past (char_of d a) z).line ≤ p.line + newlines d (y ∷ ys)) same
          (subst (λ z. (past (char_of d z) p).line ≤ p.line + newlines d (y ∷ ys)) here
            (ground arith))
    | no n ↦
        let rest =
          position-newlines a ys (past (char_of d y) p) r (rw (if_neg (same_key y a) n) at e) in
        ground (arith, rest)
  ]

module _ {T : InsertOperation → Type 0} {R : ElementId → Type 0} {d : Document}
    (v : Holds T R d) where
  cursor_at_root : (a : ElementId) → a ≡ root_id → get_cursor_position d a ≡ ok start
  unfolding get_cursor_position
  cursor_at_root a e = if_pos (same_key a root_id) e _ _

  cursor_at :
      (a : ElementId) (r : Place)
      → is_visible d a ≡ true
      → position d a start (visible d) ≡ some r
      → get_cursor_position d a ≡ ok (past (char_of d a) r)
  cursor_at a r s e = cursor_behind v a r s (get_line_column-position v a ∙ ap place_or_throw e)

  -- What get_anchor_at finds at a place is where a cursor at that place stands.
  pub get_anchor_at-place :
      (q : Place) (a : ElementId)
      → get_anchor_at d q ≡ ok (some a)
      → ((a ≡ root_id) ⊎ (is_visible d a ≡ true)) × (get_cursor_position d a ≡ ok q)
  get_anchor_at-place q a e =
      let found : anchor d q start root_id (visible d) ≡ some a =
        cc (sym (get_anchor_at-anchor v q) ∙ e) in
      elim (anchor-place d q a (visible d) start root_id (visible-Distinct v) found) [
        | inl (same, place) ↦ (inl same, cursor_at_root a same ∙ ap ok place)
        | inr (r, m, at, place) ↦
            let s = (mem-visible v a).0 m in (inr s, cursor_at a r s at ∙ ap ok place)
      ]

  -- At every column up to the length of a line there is an anchor.
  pub get_anchor_at-reached :
      (q : Place) (n : ℕ)
      → get_line_length d q.line ≡ ok (some n)
      → q.column ≤ n
      → (a : ElementId) × (get_anchor_at d q ≡ ok (some a))
  get_anchor_at-reached q n e b =
      let size = line_size d q.line 0 0 (visible d) in
      let known : sized (leb q.line (0 + newlines d (visible d))) size ≡ some n =
        cc (sym (get_line_length-line_size v q.line) ∙ e) in
      let reached =
        line_reached d q start (visible d) 0 root_id (ground arith) (ground arith) (ground arith) in
      elim (Option-cases (anchor d q start root_id (visible d))) [
        | inl none_there ↦ absurd (cc (rw none_there at reached))
        | inr (a, found) ↦ (a, get_anchor_at-anchor v q ∙ ap ok found)
      ]

  -- The cursor stands in a line of the text, and the lines above it are lines of the text.
  pub get_cursor_position-line :
      (a : ElementId)
      → (a ≡ root_id) ⊎ (is_visible d a ≡ true)
      → (p : Place) × (get_cursor_position d a ≡ ok p)
        × ((t : ℕ) → t ≤ p.line → (n : ℕ) × (get_line_length d t ≡ ok (some n)))
  get_cursor_position-line a (inl e) = (
    start,
    cursor_at_root a e,
    λ t b. (line_size d t 0 0 (visible d), get_line_length-line_size v t ∙ ap ok (ground arith)),
  )
  get_cursor_position-line a (inr s) =
      let (r, e) = position-In d a (visible d) start ((mem-visible v a).1 s) in
      let within = position-newlines d a (visible d) start r e in
      (
        past (char_of d a) r,
        cursor_at a r s e,
        λ t b. (
          line_size d t 0 0 (visible d),
          get_line_length-line_size v t ∙ ap ok (ground (arith, within)),
        ),
      )

  pub get_line_length-ok :
      (t : ℕ) → (get_line_length d t ≡ ok none) ⊎ ((n : ℕ) × (get_line_length d t ≡ ok (some n)))
  get_line_length-ok t =
      let size = line_size d t 0 0 (visible d) in
      elim (Bool-cases (leb t (0 + newlines d (visible d)))) [
        | inl there ↦ inr (size, get_line_length-line_size v t ∙ ap (λ b. ok (sized b size)) there)
        | inr behind ↦ inl (get_line_length-line_size v t ∙ ap (λ b. ok (sized b size)) behind)
      ]
