-- ===== src/Document/Positions/RoundTrip.antt =====
-- crdt_editor/src/document.cpp: from an element to its place and back, as the cursor goes.
use crdt_networking_applicat.Prelude.{
  ℕ, ◌<◌, ◌≡◌, ◌≢◌, sym, ap, subst, ◌∙◌, ◌⊎◌, inl, inr, true, false, some, List, [], ◌∷◌, In, arith,
  if_pos, if_neg, Bool-cases,
}
use crdt_networking_applicat.Prelude.Maps.{lookup, same_key, lookup_of_contains}
use crdt_networking_applicat.Ids.{ElementId, id_key, root_id}
use crdt_networking_applicat.Operation.{Character, InsertOperation}
use crdt_networking_applicat.Outcome.{ok}
use crdt_networking_applicat.Document.{Document}
use crdt_networking_applicat.Document.History.{Holds}
use crdt_networking_applicat.Document.Visit.{Place, start, past, at_place, get_line_column}
use crdt_networking_applicat.Document.Visit.Fold.{is_visible, visible, element_at-ok}
use crdt_networking_applicat.Document.Visit.Members.{mem-visible, is_visible-Has}
use crdt_networking_applicat.Document.Visit.Render.{char_of, get_character-ok}
use crdt_networking_applicat.Document.Queries.{get_element_at, get_anchor_at, get_cursor_position}
use crdt_networking_applicat.Document.Positions.{
  position, element, anchor, place_or_throw, get_line_column-position, get_element_at-element,
  get_anchor_at-anchor,
}

-- `p` comes before `q` in the text.
abbrev Before : Place → Place → Type 0
Before p q = (p.line < q.line) ⊎ ((p.line ≡ q.line) × (p.column < q.column))

Before-trans : (p q r : Place) → Before p q → Before q r → Before p r
Before-trans p q r h k = ground arith

pub Before-past : (c : ℕ) (p : Place) → Before p (past c p)
unfolding past
Before-past c p = ground arith

at_place-Before : (p q : Place) → Before p q → at_place p q ≡ false
at_place-Before p q h = ground arith

at_place_self : (p : Place) → at_place p p ≡ true
at_place_self p = ground arith

module _ (d : Document) (x : ElementId) where
  -- An element stands at the place where the search starts, or behind it.
  position-Before :
      (xs : List ElementId) (p r : Place) → position d x p xs ≡ some r → (p ≡ r) ⊎ Before p r
  unfolding position
  position-Before [] p r e = cc
  position-Before (y ∷ ys) p r e = elim (same_key y x) [
    | yes here ↦ inl (cc (rw (if_pos (same_key y x) here) at e))
    | no n ↦
        let next = past (char_of d y) p in
        elim (position-Before ys next r (rw (if_neg (same_key y x) n) at e)) [
          | inl s ↦ inr (subst (Before p) s (Before-past (char_of d y) p))
          | inr b ↦ inr (Before-trans p next r (Before-past (char_of d y) p) b)
        ]
  ]

  -- The elements in front of the one that is sought stand before it.
  passed :
      (y : ElementId) (ys : List ElementId) (p r : Place)
      → position d x (past (char_of d y) p) ys ≡ some r
      → Before p r
  passed y ys p r e = elim (position-Before ys (past (char_of d y) p) r e) [
    | inl s ↦ subst (Before p) s (Before-past (char_of d y) p)
    | inr b ↦ Before-trans p (past (char_of d y) p) r (Before-past (char_of d y) p) b
  ]

  element-position :
      (xs : List ElementId) (p r : Place) → position d x p xs ≡ some r → element d r p xs ≡ some x
  unfolding position element
  element-position [] p r e = cc
  element-position (y ∷ ys) p r e = elim (same_key y x) [
    | yes here ↦
        let same : p ≡ r = cc (rw (if_pos (same_key y x) here) at e) in
        rw (subst (λ q. at_place p q ≡ true) same (at_place_self p)) (ap some here)
    | no n ↦
        let later = rw (if_neg (same_key y x) n) at e in
        rw (at_place-Before p r (passed y ys p r later))
          (element-position ys (past (char_of d y) p) r later)
  ]

  -- The place behind the element is found again, whatever follows.
  anchor-here :
      (q : Place) (previous : ElementId) (xs : List ElementId)
      → anchor d q q previous xs ≡ some previous
  unfolding anchor
  anchor-here q previous [] = rw (at_place_self q)
  anchor-here q previous (y ∷ ys) = rw (at_place_self q)

  anchor-position :
      (xs : List ElementId) (p r : Place) (previous : ElementId)
      → position d x p xs ≡ some r
      → anchor d (past (char_of d x) r) p previous xs ≡ some x
  unfolding position anchor
  anchor-position [] p r previous e = cc
  anchor-position (y ∷ ys) p r previous e = elim (same_key y x) [
    | yes here ↦
        let same : p ≡ r = cc (rw (if_pos (same_key y x) here) at e) in
        rw
          (subst (λ q. at_place p (past (char_of d x) q) ≡ false) same
            (at_place-Before p (past (char_of d x) p) (Before-past (char_of d x) p)))
          (subst (λ z. anchor d (past (char_of d x) r) (past (char_of d z) p) z ys ≡ some x)
            (sym here)
            (subst (λ q. anchor d (past (char_of d x) q) (past (char_of d x) p) x ys ≡ some x) same
              (anchor-here (past (char_of d x) p) x ys)))
    | no n ↦
        let later = rw (if_neg (same_key y x) n) at e in
        let target = past (char_of d x) r in
        rw
          (at_place-Before p target
            (Before-trans p r target (passed y ys p r later) (Before-past (char_of d x) r)))
          (anchor-position ys (past (char_of d y) p) r y later)
  ]

  pub position-In :
      (xs : List ElementId) (p : Place) → In x xs → (r : Place) × (position d x p xs ≡ some r)
  unfolding position
  position-In [] p m = absurd m
  position-In (y ∷ ys) p (inl e) = (p, if_pos (same_key y x) (sym e) _ _)
  position-In (y ∷ ys) p (inr m) = elim (same_key y x) [
    | yes here ↦ (p, if_pos (same_key y x) here _ _)
    | no n ↦
        let (r, e) = position-In ys (past (char_of d y) p) m in (r, if_neg (same_key y x) n _ _ ∙ e)
  ]

module _ {T : InsertOperation → Type 0} {R : ElementId → Type 0} {d : Document}
    (v : Holds T R d) where
  -- In a document that some history of operations leaves, each visible element has a line and a
  -- column, and get_element_at finds the element there again.
  pub get_element_at-get_line_column :
      (x : ElementId)
      → is_visible d x ≡ true
      → (p : Place) × (get_line_column d x ≡ ok p) × (get_element_at d p ≡ ok (some x))
  get_element_at-get_line_column x s =
      let (p, e) = position-In d x (visible d) start ((mem-visible v x).1 s) in
      (
        p,
        get_line_column-position v x ∙ ap place_or_throw e,
        get_element_at-element v p ∙ ap ok (element-position d x (visible d) start p e),
      )

  pub visible_element :
      (x : ElementId)
      → is_visible d x ≡ true
      → (c : Character) × (lookup x d.elements ≡ some c) × (c.deleted ≡ false) × (x ≢ root_id)
  unfolding is_visible
  visible_element x s = elim (same_key x root_id) [
    | yes e ↦ absurd (cc (sym (if_pos (same_key x root_id) e _ _) ∙ s))
    | no n ↦
        let (c, found) = lookup_of_contains x d.elements (is_visible-Has v x s) in
        elim (Bool-cases c.deleted) [
          | inl gone ↦ absurd (cc (rw (if_neg (same_key x root_id) n, found, gone) at s))
          | inr alive ↦ (c, found, alive, n)
        ]
  ]

  -- The place of the cursor behind a visible element.
  pub cursor_behind :
      (x : ElementId) (r : Place)
      → is_visible d x ≡ true
      → get_line_column d x ≡ ok r
      → get_cursor_position d x ≡ ok (past (char_of d x) r)
  unfolding get_cursor_position past
  cursor_behind x r s e =
      let (c, found, alive, n) = visible_element x s in
      let there = is_visible-Has v x s in
      rw
        (
          if_neg (same_key x root_id) n,
          there,
          element_at-ok d x c found,
          alive,
          e,
          get_character-ok d x there,
        )
        (ground arith)

  -- In a document that some history of operations leaves, the cursor behind the root or behind a
  -- visible element has a place, and get_anchor_at finds the anchor there again.
  pub get_anchor_at-get_cursor_position :
      (x : ElementId)
      → (x ≡ root_id) ⊎ (is_visible d x ≡ true)
      → (p : Place) × (get_cursor_position d x ≡ ok p) × (get_anchor_at d p ≡ ok (some x))
  get_anchor_at-get_cursor_position x (inl e) = (
    start,
    unfold get_cursor_position in if_pos (same_key x root_id) e _ _,
    get_anchor_at-anchor v start
        ∙ ap ok (anchor-here d x start root_id (visible d) ∙ ap some (sym e)),
  )
  get_anchor_at-get_cursor_position x (inr s) =
      let (r, e) = position-In d x (visible d) start ((mem-visible v x).1 s) in
      (
        past (char_of d x) r,
        cursor_behind x r s (get_line_column-position v x ∙ ap place_or_throw e),
        get_anchor_at-anchor v (past (char_of d x) r)
            ∙ ap ok (anchor-position d x (visible d) start r root_id e),
      )
