-- ===== src/Document/Walk/Anchors.antt =====
-- crdt_editor/src/document.cpp: where a cursor may stand, and resolve_cursor_anchor.
use crdt_networking_applicat.Prelude.{
  ◌≡◌, ◌≢◌, refl, sym, ap, subst, ◌∙◌, ◌⊎◌, inl, inr, true, false, not, Option, none, some, List,
  [], ◌∷◌, In, if_pos, if_neg, Bool-cases, if◌then◌else◌, ite,
}
use crdt_networking_applicat.Prelude.Maps.{
  lookup, contains, same_key, lookup_of_contains, contains_of_lookup,
}
use crdt_networking_applicat.Ids.{ElementId, id_key, root_id}
use crdt_networking_applicat.Operation.{Character, InsertOperation}
use crdt_networking_applicat.Outcome.{ok, ◌>>=◌}
use crdt_networking_applicat.Document.{Document}
use crdt_networking_applicat.Document.Invariant.{Has, Lacks}
use crdt_networking_applicat.Document.History.{Holds}
use crdt_networking_applicat.Document.Visit.{element_at}
use crdt_networking_applicat.Document.Visit.Fold.{is_visible, element_at-ok}
use crdt_networking_applicat.Document.Visit.Members.{is_visible-Has}
use crdt_networking_applicat.Document.Visit.Everyone.{shown}
use crdt_networking_applicat.Document.Positions.RoundTrip.{visible_element}
use crdt_networking_applicat.Document.Walk.{
  head_of, last_of, visible_successor, visible_predecessor, resolve_cursor_anchor,
}
use crdt_networking_applicat.Document.Walk.Visible.{visible_neighbours}

-- A cursor stands behind the root, at the start of the text, or behind a visible element.
abbrev pub IsAnchor : Document → ElementId → Type 0
IsAnchor d x = (x ≡ root_id) ⊎ (is_visible d x ≡ true)

shown-visible :
    (d : Document) (x : ElementId) (xs : List ElementId) → In x (shown d xs) → is_visible d x ≡ true
unfolding shown
shown-visible d x [] m = absurd m
shown-visible d x (y ∷ ys) m = elim (Bool-cases (is_visible d y)) [
  | inl e ↦ elim (rw e at m) [
    | inl q ↦ subst (λ z. is_visible d z ≡ true) (sym q) e
    | inr n ↦ shown-visible d x ys n
  ]
  | inr e ↦ shown-visible d x ys (rw e at m)
]

last_of-IsAnchor :
    (d : Document) (x : ElementId) (xs : List ElementId)
    → IsAnchor d x
    → ((y : ElementId) → In y xs → is_visible d y ≡ true)
    → IsAnchor d (last_of x xs)
last_of-IsAnchor d x [] a h = a
last_of-IsAnchor d x (y ∷ ys) a h =
    last_of-IsAnchor d y ys (inr (h y (inl refl))) (λ z m. h z (inr m))

head_of-In : (y : ElementId) (xs : List ElementId) → head_of xs ≡ some y → In y xs
head_of-In y [] e = cc
head_of-In y (x ∷ xs) e = inl (cc e)

pub visible_of :
    (d : Document) (x : ElementId) (c : Character)
    → x ≢ root_id
    → lookup x d.elements ≡ some c
    → c.deleted ≡ false
    → is_visible d x ≡ true
unfolding is_visible
visible_of d x c n e alive = if_neg (same_key x root_id) n _ _ ∙ rw (e, alive)

module _ {T : InsertOperation → Type 0} {R : ElementId → Type 0} {d : Document}
    (v : Holds T R d) where
  pub IsAnchor-Has : (x : ElementId) → IsAnchor d x → Has d x
  IsAnchor-Has x (inl e) =
      subst (Has d) (sym e) (contains_of_lookup root_id d.elements v.root_element.1)
  IsAnchor-Has x (inr s) = is_visible-Has v x s

  pub visible_predecessor-IsAnchor :
      (x : ElementId) → Has d x → (r : ElementId) × (visible_predecessor d x ≡ ok r) × IsAnchor d r
  visible_predecessor-IsAnchor x h =
      let (us, ws, _, found, _) = visible_neighbours v x h in
      (
        last_of root_id (shown d us),
        found,
        last_of-IsAnchor d root_id (shown d us) (inl refl) (λ y m. shown-visible d y us m),
      )

  pub visible_successor-IsAnchor :
      (x : ElementId)
      → Has d x
      → (r : Option ElementId) × (visible_successor d x ≡ ok r)
        × ((y : ElementId) → r ≡ some y → is_visible d y ≡ true)
  visible_successor-IsAnchor x h =
      let (us, ws, _, _, found) = visible_neighbours v x h in
      (head_of (shown d ws), found, λ y e. shown-visible d y ws (head_of-In y (shown d ws) e))

  -- The anchor of a tombstone.
  resolve_tombstone :
      (x r : ElementId)
      → visible_predecessor d x ≡ ok r
      → IsAnchor d r
      → (do
        resolved ← visible_predecessor d x
        ite (same_key resolved root_id) (ok (some root_id)) (
            if not (contains resolved d.elements) then ok none else do
              c ← element_at d resolved
              if c.deleted then ok none else do again ← visible_predecessor d x; ok (some again)))
        ≡ ok (some r)
  resolve_tombstone x r found (inl e) =
      rw found (if_pos (same_key r root_id) e _ _ ∙ ap (λ z. ok (some z)) (sym e))
  resolve_tombstone x r found (inr s) =
      let (c, q, alive, n) = visible_element v r s in
      rw found (
        if_neg (same_key r root_id) n _ _ ∙ rw (is_visible-Has v r s, element_at-ok d r c q, alive))

  -- In a document that some history of operations leaves, the anchor of a cursor that is not in the
  -- document resolves to none; an anchor where a cursor may stand resolves to itself, and any
  -- other one, a tombstone, to a place where a cursor may stand.
  pub resolve_cursor_anchor-IsAnchor :
      (x : ElementId)
      → (Lacks d x × (resolve_cursor_anchor d x ≡ ok none))
        ⊎ ((r : ElementId) × Has d x
            × (resolve_cursor_anchor d x ≡ ok (some r))
            × IsAnchor d r
            × (IsAnchor d x → r ≡ x))
  unfolding resolve_cursor_anchor
  resolve_cursor_anchor-IsAnchor x = elim (same_key x root_id) [
    | yes q ↦
        inr
          (root_id, IsAnchor-Has x (inl q), if_pos (same_key x root_id) q _ _, inl refl, λ _. sym q)
    | no n ↦ elim (Bool-cases (contains x d.elements)) [
      | inr l ↦ inl (l, if_neg (same_key x root_id) n _ _ ∙ rw l)
      | inl h ↦
          let (c, e) = lookup_of_contains x d.elements h in
          elim (Bool-cases c.deleted) [
            | inr alive ↦ inr (
              x,
              h,
              if_neg (same_key x root_id) n _ _ ∙ rw (h, element_at-ok d x c e, alive),
              inr (visible_of d x c n e alive),
              λ _. refl,
            )
            | inl gone ↦
                let (r, found, good) = visible_predecessor-IsAnchor x h in
                inr (
                  r,
                  h,
                  if_neg (same_key x root_id) n _ _
                      ∙ rw (h, element_at-ok d x c e, gone) (resolve_tombstone x r found good),
                  good,
                  elim [
                    | inl q ↦ absurd (n q)
                    | inr s ↦ let (c', e', alive, _) = visible_element v x s in absurd (cc)
                  ],
                )
          ]
    ]
  ]
