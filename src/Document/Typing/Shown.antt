-- ===== src/Document/Typing/Shown.antt =====
-- What a user types appears directly behind the cursor.
use crdt_networking_applicat.Prelude.{
  ℕ, ◌≡◌, refl, sym, ap, ap₂, subst, ◌∙◌, ◌⊎◌, inl, inr, true, List, [], ◌∷◌, ◌++◌, In, map,
  Bool-cases, if◌then◌else◌,
}
use mathlib.Core.List.{append_assoc}
use crdt_networking_applicat.Prelude.Maps.{lookup_of_contains}
use crdt_networking_applicat.Ids.{ElementId, id_key, root_id}
use crdt_networking_applicat.Operation.{InsertOperation, insert}
use crdt_networking_applicat.Outcome.{ok, done}
use crdt_networking_applicat.Document.{Document, apply}
use crdt_networking_applicat.Document.Invariant.{Add, Has}
use crdt_networking_applicat.Document.History.{Holds, apply-insert_Holds}
use crdt_networking_applicat.Document.Convergence.{iff-true}
use crdt_networking_applicat.Document.Visit.{render}
use crdt_networking_applicat.Document.Visit.Fold.{is_visible, visible}
use crdt_networking_applicat.Document.Visit.Members.{mem-append, mem-visible, is_visible-Has}
use crdt_networking_applicat.Document.Visit.Everyone.{everyone, shown, shown-append, visible-shown}
use crdt_networking_applicat.Document.Visit.Render.{char_of, render-visible}
use crdt_networking_applicat.Document.Positions.RoundTrip.{visible_element}
use crdt_networking_applicat.Document.Walk.{last_of}
use crdt_networking_applicat.Document.Walk.Order.{last_of-append}
use crdt_networking_applicat.Document.Walk.Neighbours.{
  everyone-Has, everyone-split, everyone_root, split_unique,
}
use crdt_networking_applicat.Document.Walk.Visible.{root_hidden}
use crdt_networking_applicat.Document.Siblings.{Distinct}
use crdt_networking_applicat.Document.Visit.Once.{everyone-Distinct}
use crdt_networking_applicat.Document.Walk.Anchors.{IsAnchor, IsAnchor-Has, visible_of}
use crdt_networking_applicat.Document.Typing.{
  IsNewest, ident-Has, Has-still, same_source, new_source,
}
use crdt_networking_applicat.Document.Typing.Tree.{everyone_behind}

shown_same :
    (d d' : Document) (xs : List ElementId)
    → ((x : ElementId) → In x xs → is_visible d' x ≡ is_visible d x)
    → shown d' xs ≡ shown d xs
unfolding shown
shown_same d d' [] h = refl
shown_same d d' (x ∷ xs) h =
    ap₂ (λ b l. if b then x ∷ l else l) (h x (inl refl)) (shown_same d d' xs (λ y m. h y (inr m)))

map_same :
    (f g : ElementId → ℕ) (xs : List ElementId)
    → ((x : ElementId) → In x xs → f x ≡ g x)
    → map f xs ≡ map g xs
map_same f g [] h = refl
map_same f g (x ∷ xs) h = ap₂ ◌∷◌ (h x (inl refl)) (map_same f g xs (λ y m. h y (inr m)))

map-append : (f : ElementId → ℕ) (xs ys : List ElementId) → map f (xs ++ ys) ≡ map f xs ++ map f ys
map-append f [] ys = refl
map-append f (x ∷ xs) ys = ap (λ l. f x ∷ l) (map-append f xs ys)

module _ {T : InsertOperation → Type 0} {R : ElementId → Type 0} {d d' : Document}
    {o : InsertOperation} (v : Holds T R d) (v' : Holds (Add o T) R d') (n : IsNewest T R o)
    (there : Has d o.parent) where
  visible_still : (y : ElementId) → Has d y → is_visible d' y ≡ is_visible d y
  visible_still y h =
      let (c, q) = lookup_of_contains y d.elements h in
      let (c', q') = lookup_of_contains y d'.elements (Has-still v v' n there y h) in
      iff-true (is_visible d' y) (is_visible d y) (
        λ s.
            let (e, f, alive, r) = visible_element v' y s in
            elim (Bool-cases c.deleted) [
              | inl gone ↦ absurd (cc ((v'.removed y e f).1 ((v.removed y c q).0 gone)))
              | inr fine ↦ visible_of d y c r q fine
            ],
        λ s.
            let (e, f, alive, r) = visible_element v y s in
            elim (Bool-cases c'.deleted) [
              | inl gone ↦ absurd (cc ((v.removed y e f).1 ((v'.removed y c' q').0 gone)))
              | inr fine ↦ visible_of d' y c' r q' fine
            ],
      )

  new_visible : is_visible d' o.ident ≡ true
  new_visible =
      let (c, q) = lookup_of_contains o.ident d'.elements (ident-Has v v' n there) in
      elim (Bool-cases c.deleted) [
        | inl gone ↦ absurd (n.not_removed ((v'.removed o.ident c q).0 gone))
        | inr fine ↦ visible_of d' o.ident c (n.genuine.not_root o (inl refl)) q fine
      ]

  new_char : char_of d' o.ident ≡ o.ch
  unfolding char_of
  new_char =
      let (c, q) = lookup_of_contains o.ident d'.elements (ident-Has v v' n there) in
      rw (char_of, q) (new_source v v' n there c q).0

  char_still : (y : ElementId) → is_visible d y ≡ true → char_of d' y ≡ char_of d y
  unfolding char_of
  char_still y s =
      let (c, q, _, r) = visible_element v y s in
      let (c', q') =
        lookup_of_contains y d'.elements (Has-still v v' n there y (is_visible-Has v y s)) in
      rw (char_of, q, q') (same_source v v' n there y c c' q q' r).0

  -- Up to the cursor, the last visible element is the one it stands behind.
  last_shown :
      (us ws : List ElementId)
      → everyone d ≡ us ++ o.parent ∷ ws
      → IsAnchor d o.parent
      → last_of root_id (shown d (us ++ o.parent ∷ [])) ≡ o.parent
  unfolding shown
  last_shown us ws e (inr s) =
      ap (last_of root_id) (shown-append d us (o.parent ∷ []))
      ∙ ap (λ b. last_of root_id (shown d us ++ (if b then o.parent ∷ [] else []))) s
      ∙ last_of-append root_id o.parent (shown d us) []
  last_shown us ws e (inl q) =
      let (first, f) = everyone_root v in
      let (front, _) =
        split_unique root_id [] first us ws (subst Distinct f (everyone-Distinct v))
          (sym f ∙ e ∙ ap (λ z. us ++ z ∷ ws) q) in
      ap (λ l. last_of root_id (shown d (l ++ o.parent ∷ []))) (sym front)
      ∙ ap (λ b. last_of root_id (if b then o.parent ∷ [] else []))
          (ap (is_visible d) q ∙ root_hidden v)
      ∙ sym q

  -- The visible elements, with the new one behind the cursor.
  visible_behind :
      IsAnchor d o.parent
      → (a b : List ElementId) × (visible d ≡ a ++ b)
        × (last_of root_id a ≡ o.parent)
        × (visible d' ≡ a ++ o.ident ∷ b)
  unfolding shown
  visible_behind at =
      let (us, ws, e) = everyone-split v o.parent there in
      let e' = everyone_behind v v' n there us ws e in
      let vs = us ++ o.parent ∷ [] in
      let whole : everyone d ≡ vs ++ ws = e ∙ sym (append_assoc us (o.parent ∷ []) ws) in
      let whole' : everyone d' ≡ vs ++ o.ident ∷ ws =
        e' ∙ sym (append_assoc us (o.parent ∷ []) (o.ident ∷ ws)) in
      let front = shown_same d d' vs (λ y m.
        visible_still y
          (everyone-Has v y (subst (In y) (sym whole) ((mem-append y vs ws).1 (inl m))))) in
      let back = shown_same d d' ws (λ y m.
        visible_still y
          (everyone-Has v y (subst (In y) (sym whole) ((mem-append y vs ws).1 (inr m))))) in
      (
        shown d vs,
        shown d ws,
        visible-shown d ∙ ap (shown d) whole ∙ shown-append d vs ws,
        last_shown us ws e at,
        visible-shown d'
            ∙ ap (shown d') whole'
            ∙ shown-append d' vs (o.ident ∷ ws)
            ∙ ap₂ (λ l m. l ++ m) front
                (ap (λ b. if b then o.ident ∷ shown d' ws else shown d' ws) new_visible
                  ∙ ap (λ l. o.ident ∷ l) back),
      )

-- In a document that some history of operations leaves, an insertion behind the root or a visible
-- element, of an id that is greater than all others, that no other insertion has as its id or
-- parent and no removal as its target, is applied without an exception. The text is then the one
-- before, with the character directly behind the characters up to the parent.
pub apply-render :
    {T : InsertOperation → Type 0} {R : ElementId → Type 0} {d : Document} (o : InsertOperation)
    (v : Holds T R d)
    → IsNewest T R o
    → IsAnchor d o.parent
    → (d' : Document) × (a b : List ElementId) × (apply d (insert o) ≡ done d')
      × (visible d ≡ a ++ b)
      × (last_of root_id a ≡ o.parent)
      × (render d ≡ ok (map (char_of d) a ++ map (char_of d) b))
      × (render d' ≡ ok (map (char_of d) a ++ o.ch ∷ map (char_of d) b))
apply-render {d = d} o v n at =
    let there = IsAnchor-Has v o.parent at in
    let (d', e, v') = apply-insert_Holds v o n.genuine in
    let (a, b, whole, last, whole') = visible_behind v v' n there at in
    let same = λ (y : ElementId) (m : In y a ⊎ In y b).
      char_still v v' n there y
        ((mem-visible v y).0 (subst (In y) (sym whole) ((mem-append y a b).1 m))) in
    (
      d',
      a,
      b,
      e,
      whole,
      last,
      render-visible v
          ∙ ap (λ l. ok (map (char_of d) l)) whole
          ∙ ap ok (map-append (char_of d) a b),
      render-visible v'
          ∙ ap (λ l. ok (map (char_of d') l)) whole'
          ∙ ap ok (
              map-append (char_of d') a (o.ident ∷ b)
              ∙ ap₂ (λ l m. l ++ m) (map_same (char_of d') (char_of d) a (λ y m. same y (inl m)))
                  (ap₂ ◌∷◌ (new_char v v' n there)
                    (map_same (char_of d') (char_of d) b (λ y m. same y (inr m))))),
    )
