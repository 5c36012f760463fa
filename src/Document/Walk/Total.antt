-- ===== src/Document/Walk/Total.antt =====
-- crdt_editor/src/document.cpp: successor and predecessor return, and what they return is there.
use crdt_networking_applicat.Prelude.{
  ℕ, zero, suc, ◌+◌, ◌<◌, ◌≤◌, ◌≡◌, ◌≢◌, refl, sym, subst, ◌∙◌, ◌⊎◌, inl, inr, Option, none, some,
  List, [], ◌∷◌, In, length, arith, if_pos, if_neg, Option-cases,
}
use crdt_networking_applicat.Prelude.Maps.{lookup, same_key, lookup_of_contains}
use crdt_networking_applicat.Ids.{ElementId, id_key, root_id}
use crdt_networking_applicat.Operation.{InsertOperation}
use crdt_networking_applicat.Outcome.{ok, err, not_among_siblings}
use crdt_networking_applicat.Document.{Document, list_at}
use crdt_networking_applicat.Document.Invariant.{Has}
use crdt_networking_applicat.Document.History.{Holds}
use crdt_networking_applicat.Document.Visit.Fold.{child_ranks}
use crdt_networking_applicat.Document.Walk.{
  parent_at, children_at, head_of, next_sibling, climb, successor, sibling_before, last_of, descend,
  predecessor,
}

next_sibling-In : (x y : ElementId) (xs : List ElementId) → next_sibling x xs ≡ some y → In y xs
unfolding next_sibling
next_sibling-In x y [] e = cc
next_sibling-In x y (z ∷ zs) e = elim (same_key z x) [
  | yes q ↦ inr (head_in zs (rw (if_pos (same_key z x) q) at e))
  | no n ↦ inr (next_sibling-In x y zs (rw (if_neg (same_key z x) n) at e))
]
  where
    head_in : (ws : List ElementId) → head_of ws ≡ some y → In y ws
    head_in [] h = cc
    head_in (w ∷ ws) h = inl (cc h)

pub last_of-In : (x : ElementId) (xs : List ElementId) → In (last_of x xs) (x ∷ xs)
last_of-In x [] = inl refl
last_of-In x (y ∷ ys) = inr (last_of-In y ys)

-- Where the node stands among its siblings, one stands before it or it is the first.
sibling_before-In :
    (x : ElementId) (before : Option ElementId) (xs : List ElementId)
    → In x xs
    → (r : Option ElementId) × (sibling_before x before xs ≡ some r)
      × ((y : ElementId) → r ≡ some y → (before ≡ some y) ⊎ In y xs)
unfolding sibling_before
sibling_before-In x before [] m = absurd m
sibling_before-In x before (z ∷ zs) m = elim (same_key z x) [
  | yes q ↦ (before, if_pos (same_key z x) q _ _, λ y e. inl e)
  | no n ↦
      let (r, found, from) =
        sibling_before-In x (some z) zs (elim m [ inl e ↦ absurd (n (sym e)) | inr k ↦ k ]) in
      (
        r,
        if_neg (same_key z x) n _ _ ∙ found,
        λ y e. elim (from y e) [ inl q ↦ inr (inl (cc q)) | inr k ↦ inr (inr k) ],
      )
]

module _ {T : InsertOperation → Type 0} {R : ElementId → Type 0} {d : Document}
    (v : Holds T R d) where
  pub children_of :
      (x : ElementId) → Has d x → (xs : List ElementId) × (lookup x d.children ≡ some xs)
  children_of x h = lookup_of_contains x d.children (v.children_keys x ∙ h)

  pub children_at-ok :
      (x : ElementId) (xs : List ElementId)
      → lookup x d.children ≡ some xs
      → children_at d x ≡ ok xs
  unfolding children_at
  children_at-ok x xs e = rw (children_at, e)

  pub parent_at-ok : (x p : ElementId) → lookup x d.parent_of ≡ some p → parent_at d x ≡ ok p
  unfolding parent_at
  parent_at-ok x p e = rw (parent_at, e)

  pub child_ranks-of :
      (p x : ElementId) (xs : List ElementId)
      → lookup p d.children ≡ some xs
      → In x xs
      → Has d x × (v.rank p < v.rank x) × (x ≢ root_id)
  child_ranks-of p x xs e m = child_ranks v p x (subst (λ o. In x (list_at o)) (sym e) m)

  -- the parent of an element and its children
  pub family :
      (x : ElementId)
      → Has d x
      → x ≢ root_id
      → (p : ElementId) × (xs : List ElementId) × (lookup x d.parent_of ≡ some p)
        × Has d p
        × (v.rank p < v.rank x)
        × (lookup p d.children ≡ some xs)
        × In x xs
  family x h n =
      let (c, e) = lookup_of_contains x d.elements h in
      let from = v.origin x c e n in
      let p = from.oper.parent in
      let (xs, kids) = children_of p from.parent_there in
      (
        p,
        xs,
        from.parent_eq,
        from.parent_there,
        from.after_parent,
        kids,
        subst (λ o. In x (list_at o)) kids ((v.kin p x).1 (from.parent_eq, n)),
      )

  climb-ok :
      (fuel : ℕ) (x : ElementId)
      → Has d x
      → v.rank x < fuel
      → (r : Option ElementId) × (climb fuel d x ≡ ok r) × ((y : ElementId) → r ≡ some y → Has d y)
  unfolding climb
  climb-ok zero x h b = absurd (omega arith)
  climb-ok (suc fuel) x h b = elim (same_key x root_id) [
    | yes q ↦ (none, if_pos (same_key x root_id) q _ _, λ y e. cc)
    | no n ↦
        let (p, xs, parent, there, below, kids, _) = family x h n in
        let step : climb (suc fuel) d x
            ≡ (elim (next_sibling x xs) [ some next ↦ ok (some next) | none ↦ climb fuel d p ]) =
          if_neg (same_key x root_id) n _ _
          ∙ rw (parent_at-ok x p parent, children_at-ok p xs kids) in
        elim (Option-cases (next_sibling x xs)) [
          | inl e ↦
              let (r, found, ok_there) = climb-ok fuel p there (omega arith) in
              (r, step ∙ rw e found, ok_there)
          | inr (y, e) ↦ (
            some y,
            step ∙ rw e,
            λ z q. subst (Has d) (cc q) (child_ranks-of p y xs kids (next_sibling-In x y xs e)).0,
          )
        ]
  ]

  descend-ok :
      (fuel : ℕ) (x : ElementId)
      → Has d x
      → length d.elements ≤ fuel + v.rank x
      → (r : ElementId) × (descend fuel d x ≡ ok r) × Has d r
  unfolding descend
  descend-ok zero x h b = absurd (omega (arith, v.rank_lt x h))
  descend-ok (suc fuel) x h b =
      let (xs, kids) = children_of x h in with_kids xs kids (descend-ok fuel)
    where
      with_kids :
          (xs : List ElementId)
          → lookup x d.children ≡ some xs
          → ((y : ElementId)
              → Has d y
              → length d.elements ≤ fuel + v.rank y
              → (r : ElementId) × (descend fuel d y ≡ ok r) × Has d r)
          → (r : ElementId) × (descend (suc fuel) d x ≡ ok r) × Has d r
      with_kids [] kids rest = (x, rw (children_at-ok x [] kids), h)
      with_kids (y ∷ ys) kids rest =
          let (there, above, _) = child_ranks-of x (last_of y ys) (y ∷ ys) kids (last_of-In y ys) in
          let (r, found, good) = rest (last_of y ys) there (omega arith) in
          (r, rw (children_at-ok x (y ∷ ys) kids) found, good)

  -- In a document that some history of operations leaves, successor returns for every element,
  -- and what it finds is in the document.
  pub successor-ok :
      (x : ElementId)
      → Has d x
      → (r : Option ElementId) × (successor d x ≡ ok r) × ((y : ElementId) → r ≡ some y → Has d y)
  unfolding successor
  successor-ok x h = let (xs, kids) = children_of x h in with_kids xs kids
    where
      with_kids :
          (xs : List ElementId)
          → lookup x d.children ≡ some xs
          → (r : Option ElementId) × (successor d x ≡ ok r)
            × ((y : ElementId) → r ≡ some y → Has d y)
      with_kids [] kids =
          let (r, found, good) =
            climb-ok (suc (length d.elements)) x h (omega (arith, v.rank_lt x h)) in
          (r, rw (successor, kids) found, good)
      with_kids (y ∷ ys) kids = (
        some y,
        rw (successor, kids),
        λ z q. subst (Has d) (cc q) (child_ranks-of x y (y ∷ ys) kids (inl refl)).0,
      )

  -- In a document that some history of operations leaves, predecessor returns for every element
  -- but the root, and what it finds is in the document.
  pub predecessor-ok :
      (x : ElementId) → Has d x → x ≢ root_id → (r : ElementId) × (predecessor d x ≡ ok r) × Has d r
  unfolding predecessor
  predecessor-ok x h n =
      let (p, xs, parent, there, below, kids, mine) = family x h n in
      let (o, found, from) = sibling_before-In x none xs mine in
      let step : predecessor d x ≡ (elim (sibling_before x none xs) [
        | none ↦ err not_among_siblings
        | some none ↦ ok p
        | some (some previous) ↦ descend (length d.elements) d previous
      ]) =
        rw (parent_at-ok x p parent, children_at-ok p xs kids) in
      elim (Option-cases o) [
        | inl e ↦ (p, step ∙ rw (found, e), there)
        | inr (y, e) ↦
            let here : In y xs = elim (from y e) [ inl q ↦ absurd (cc q) | inr m ↦ m ] in
            let (r, last, good) =
              descend-ok (length d.elements) y (child_ranks-of p y xs kids here).0 (omega arith) in
            (r, step ∙ rw (found, e) last, good)
      ]
