-- ===== src/Document/Visit/Members.antt =====
-- The walk meets each element that has no tombstone, once, and nothing else.
use crdt_networking_applicat.Prelude.{
  ℕ, zero, suc, ◌+◌, ◌≤◌, ◌<◌, ◌≡◌, refl, sym, ap, subst, ◌∙◌, ◌↔◌, ◌⊎◌, inl, inr, true, List, [],
  ◌∷◌, ◌++◌, In, arith, Bool-cases, if_pos, if_neg, length,
}
use crdt_networking_applicat.Prelude.Maps.{
  lookup, contains, lookup_of_contains, none_of_contains, same_key,
}
use crdt_networking_applicat.Ids.{ElementId, id_key, root_id}
use crdt_networking_applicat.Operation.{InsertOperation}
use crdt_networking_applicat.Document.{Document, list_at}
use crdt_networking_applicat.Document.Invariant.{Has}
use crdt_networking_applicat.Document.History.{Holds}
use crdt_networking_applicat.Document.Visit.Fold.{
  is_visible, itself, flat, visible_from, visible, child_ranks,
}

pub mem-append : {A : Type 0} (x : A) (xs ys : List A) → In x (xs ++ ys) ↔ (In x xs ⊎ In x ys)
mem-append x [] ys = (inr, elim [ inl m ↦ absurd m | inr m ↦ m ])
mem-append x (y ∷ xs) ys = let ih = mem-append x xs ys in (ground (arith, ih), ground (arith, ih))

-- What stands in a flattened list stands in the part of some node.
pub mem-flat :
    (y : ElementId) (f : ElementId → List ElementId) (xs : List ElementId)
    → In y (flat f xs) ↔ ((x : ElementId) × In x xs × In y (f x))
unfolding flat
mem-flat y f [] = ((λ m. absurd m), (λ m. absurd m.1))
mem-flat y f (x ∷ xs) =
    let ih = mem-flat y f xs in
    let split = mem-append y (f x) (flat f xs) in
    (
      λ m. elim (split.0 m) [
        | inl here ↦ (x, inl refl, here)
        | inr there ↦ let (z, p, q) = ih.0 there in (z, inr p, q)
      ],
      λ m. elim m.1 [
        | inl e ↦ split.1 (inl (subst (λ w. In y (f w)) e m.2))
        | inr p ↦ split.1 (inr (ih.1 (m.0, p, m.2)))
      ],
    )

mem-itself :
    (d : Document) (x y : ElementId) → In y (itself d x) → (y ≡ x) × (is_visible d x ≡ true)
mem-itself d x y m = elim (Bool-cases (is_visible d x)) [
  | inl e ↦ (elim (rw e at m) [ inl q ↦ q | inr q ↦ absurd q ], e)
  | inr e ↦ absurd (rw e at m)
]

pub flat_congr :
    (f g : ElementId → List ElementId) (xs : List ElementId)
    → ((x : ElementId) → In x xs → f x ≡ g x)
    → flat f xs ≡ flat g xs
unfolding flat
flat_congr f g [] h = refl
flat_congr f g (x ∷ xs) h = rw (h x (inl refl), flat_congr f g xs (λ y m. h y (inr m)))

module _ {T : InsertOperation → Type 0} {R : ElementId → Type 0} {d : Document}
    (v : Holds T R d) where
  -- More fuel than the depth changes nothing.
  pub visible_from-fuel :
      (k k' : ℕ) (x : ElementId)
      → Has d x
      → length d.elements ≤ k + v.rank x
      → length d.elements ≤ k' + v.rank x
      → visible_from k d x ≡ visible_from k' d x
  unfolding visible_from
  visible_from-fuel zero k' x h e e' = absurd (omega (arith, v.rank_lt x h))
  visible_from-fuel (suc k) zero x h e e' = absurd (omega (arith, v.rank_lt x h))
  visible_from-fuel (suc k) (suc k') x h e e' =
      ap (λ l. itself d x ++ l)
        (flat_congr (visible_from k d) (visible_from k' d) (list_at (lookup x d.children)) λ y m.
          let (there, below, _) = child_ranks v x y m in
          visible_from-fuel k k' y there (omega arith) (omega arith))

  pub unfold_once :
      (x : ElementId)
      → Has d x
      → visible_from (length d.elements) d x
        ≡ itself d x ++ flat (visible_from (length d.elements) d) (list_at (lookup x d.children))
  unfold_once x h =
      visible_from-fuel (length d.elements) (suc (length d.elements)) x h (omega arith)
        (omega arith)
      ∙ unfold visible_from in refl

  -- Each element's subtree is walked as a part of the whole walk.
  subtree_walked :
      (n : ℕ) (x y : ElementId)
      → v.rank x < n
      → Has d x
      → In y (visible_from (length d.elements) d x)
      → In y (visible d)
  unfolding visible
  subtree_walked zero x y b h m = absurd (omega arith)
  subtree_walked (suc n) x y b h m = elim (same_key x root_id) [
    | yes e ↦ subst (λ z. In y (visible_from (length d.elements) d z)) e m
    | no ne ↦
        let (c, e) = lookup_of_contains x d.elements h in
        let from = v.origin x c e ne in
        let p = from.oper.parent in
        let kid = (v.kin p x).1 (from.parent_eq, ne) in
        let all = visible_from (length d.elements) d in
        let within = (mem-flat y all (list_at (lookup p d.children))).1 (x, kid, m) in
        let inside =
          (mem-append y (itself d p) (flat all (list_at (lookup p d.children)))).1 (inr within) in
        subtree_walked n p y (omega (arith, from.after_parent)) from.parent_there
          (rw (unfold_once p from.parent_there) inside)
  ]

  visible_sound : (k : ℕ) (x y : ElementId) → In y (visible_from k d x) → is_visible d y ≡ true
  unfolding visible_from
  visible_sound zero x y m = absurd m
  visible_sound (suc k) x y m =
      let kids = list_at (lookup x d.children) in
      elim ((mem-append y (itself d x) (flat (visible_from k d) kids)).0 m) [
        | inl here ↦ let (e, s) = mem-itself d x y here in rw e s
        | inr there ↦
            let (z, _, q) = (mem-flat y (visible_from k d) kids).0 there in visible_sound k z y q
      ]

  pub is_visible-Has : (x : ElementId) → is_visible d x ≡ true → Has d x
  unfolding is_visible
  is_visible-Has x s = elim (Bool-cases (contains x d.elements)) [
    | inl h ↦ h
    | inr l ↦ elim (same_key x root_id) [
      | yes e ↦ cc (sym (if_pos (same_key x root_id) e _ _) ∙ s)
      | no n ↦ cc (rw (if_neg (same_key x root_id) n, none_of_contains x d.elements l) at s)
    ]
  ]

  -- In a document that some history of operations leaves, the walk meets exactly the elements that
  -- are there, have no tombstone and are not the root.
  pub mem-visible : (x : ElementId) → In x (visible d) ↔ (is_visible d x ≡ true)
  unfolding visible
  mem-visible x = (
    visible_sound (length d.elements) root_id x,
    λ s.
        let h = is_visible-Has x s in
        let mine : In x (itself d x) = rw s (inl refl) in
        subtree_walked (suc (v.rank x)) x x (omega arith) h
          (rw (unfold_once x h) ((mem-append x (itself d x) _).1 (inl mine))),
  )
