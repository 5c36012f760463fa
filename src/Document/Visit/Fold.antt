-- ===== src/Document/Visit/Fold.antt =====
-- With fuel for the depth of the tree, the walk is a fold over the list of the visible elements,
-- and it throws only what the visitor throws.
use crdt_networking_applicat.Prelude.{
  ℕ, zero, suc, ◌+◌, ◌≤◌, ◌<◌, ◌≡◌, refl, sym, ap, subst, fun_ext, ◌∙◌, ◌≢◌, inl, inr, Bool, true,
  false, none, some, some-injective, List, [], ◌∷◌, ◌++◌, In, arith, Bool-cases, if_pos, if_neg,
  ite, if◌then◌else◌, length,
}
use crdt_networking_applicat.Prelude.Maps.{lookup, lookup_of_contains, contains_of_lookup, same_key}
use crdt_networking_applicat.Ids.{ElementId, id_key, root_id}
use crdt_networking_applicat.Operation.{Character, InsertOperation}
use crdt_networking_applicat.Outcome.{Result, ok, err, ◌>>=◌}
use crdt_networking_applicat.Document.{Document, list_at}
use crdt_networking_applicat.Document.Invariant.{Has}
use crdt_networking_applicat.Document.History.{Holds}
use crdt_networking_applicat.Document.Visit.{
  element_at, visit_each, visit_node, visit_visible, visit_document,
}

-- An element that the visitor is called for.
unfoldable pub is_visible : Document → ElementId → Bool
is_visible d x =
    ite (same_key x root_id) false
      (elim (lookup x d.elements) [ none ↦ false | some c ↦ if c.deleted then false else true ])

abbrev pub itself : Document → ElementId → List ElementId
itself d x = if is_visible d x then x ∷ [] else []

unfoldable pub flat : (ElementId → List ElementId) → List ElementId → List ElementId
flat f [] = []
flat f (x ∷ xs) = f x ++ flat f xs

-- The visible elements of a subtree in the order of the walk.
unfoldable pub visible_from : ℕ → Document → ElementId → List ElementId
visible_from zero d node = []
visible_from (suc fuel) d node =
    itself d node ++ flat (visible_from fuel d) (list_at (lookup node d.children))

-- The visible elements of the document.
unfoldable pub visible : Document → List ElementId
visible d = visible_from (length d.elements) d root_id

pub element_at-ok :
    (d : Document) (x : ElementId) (c : Character)
    → lookup x d.elements ≡ some c
    → element_at d x ≡ ok c
unfolding element_at
element_at-ok d x c h = rw (h, element_at)

module _ {ℓ} {A : Type ℓ} where
  -- The visitor on each element of a list.
  abbrev pub fold_each : (ElementId → A → Result A) → List ElementId → A → Result A
  fold_each f [] a = ok a
  fold_each f (x ∷ xs) a = f x a >>= fold_each f xs

  bind_assoc : (m : Result A) (f g : A → Result A) → (m >>= f >>= g) ≡ (m >>= λ a. f a >>= g)
  bind_assoc (ok a) f g = refl
  bind_assoc (err e) f g = refl

  bind_ok : (m : Result A) → (m >>= ok) ≡ m
  bind_ok (ok a) = refl
  bind_ok (err e) = refl

  pub fold_each-append :
      (f : ElementId → A → Result A) (xs ys : List ElementId) (a : A)
      → fold_each f (xs ++ ys) a ≡ (fold_each f xs a >>= fold_each f ys)
  fold_each-append f [] ys a = refl
  fold_each-append f (x ∷ xs) ys a =
      ap (λ k. f x a >>= k) (fun_ext λ b. fold_each-append f xs ys b)
      ∙ sym (bind_assoc (f x a) (fold_each f xs) (fold_each f ys))

  -- The walk of the children, where the walk of each is a fold.
  visit_each-flat :
      (visitor : ElementId → A → Result A) (walk : ElementId → A → Result A)
      (order : ElementId → List ElementId) (xs : List ElementId)
      → ((x : ElementId) → In x xs → (a : A) → walk x a ≡ fold_each visitor (order x) a)
      → (a : A) → visit_each walk xs a ≡ fold_each visitor (flat order xs) a
  unfolding visit_each flat
  visit_each-flat visitor walk order [] h a = refl
  visit_each-flat visitor walk order (x ∷ xs) h a = rw (h x (inl refl) a) (
      ap (λ k. fold_each visitor (order x) a >>= k)
        (fun_ext λ b. visit_each-flat visitor walk order xs (λ y m. h y (inr m)) b)
      ∙ sym (fold_each-append visitor (order x) (flat order xs) a))

module _ {T : InsertOperation → Type 0} {R : ElementId → Type 0} {d : Document}
    (v : Holds T R d) where
  -- A child is there, and ranks above its parent.
  pub child_ranks :
      (p x : ElementId)
      → In x (list_at (lookup p d.children))
      → Has d x × (v.rank p < v.rank x) × (x ≢ root_id)
  child_ranks p x m =
      let (e, n) = (v.kin p x).0 m in
      let h = sym (v.parent_keys x) ∙ contains_of_lookup x d.parent_of e in
      let (c, q) = lookup_of_contains x d.elements h in
      let from = v.origin x c q n in
      let same : from.oper.parent ≡ p =
        some-injective from.oper.parent p (sym from.parent_eq ∙ e) in
      (h, subst (λ y. v.rank y < v.rank x) same from.after_parent, n)

  module _ {ℓ} {A : Type ℓ} (visitor : ElementId → A → Result A) where
    visit_node-fold :
        (x : ElementId)
        → Has d x
        → (a : A) → visit_node d visitor x a ≡ fold_each visitor (itself d x) a
    unfolding visit_node is_visible
    visit_node-fold x h a = elim (same_key x root_id) [
      | yes e ↦ rw (if_pos _ e, if_pos _ e)
      | no n ↦
          let (c, q) = lookup_of_contains x d.elements h in
          rw (if_neg _ n, if_neg _ n, q, element_at-ok d x c q)
            (elim (Bool-cases c.deleted) [
              | inl gone ↦ rw gone
              | inr here ↦ rw here (sym (bind_ok (visitor x a)))
            ])
    ]

    pub visit_visible-fold :
        (fuel : ℕ) (x : ElementId)
        → Has d x
        → length d.elements ≤ fuel + v.rank x
        → (a : A) → visit_visible fuel d visitor x a ≡ fold_each visitor (visible_from fuel d x) a
    unfolding visit_visible visible_from
    visit_visible-fold zero x h enough a = absurd (omega (arith, v.rank_lt x h))
    visit_visible-fold (suc fuel) x h enough a =
        let kids = list_at (lookup x d.children) in
        rw (visit_node-fold x h a) (
          ap (λ k. fold_each visitor (itself d x) a >>= k)
            (fun_ext (
              visit_each-flat visitor (visit_visible fuel d visitor) (visible_from fuel d) kids
                (λ y m.
                  let (there, below, _) = child_ranks x y m in
                  visit_visible-fold fuel y there (omega arith))))
          ∙ sym (fold_each-append visitor (itself d x) (flat (visible_from fuel d) kids) a))

    -- In a document that some history of operations leaves, the walk never runs out of fuel: the
    -- visitor is called on the visible elements one after the other.
    pub visit_document-fold : (a : A) → visit_document d visitor a ≡ fold_each visitor (visible d) a
    unfolding visit_document visible
    visit_document-fold =
        visit_visible-fold (length d.elements) root_id
          (contains_of_lookup root_id d.elements v.root_element.1) (omega arith)
