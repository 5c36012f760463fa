-- ===== src/Document/Visit/Everyone.antt =====
-- All elements of the tree, the tombstones with them, in the order in which the walk goes through
-- the tree. What the walk visits is what it keeps of them.
use crdt_networking_applicat.Prelude.{
  ℕ, zero, suc, ◌+◌, ◌≤◌, ◌≡◌, refl, sym, ap, ap₂, ◌∙◌, inl, inr, List, [], ◌∷◌, ◌++◌, arith,
  Bool-cases, length, if◌then◌else◌,
}
use crdt_networking_applicat.Prelude.Maps.{lookup}
use crdt_networking_applicat.Ids.{ElementId, id_key, root_id}
use crdt_networking_applicat.Operation.{InsertOperation}
use crdt_networking_applicat.Document.{Document, list_at}
use crdt_networking_applicat.Document.Invariant.{Has}
use crdt_networking_applicat.Document.History.{Holds}
use crdt_networking_applicat.Document.Visit.Fold.{
  is_visible, flat, visible_from, visible, child_ranks,
}
use crdt_networking_applicat.Document.Visit.Members.{flat_congr}

unfoldable pub everyone_from : ℕ → Document → ElementId → List ElementId
everyone_from zero d x = []
everyone_from (suc k) d x = x ∷ flat (everyone_from k d) (list_at (lookup x d.children))

-- the subtree of an element, and the whole tree
abbrev pub subtree : Document → ElementId → List ElementId
subtree d = everyone_from (length d.elements) d

abbrev pub everyone : Document → List ElementId
everyone d = subtree d root_id

-- the visible ones of some elements
unfoldable pub shown : Document → List ElementId → List ElementId
shown d [] = []
shown d (x ∷ xs) = let rest = shown d xs in if is_visible d x then x ∷ rest else rest

pub shown-append :
    (d : Document) (xs ys : List ElementId) → shown d (xs ++ ys) ≡ shown d xs ++ shown d ys
unfolding shown
shown-append d [] ys = refl
shown-append d (x ∷ xs) ys = elim (Bool-cases (is_visible d x)) [
  | inl e ↦ rw e (ap (λ l. x ∷ l) (shown-append d xs ys))
  | inr e ↦ rw e (shown-append d xs ys)
]

shown-flat :
    (d : Document) (f g : ElementId → List ElementId) (xs : List ElementId)
    → ((x : ElementId) → g x ≡ shown d (f x))
    → flat g xs ≡ shown d (flat f xs)
unfolding flat shown
shown-flat d f g [] h = refl
shown-flat d f g (x ∷ xs) h =
    ap₂ (λ l m. l ++ m) (h x) (shown-flat d f g xs h) ∙ sym (shown-append d (f x) (flat f xs))

visible_from-shown :
    (k : ℕ) (d : Document) (x : ElementId) → visible_from k d x ≡ shown d (everyone_from k d x)
unfolding visible_from everyone_from shown
visible_from-shown zero d x = refl
visible_from-shown (suc k) d x =
    let kids = list_at (lookup x d.children) in
    let below = shown-flat d (everyone_from k d) (visible_from k d) kids (visible_from-shown k d) in
    elim (Bool-cases (is_visible d x)) [ inl e ↦ rw e (ap (λ l. x ∷ l) below) | inr e ↦ rw e below ]

pub visible-shown : (d : Document) → visible d ≡ shown d (everyone d)
unfolding visible
visible-shown d = visible_from-shown (length d.elements) d root_id

module _ {T : InsertOperation → Type 0} {R : ElementId → Type 0} {d : Document}
    (v : Holds T R d) where
  -- More fuel than the depth changes nothing.
  pub everyone_from-fuel :
      (k k' : ℕ) (x : ElementId)
      → Has d x
      → length d.elements ≤ k + v.rank x
      → length d.elements ≤ k' + v.rank x
      → everyone_from k d x ≡ everyone_from k' d x
  unfolding everyone_from
  everyone_from-fuel zero k' x h e e' = absurd (omega (arith, v.rank_lt x h))
  everyone_from-fuel (suc k) zero x h e e' = absurd (omega (arith, v.rank_lt x h))
  everyone_from-fuel (suc k) (suc k') x h e e' =
      ap (λ l. x ∷ l)
        (flat_congr (everyone_from k d) (everyone_from k' d) (list_at (lookup x d.children)) λ y m.
          let (there, below, _) = child_ranks v x y m in
          everyone_from-fuel k k' y there (omega arith) (omega arith))

  pub subtree-unfold :
      (x : ElementId) → Has d x → subtree d x ≡ x ∷ flat (subtree d) (list_at (lookup x d.children))
  subtree-unfold x h =
      everyone_from-fuel (length d.elements) (suc (length d.elements)) x h (omega arith)
        (omega arith)
      ∙ unfold everyone_from in refl
