-- ===== src/Document/Visit/Once.antt =====
-- No element is met twice: the subtrees of two siblings share nothing.
use crdt_networking_applicat.Prelude.{
  ℕ, zero, suc, ◌≤◌, ◌<◌, ◌≡◌, refl, sym, ap, subst, ◌∙◌, ◌≢◌, ◌⊎◌, inl, inr, some, some-injective,
  List, [], ◌∷◌, ◌++◌, In, arith, Bool-cases, length,
}
use crdt_networking_applicat.Prelude.Maps.{lookup}
use crdt_networking_applicat.Ids.{ElementId, id_key, root_id}
use crdt_networking_applicat.Operation.{InsertOperation}
use crdt_networking_applicat.Document.{Document, list_at}
use crdt_networking_applicat.Document.Siblings.{Distinct, IsDescending-Distinct}
use crdt_networking_applicat.Document.History.{Holds}
use crdt_networking_applicat.Document.Visit.Fold.{is_visible, flat, visible, child_ranks}
use crdt_networking_applicat.Document.Visit.Members.{mem-append, mem-flat}
use crdt_networking_applicat.Document.Visit.Everyone.{everyone_from, everyone, shown, visible-shown}

-- `a` is `y` or stands above it.
data Above (d : Document) (a : ElementId) : ElementId → Type 0 where
  self : Above d a a
  up : {p y : ElementId} → Above d a p → lookup y d.parent_of ≡ some p → y ≢ root_id → Above d a y

Distinct-append :
    (xs ys : List ElementId)
    → Distinct xs
    → Distinct ys
    → ((x : ElementId) → In x xs → ¬ In x ys)
    → Distinct (xs ++ ys)
Distinct-append [] ys p q apart = q
Distinct-append (x ∷ xs) ys p q apart = (
  λ m. elim ((mem-append x xs ys).0 m) [ inl a ↦ p.0 a | inr b ↦ apart x (inl refl) b ],
  Distinct-append xs ys p.1 q (λ y m. apart y (inr m)),
)

shown-In : (d : Document) (x : ElementId) (xs : List ElementId) → In x (shown d xs) → In x xs
unfolding shown
shown-In d x [] m = m
shown-In d x (y ∷ ys) m = elim (Bool-cases (is_visible d y)) [
  | inl e ↦ elim (rw e at m) [ inl q ↦ inl q | inr n ↦ inr (shown-In d x ys n) ]
  | inr e ↦ inr (shown-In d x ys (rw e at m))
]

pub shown-Distinct : (d : Document) (xs : List ElementId) → Distinct xs → Distinct (shown d xs)
unfolding shown
shown-Distinct d [] p = tt
shown-Distinct d (x ∷ xs) p = elim (Bool-cases (is_visible d x)) [
  | inl e ↦ rw e ((λ m. p.0 (shown-In d x xs m)), shown-Distinct d xs p.1)
  | inr e ↦ rw e (shown-Distinct d xs p.1)
]

Distinct-flat :
    (f : ElementId → List ElementId) (xs : List ElementId)
    → Distinct xs
    → ((x : ElementId) → In x xs → Distinct (f x))
    → ((x z y : ElementId) → In x xs → In z xs → In y (f x) → In y (f z) → x ≡ z)
    → Distinct (flat f xs)
unfolding flat
Distinct-flat f [] p each apart = tt
Distinct-flat f (x ∷ xs) p each apart =
    Distinct-append (f x) (flat f xs) (each x (inl refl))
      (Distinct-flat f xs p.1 (λ y m. each y (inr m)) (λ a b y m n. apart a b y (inr m) (inr n)))
      (λ y m n.
        let (z, q, r) = (mem-flat y f xs).0 n in
        p.0 (subst (λ w. In w xs) (sym (apart x z y (inl refl) (inr q) m r)) q))

module _ {T : InsertOperation → Type 0} {R : ElementId → Type 0} {d : Document}
    (v : Holds T R d) where
  parent_below :
      (p y : ElementId) → lookup y d.parent_of ≡ some p → y ≢ root_id → v.rank p < v.rank y
  parent_below p y e n = (child_ranks v p y ((v.kin p y).1 (e, n))).1

  Above-rank : (a y : ElementId) → Above d a y → v.rank a ≤ v.rank y
  Above-rank a _ self = omega arith
  Above-rank a _ (up {p = p} {y = y} u e n) = omega (arith, Above-rank a p u, parent_below p y e n)

  -- Those above one element stand above one another.
  Above-linear : (a b y : ElementId) → Above d a y → Above d b y → Above d a b ⊎ Above d b a
  Above-linear a b _ self w = inr w
  Above-linear a b _ (up {p = p} u e n) w = linear_step a b _ p u e n w (Above-linear a b p u)
    where
      linear_step :
          (a b y p : ElementId)
          → Above d a p
          → lookup y d.parent_of ≡ some p
          → y ≢ root_id
          → Above d b y
          → (Above d b p → Above d a b ⊎ Above d b a)
          → Above d a b ⊎ Above d b a
      linear_step a b _ p u e n self rest = inl (up u e n)
      linear_step a b y p u e n (up {p = q} w e' n') rest =
          rest (subst (Above d b) (some-injective q p (sym e' ∙ e)) w)

  subtree-Above : (k : ℕ) (x y : ElementId) → In y (everyone_from k d x) → Above d x y
  unfolding everyone_from
  subtree-Above zero x y m = absurd m
  subtree-Above (suc k) x y (inl e) = subst (Above d x) (sym e) self
  subtree-Above (suc k) x y (inr there) =
      let (z, i, q) = (mem-flat y (everyone_from k d) (list_at (lookup x d.children))).0 there in
      let (e, n) = (v.kin x z).0 i in above_child x z y e n (subtree-Above k z y q)
    where
      above_child :
          (x z y : ElementId)
          → lookup z d.parent_of ≡ some x
          → z ≢ root_id
          → Above d z y
          → Above d x y
      above_child x z _ e n self = up self e n
      above_child x z _ e n (up {p = p} u q r) = up (above_child x z p e n u) q r

  -- Two siblings above one element are one.
  siblings_apart :
      (p x z y : ElementId)
      → In x (list_at (lookup p d.children))
      → In z (list_at (lookup p d.children))
      → Above d x y
      → Above d z y
      → x ≡ z
  siblings_apart p x z y m n a b = elim (Above-linear x z y a b) [
    | inl u ↦ sibling_above x z m n u
    | inr u ↦ sym (sibling_above z x n m u)
  ]
    where
      sibling_above :
          (x z : ElementId)
          → In x (list_at (lookup p d.children))
          → In z (list_at (lookup p d.children))
          → Above d x z
          → x ≡ z
      sibling_above x _ m n self = refl
      sibling_above x z m n (up {p = q} u e r) =
          let same : q ≡ p = some-injective q p (sym e ∙ ((v.kin p z).0 n).0) in
          absurd (omega (arith, Above-rank x q u, (child_ranks v p x m).1, ap v.rank same))

  subtree-Distinct : (k : ℕ) (x : ElementId) → Distinct (everyone_from k d x)
  unfolding everyone_from
  subtree-Distinct zero x = tt
  subtree-Distinct (suc k) x =
      let kids = list_at (lookup x d.children) in
      (
        λ m.
            let (z, i, q) = (mem-flat x (everyone_from k d) kids).0 m in
            omega (arith, Above-rank z x (subtree-Above k z x q), (child_ranks v x z i).1),
        Distinct-flat (everyone_from k d) kids (IsDescending-Distinct kids (v.descending x))
            (λ y m. subtree-Distinct k y)
            (λ a b y m n p q.
              siblings_apart x a b y m n (subtree-Above k a y p) (subtree-Above k b y q)),
      )

  -- No element stands twice in the tree.
  pub everyone-Distinct : Distinct (everyone d)
  everyone-Distinct = subtree-Distinct (length d.elements) root_id

  -- In a document that some history of operations leaves, the walk meets no element twice.
  pub visible-Distinct : Distinct (visible d)
  visible-Distinct =
      subst Distinct (sym (visible-shown d)) (shown-Distinct d (everyone d) everyone-Distinct)
