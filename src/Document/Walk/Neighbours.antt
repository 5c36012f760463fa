-- ===== src/Document/Walk/Neighbours.antt =====
-- crdt_editor/src/document.cpp: successor and predecessor at any place of the list of all elements
-- in the order of the walk, in which every element of the document stands once.
use crdt_networking_applicat.Prelude.{
  ℕ, zero, suc, ◌<◌, ◌≤◌, ◌≡◌, ◌≢◌, refl, sym, ap, subst, ◌∙◌, inl, inr, true, some, List, [], ◌∷◌,
  ◌++◌, In, length, arith,
}
use mathlib.Core.List.{append_assoc}
use crdt_networking_applicat.Prelude.Maps.{
  Map, lookup, contains, erase, contains_of_lookup, contains-erase_ne,
}
use crdt_networking_applicat.Ids.{ElementId, id_key, root_id}
use crdt_networking_applicat.Operation.{InsertOperation}
use crdt_networking_applicat.Outcome.{ok}
use crdt_networking_applicat.Document.{Document, list_at}
use crdt_networking_applicat.Document.Siblings.{Distinct}
use crdt_networking_applicat.Document.Invariant.{Has}
use crdt_networking_applicat.Document.History.{Holds}
use crdt_networking_applicat.Document.Visit.Fold.{flat, child_ranks}
use crdt_networking_applicat.Document.Visit.Members.{mem-append, mem-flat}
use crdt_networking_applicat.Document.Visit.Everyone.{
  everyone_from, subtree, everyone, subtree-unfold,
}
use crdt_networking_applicat.Document.Visit.Once.{everyone-Distinct}
use crdt_networking_applicat.Document.Walk.{head_of, last_of, successor, predecessor}
use crdt_networking_applicat.Document.Walk.Total.{children_of}
use crdt_networking_applicat.Document.Walk.Order.{Located, located}

pub here_between : (x : ElementId) (us ws : List ElementId) → In x (us ++ x ∷ ws)
here_between x us ws = (mem-append x us (x ∷ ws)).1 (inr (inl refl))

-- One element in the middle of a list where none stands twice.
pub split-Distinct :
    (x : ElementId) (us ws : List ElementId)
    → Distinct (us ++ x ∷ ws)
    → (¬ In x us) × (¬ In x ws) × Distinct ws
split-Distinct x [] ws p = ((λ m. m), p.0, p.1)
split-Distinct x (u ∷ us) ws p =
    let (a, b, c) = split-Distinct x us ws p.1 in
    (
      elim [
        | inl e ↦
            p.0 (subst (λ z. In z (us ++ x ∷ ws)) e ((mem-append x us (x ∷ ws)).1 (inr (inl refl))))
        | inr m ↦ a m
      ],
      b,
      c,
    )

-- Where no element stands twice, an element splits the list in one way.
pub split_unique :
    (x : ElementId) (us ws us' ws' : List ElementId)
    → Distinct (us ++ x ∷ ws)
    → us ++ x ∷ ws ≡ us' ++ x ∷ ws'
    → (us ≡ us') × (ws ≡ ws')
split_unique x [] ws [] ws' p e = (refl, cc)
split_unique x [] ws (a ∷ us') ws' p e =
    let q : ws ≡ us' ++ x ∷ ws' = cc in absurd (p.0 (subst (In x) (sym q) (here_between x us' ws')))
split_unique x (a ∷ us) ws [] ws' p e =
    let q : x ≡ a = cc in absurd (p.0 (subst (λ y. In y (us ++ x ∷ ws)) q (here_between x us ws)))
split_unique x (a ∷ us) ws (c ∷ us') ws' p e =
    let (q, r) = split_unique x us ws us' ws' p.1 cc in (cc, r)

pub In-split :
    (y : ElementId) (xs : List ElementId) → In y xs → (ks ls : List ElementId) × (xs ≡ ks ++ y ∷ ls)
In-split y [] m = absurd m
In-split y (x ∷ xs) (inl e) = ([], xs, ap (λ z. z ∷ xs) (sym e))
In-split y (x ∷ xs) (inr m) = let (ks, ls, e) = In-split y xs m in (x ∷ ks, ls, ap (λ l. x ∷ l) e)

module _ {V : Type 0} where
  length-erase : (k : ElementId) (m : Map ElementId V) → length (erase k m) ≤ length m
  unfolding erase
  length-erase k [] = omega arith
  length-erase k ((j, w) ∷ m) = ground (arith, length-erase k m)

  erase_shorter :
      (k : ElementId) (m : Map ElementId V) → contains k m ≡ true → length (erase k m) < length m
  unfolding erase contains lookup
  erase_shorter k [] h = cc
  erase_shorter k ((j, w) ∷ m) h = ground (arith, length-erase k m, erase_shorter k m)

  -- Different keys of a map are no more than its entries.
  keys_fit :
      (xs : List ElementId) (m : Map ElementId V)
      → Distinct xs
      → ((x : ElementId) → In x xs → contains x m ≡ true)
      → length xs ≤ length m
  keys_fit [] m p h = omega arith
  keys_fit (x ∷ xs) m p h =
      let rest = keys_fit xs (erase x m) p.1 (λ y n.
        contains-erase_ne x y m (λ e. p.0 (subst (λ z. In z xs) (sym e) n)) ∙ h y (inr n)) in
      omega (arith, rest, erase_shorter x m (h x (inl refl)))

module _ {T : InsertOperation → Type 0} {R : ElementId → Type 0} {d : Document}
    (v : Holds T R d) where
  subtree-Has : (k : ℕ) (x y : ElementId) → Has d x → In y (everyone_from k d x) → Has d y
  unfolding everyone_from
  subtree-Has zero x y h m = absurd m
  subtree-Has (suc k) x y h (inl e) = subst (Has d) (sym e) h
  subtree-Has (suc k) x y h (inr m) =
      let (z, i, n) = (mem-flat y (everyone_from k d) (list_at (lookup x d.children))).0 m in
      subtree-Has k z y (child_ranks v x z i).0 n

  pub root-Has : Has d root_id
  root-Has = contains_of_lookup root_id d.elements v.root_element.1

  pub everyone-Has : (y : ElementId) → In y (everyone d) → Has d y
  everyone-Has y m = subtree-Has (length d.elements) root_id y root-Has m

  pub everyone_fits : length (everyone d) ≤ length d.elements
  everyone_fits = keys_fit (everyone d) d.elements (everyone-Distinct v) everyone-Has

  -- The place of an element in the order of the walk.
  pub everyone-split :
      (x : ElementId) → Has d x → (us ws : List ElementId) × (everyone d ≡ us ++ x ∷ ws)
  everyone-split x h =
      let at = located v (suc (v.rank x)) x h (omega arith) in
      (
        at.before,
        flat (subtree d) (list_at (lookup x d.children)) ++ at.after,
        at.whole
            ∙ ap (λ l. at.before ++ l ++ at.after) (subtree-unfold v x h)
            ∙ append_assoc at.before _ at.after,
      )

  -- successor is the element behind, and none behind the last.
  pub successor-head :
      (x : ElementId) (us ws : List ElementId)
      → everyone d ≡ us ++ x ∷ ws
      → successor d x ≡ ok (head_of ws)
  unfolding successor flat
  successor-head x us ws e =
      let h = everyone-Has x (subst (In x) (sym e) (here_between x us ws)) in
      let at = located v (suc (v.rank x)) x h (omega arith) in
      let (kids, k) = children_of v x h in
      let here : everyone d ≡ at.before ++ x ∷ (flat (subtree d) kids ++ at.after) =
        at.whole
        ∙ ap (λ l. at.before ++ l ++ at.after)
            (subtree-unfold v x h ∙ ap (λ o. x ∷ flat (subtree d) (list_at o)) k)
        ∙ append_assoc at.before (x ∷ flat (subtree d) kids) at.after in
      let (_, same) =
        split_unique x us ws at.before _ (subst Distinct e (everyone-Distinct v)) (sym e ∙ here) in
      with_kids h at kids k ∙ ap (λ l. ok (head_of l)) (sym same)
    where
      with_kids :
          (h : Has d x) (at : Located v x) (kids : List ElementId)
          → lookup x d.children ≡ some kids
          → successor d x ≡ ok (head_of (flat (subtree d) kids ++ at.after))
      with_kids h at [] k =
          rw (successor, k) (at.ahead (suc (length d.elements)) (omega (arith, v.rank_lt x h)))
      with_kids h at (y ∷ ys) k =
          let (there, _, _) =
            child_ranks v x y (subst (λ o. In y (list_at o)) (sym k) (inl refl)) in
          rw (successor, k, subtree-unfold v y there)

  -- predecessor is the element in front.
  pub predecessor-last :
      (x : ElementId) (us ws : List ElementId)
      → x ≢ root_id
      → everyone d ≡ us ++ x ∷ ws
      → predecessor d x ≡ ok (last_of root_id us)
  predecessor-last x us ws n e =
      let h = everyone-Has x (subst (In x) (sym e) (here_between x us ws)) in
      let at = located v (suc (v.rank x)) x h (omega arith) in
      let here : everyone d
          ≡ at.before ++ x ∷ (flat (subtree d) (list_at (lookup x d.children)) ++ at.after) =
        at.whole
        ∙ ap (λ l. at.before ++ l ++ at.after) (subtree-unfold v x h)
        ∙ append_assoc at.before _ at.after in
      let (same, _) =
        split_unique x us ws at.before _ (subst Distinct e (everyone-Distinct v)) (sym e ∙ here) in
      at.behind n ∙ ap (λ l. ok (last_of root_id l)) (sym same)

  -- The root is the first of all, and the only one of them that is the root.
  pub everyone_root : (us : List ElementId) × (everyone d ≡ root_id ∷ us)
  everyone_root =
      (flat (subtree d) (list_at (lookup root_id d.children)), subtree-unfold v root_id root-Has)

  pub after_root :
      (us ws : List ElementId) (x y : ElementId) → everyone d ≡ us ++ x ∷ ws → In y ws → y ≢ root_id
  after_root us ws x y e m q =
      let (first, f) = everyone_root in
      let (ks, ls, k) = In-split y ws m in
      let (none_before, _) =
        split_unique root_id [] first (us ++ x ∷ ks) ls (subst Distinct f (everyone-Distinct v)) (
          sym f
          ∙ e
          ∙ ap (λ l. us ++ x ∷ l) (k ∙ ap (λ z. ks ++ z ∷ ls) q)
          ∙ sym (append_assoc us (x ∷ ks) (root_id ∷ ls))) in
      never us ks none_before
    where
      never : (us ks : List ElementId) → [] ≡ us ++ x ∷ ks → ⊥
      never [] ks e = cc
      never (u ∷ us) ks e = cc
