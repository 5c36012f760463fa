-- ===== src/Document/Walk/Order.antt =====
-- crdt_editor/src/document.cpp: successor and predecessor against the list of all elements in the
-- order of the walk. Each splits that list at an element and finds its neighbour there.
use crdt_networking_applicat.Prelude.{
  ℕ, zero, suc, ◌+◌, ◌<◌, ◌≤◌, ◌≡◌, ◌≢◌, refl, sym, ap, ◌∙◌, inl, inr, Option, none, some, List, [],
  ◌∷◌, ◌++◌, In, length, arith, if_pos, if_neg,
}
use mathlib.Core.List.{append_assoc, append-nil}
use crdt_networking_applicat.Prelude.Maps.{lookup, same_key}
use crdt_networking_applicat.Ids.{ElementId, id_key, root_id}
use crdt_networking_applicat.Operation.{InsertOperation}
use crdt_networking_applicat.Outcome.{ok, err, not_among_siblings}
use crdt_networking_applicat.Document.{Document, list_at}
use crdt_networking_applicat.Document.Invariant.{Has}
use crdt_networking_applicat.Document.History.{Holds}
use crdt_networking_applicat.Document.Visit.Fold.{flat}
use crdt_networking_applicat.Document.Visit.Members.{mem-append}
use crdt_networking_applicat.Document.Visit.Everyone.{subtree, everyone, subtree-unfold}
use crdt_networking_applicat.Document.Walk.{
  head_of, next_sibling, climb, sibling_before, last_of, descend, predecessor,
}
use crdt_networking_applicat.Document.Walk.Total.{
  children_at-ok, parent_at-ok, family, children_of, child_ranks-of, last_of-In,
}

abbrev last_or : Option ElementId → List ElementId → Option ElementId
last_or b [] = b
last_or b (k ∷ ks) = last_or (some k) ks

-- The siblings of an element on both sides of it.
siblings_split :
    (x : ElementId) (xs : List ElementId)
    → In x xs
    → (ks ls : List ElementId) × (xs ≡ ks ++ x ∷ ls)
      × (next_sibling x xs ≡ head_of ls)
      × ((b : Option ElementId) → sibling_before x b xs ≡ some (last_or b ks))
unfolding next_sibling sibling_before
siblings_split x [] m = absurd m
siblings_split x (y ∷ ys) m = elim (same_key y x) [
  | yes q ↦
      ([], ys, ap (λ z. z ∷ ys) q, if_pos (same_key y x) q _ _, λ b. if_pos (same_key y x) q _ _)
  | no n ↦
      let (ks, ls, e, after, before) =
        siblings_split x ys (elim m [ inl q ↦ absurd (n (sym q)) | inr k ↦ k ]) in
      (
        y ∷ ks,
        ls,
        ap (λ l. y ∷ l) e,
        if_neg (same_key y x) n _ _ ∙ after,
        λ b. if_neg (same_key y x) n _ _ ∙ before (some y),
      )
]

flat-append :
    (f : ElementId → List ElementId) (xs ys : List ElementId)
    → flat f (xs ++ ys) ≡ flat f xs ++ flat f ys
unfolding flat
flat-append f [] ys = refl
flat-append f (x ∷ xs) ys =
    ap (λ l. f x ++ l) (flat-append f xs ys) ∙ sym (append_assoc (f x) (flat f xs) (flat f ys))

pub init_of :
    (x : ElementId) (xs : List ElementId)
    → (us : List ElementId) × (x ∷ xs ≡ us ++ last_of x xs ∷ [])
init_of x [] = ([], refl)
init_of x (y ∷ ys) = let (us, e) = init_of y ys in (x ∷ us, ap (λ l. x ∷ l) e)

last_or-some : (k : ElementId) (ks : List ElementId) → last_or (some k) ks ≡ some (last_of k ks)
last_or-some k [] = refl
last_or-some k (l ∷ ks) = last_or-some l ks

pub last_of-append :
    (a r : ElementId) (us vs : List ElementId) → last_of a (us ++ r ∷ vs) ≡ last_of r vs
last_of-append a r [] vs = refl
last_of-append a r (u ∷ us) vs = last_of-append u r us vs

-- `p`'s subtree between `before` and `after`, at one of its children
regroup :
    (before ks sub ls after : List ElementId) (p : ElementId)
    → before ++ (p ∷ (ks ++ (sub ++ ls))) ++ after ≡ (before ++ p ∷ ks) ++ sub ++ (ls ++ after)
regroup before ks sub ls after p = simp (append_assoc)

module _ {T : InsertOperation → Type 0} {R : ElementId → Type 0} {d : Document}
    (v : Holds T R d) where
  -- The last element of a subtree is where descend stops.
  descend-last :
      (fuel : ℕ) (x : ElementId)
      → Has d x
      → length d.elements ≤ fuel + v.rank x
      → (us : List ElementId) × (r : ElementId) × (subtree d x ≡ us ++ r ∷ [])
        × (descend fuel d x ≡ ok r)
  unfolding descend flat
  descend-last zero x h b = absurd (omega (arith, v.rank_lt x h))
  descend-last (suc fuel) x h b =
      let (xs, kids) = children_of v x h in with_kids xs kids (descend-last fuel)
    where
      with_kids :
          (xs : List ElementId)
          → lookup x d.children ≡ some xs
          → ((y : ElementId)
              → Has d y
              → length d.elements ≤ fuel + v.rank y
              → (us : List ElementId) × (r : ElementId) × (subtree d y ≡ us ++ r ∷ [])
                × (descend fuel d y ≡ ok r))
          → (us : List ElementId) × (r : ElementId) × (subtree d x ≡ us ++ r ∷ [])
            × (descend (suc fuel) d x ≡ ok r)
      with_kids [] kids rest =
          ([], x, subtree-unfold v x h ∙ rw kids, rw (children_at-ok v x [] kids))
      with_kids (y ∷ ys) kids rest =
          let z = last_of y ys in
          let (there, above, _) = child_ranks-of v x z (y ∷ ys) kids (last_of-In y ys) in
          let (us, r, e, found) = rest z there (omega arith) in
          let (vs, q) = init_of y ys in
          (
            x ∷ (flat (subtree d) vs ++ us),
            r,
            subtree-unfold v x h
                ∙ ap (λ o. x ∷ flat (subtree d) (list_at o)) kids
                ∙ ap (λ l. x ∷ l)
                    (ap (flat (subtree d)) q
                      ∙ flat-append (subtree d) vs (z ∷ [])
                      ∙ ap (λ l. flat (subtree d) vs ++ l) (append-nil (subtree d z) ∙ e)
                      ∙ sym (append_assoc (flat (subtree d) vs) us (r ∷ []))),
            rw (children_at-ok v x (y ∷ ys) kids) found,
          )

  -- Where an element's subtree stands in the list, and what stands on both sides of it.
  pub record Located (x : ElementId) : Type 0 where
    pub before : List ElementId
    pub after : List ElementId
    pub whole : everyone d ≡ before ++ subtree d x ++ after
    pub ahead : (fuel : ℕ) → v.rank x < fuel → climb fuel d x ≡ ok (head_of after)
    pub behind : x ≢ root_id → predecessor d x ≡ ok (last_of root_id before)

  head_of-flat :
      (p : ElementId) (ks ls after : List ElementId) (x : ElementId)
      → lookup p d.children ≡ some (ks ++ x ∷ ls)
      → (elim (head_of ls) [ some next ↦ ok (some next) | none ↦ ok (head_of after) ])
        ≡ ok (head_of (flat (subtree d) ls ++ after))
  unfolding flat
  head_of-flat p ks [] after x e = refl
  head_of-flat p ks (l ∷ ls) after x e =
      let (there, _, _) =
        child_ranks-of v p l (ks ++ x ∷ l ∷ ls) e
          ((mem-append l ks (x ∷ l ∷ ls)).1 (inr (inr (inl refl)))) in
      rw (subtree-unfold v l there)

  last_of-flat :
      (before : List ElementId) (p k : ElementId) (ks : List ElementId)
      → Has d (last_of k ks)
      → descend (length d.elements) d (last_of k ks)
        ≡ ok (last_of root_id (before ++ p ∷ flat (subtree d) (k ∷ ks)))
  unfolding flat
  last_of-flat before p k ks h =
      let z = last_of k ks in
      let (us, r, e, found) = descend-last (length d.elements) z h (omega arith) in
      let (vs, q) = init_of k ks in
      let all = flat (subtree d) vs in
      let split : flat (subtree d) (k ∷ ks) ≡ (all ++ us) ++ r ∷ [] =
        ap (flat (subtree d)) q
        ∙ flat-append (subtree d) vs (z ∷ [])
        ∙ ap (λ l. all ++ l) (append-nil (subtree d z) ∙ e)
        ∙ sym (append_assoc all us (r ∷ [])) in
      found
      ∙ ap ok (
          sym (
            ap (λ l. last_of root_id (before ++ p ∷ l)) split
            ∙ ap (last_of root_id) (sym (append_assoc before (p ∷ (all ++ us)) (r ∷ [])))
            ∙ last_of-append root_id r (before ++ p ∷ (all ++ us)) []))

  predecessor-kin :
      (before : List ElementId) (p : ElementId) (ks rest : List ElementId)
      → lookup p d.children ≡ some (ks ++ rest)
      → (elim (last_or none ks) [ none ↦ ok p | some y ↦ descend (length d.elements) d y ])
        ≡ ok (last_of root_id (before ++ p ∷ flat (subtree d) ks))
  unfolding flat
  predecessor-kin before p [] rest e = ap ok (sym (last_of-append root_id p before []))
  predecessor-kin before p (k ∷ ks) rest e =
      let mine = (mem-append (last_of k ks) (k ∷ ks) rest).1 (inl (last_of-In k ks)) in
      let (there, _, _) = child_ranks-of v p (last_of k ks) ((k ∷ ks) ++ rest) e mine in
      rw (last_or-some k ks) (last_of-flat before p k ks there)

  climb-kin :
      (x p : ElementId) (xs ks ls after : List ElementId)
      → x ≢ root_id
      → lookup x d.parent_of ≡ some p
      → v.rank p < v.rank x
      → lookup p d.children ≡ some xs
      → lookup p d.children ≡ some (ks ++ x ∷ ls)
      → next_sibling x xs ≡ head_of ls
      → ((fuel : ℕ) → v.rank p < fuel → climb fuel d p ≡ ok (head_of after))
      → (fuel : ℕ) → v.rank x < fuel
      → climb fuel d x ≡ ok (head_of (flat (subtree d) ls ++ after))
  unfolding climb
  climb-kin x p xs ks ls after ne parent above kids kids' next up zero b = absurd (omega arith)
  climb-kin x p xs ks ls after ne parent above kids kids' next up (suc fuel) b =
      let step : climb (suc fuel) d x
          ≡ (elim (next_sibling x xs) [ some z ↦ ok (some z) | none ↦ climb fuel d p ]) =
        if_neg (same_key x root_id) ne _ _
        ∙ rw (parent_at-ok v x p parent, children_at-ok v p xs kids) in
      step
      ∙ ap (λ o. elim o [ some z ↦ ok (some z) | none ↦ climb fuel d p ]) next
      ∙ ap (λ r. elim (head_of ls) [ some z ↦ ok (some z) | none ↦ r ]) (up fuel (omega arith))
      ∙ head_of-flat p ks ls after x kids'

  below_parent :
      (x p : ElementId) (xs : List ElementId)
      → x ≢ root_id
      → lookup x d.parent_of ≡ some p
      → Has d p
      → v.rank p < v.rank x
      → lookup p d.children ≡ some xs
      → In x xs
      → Located p
      → Located x
  unfolding predecessor flat
  below_parent x p xs ne parent there above kids mine up =
      let (ks, ls, e, next, previous) = siblings_split x xs mine in
      let kids' : lookup p d.children ≡ some (ks ++ x ∷ ls) = kids ∙ ap some e in
      let here : subtree d p ≡ p ∷ (flat (subtree d) ks ++ (subtree d x ++ flat (subtree d) ls)) =
        subtree-unfold v p there
        ∙ ap (λ o. p ∷ flat (subtree d) (list_at o)) kids'
        ∙ ap (λ l. p ∷ l) (flat-append (subtree d) ks (x ∷ ls)) in
      record {
        before = up.before ++ p ∷ flat (subtree d) ks;
        after = flat (subtree d) ls ++ up.after;
        whole =
            up.whole
            ∙ ap (λ l. up.before ++ l ++ up.after) here
            ∙ regroup up.before (flat (subtree d) ks) (subtree d x) (flat (subtree d) ls) up.after
                p;
        ahead = climb-kin x p xs ks ls up.after ne parent above kids kids' next up.ahead;
        behind = λ _.
            let step : predecessor d x ≡ (elim (sibling_before x none xs) [
              | none ↦ err not_among_siblings
              | some none ↦ ok p
              | some (some y) ↦ descend (length d.elements) d y
            ]) =
              rw (parent_at-ok v x p parent, children_at-ok v p xs kids) in
            step ∙ rw (previous none) (predecessor-kin up.before p ks (x ∷ ls) kids');
      }

  pub located : (n : ℕ) (x : ElementId) → Has d x → v.rank x < n → Located x
  unfolding climb
  located zero x h b = absurd (omega arith)
  located (suc n) x h b = elim (same_key x root_id) [
    | yes q ↦ record {
      before = [];
      after = [];
      whole = ap (subtree d) (sym q) ∙ sym (append-nil (subtree d x));
      ahead = λ fuel above. at_root fuel q above;
      behind = λ ne. absurd (ne q);
    }
    | no ne ↦
        let (p, xs, parent, there, above, kids, mine) = family v x h ne in
        below_parent x p xs ne parent there above kids mine (located n p there (omega arith))
  ]
    where
      at_root : (fuel : ℕ) → x ≡ root_id → v.rank x < fuel → climb fuel d x ≡ ok none
      at_root zero q above = absurd (omega arith)
      at_root (suc fuel) q above = if_pos (same_key x root_id) q _ _
