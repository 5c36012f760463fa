-- ===== src/Document/Walk/Visible.antt =====
-- crdt_editor/src/document.cpp: what visible_successor and visible_predecessor find, in the list of
-- all elements in the order of the walk.
use crdt_networking_applicat.Prelude.{
  ℕ, zero, suc, ◌<◌, ◌≡◌, ◌≢◌, refl, sym, ap, subst, ◌∙◌, inl, inr, true, false, List, [], ◌∷◌,
  ◌++◌, In, length, length-append, arith, if_pos, if_neg, Bool-cases, if◌then◌else◌,
}
use mathlib.Core.List.{append_assoc, append-nil}
use crdt_networking_applicat.Prelude.Maps.{same_key, lookup_of_contains}
use crdt_networking_applicat.Ids.{ElementId, id_key, root_id}
use crdt_networking_applicat.Operation.{InsertOperation}
use crdt_networking_applicat.Outcome.{ok, ◌>>=◌}
use crdt_networking_applicat.Document.{Document}
use crdt_networking_applicat.Document.Invariant.{Has}
use crdt_networking_applicat.Document.History.{Holds}
use crdt_networking_applicat.Document.Visit.Fold.{is_visible, element_at-ok}
use crdt_networking_applicat.Document.Visit.Everyone.{everyone, shown, shown-append}
use crdt_networking_applicat.Document.Walk.{
  head_of, last_of, predecessor, skip_deleted, visible_successor, skip_back, visible_predecessor,
}
use crdt_networking_applicat.Document.Walk.Order.{init_of, last_of-append}
use crdt_networking_applicat.Document.Siblings.{Distinct}
use crdt_networking_applicat.Document.Visit.Fold.{visible}
use crdt_networking_applicat.Document.Visit.Everyone.{visible-shown}
use crdt_networking_applicat.Document.Visit.Members.{mem-visible, is_visible-Has}
use crdt_networking_applicat.Document.Visit.Once.{visible-Distinct}
use crdt_networking_applicat.Document.Walk.Neighbours.{
  split_unique, here_between, everyone-Has, everyone_fits, everyone-split, successor-head,
  predecessor-last, everyone_root, after_root,
}

module _ {T : InsertOperation → Type 0} {R : ElementId → Type 0} {d : Document}
    (v : Holds T R d) where
  skip_deleted-shown :
      (fuel : ℕ) (us ws : List ElementId)
      → everyone d ≡ us ++ ws
      → ((y : ElementId) → In y ws → y ≢ root_id)
      → length ws < fuel
      → skip_deleted fuel d (head_of ws) ≡ ok (head_of (shown d ws))
  unfolding skip_deleted shown is_visible
  skip_deleted-shown zero us ws e n b = absurd (omega arith)
  skip_deleted-shown (suc fuel) us [] e n b = refl
  skip_deleted-shown (suc fuel) us (y ∷ ys) e n b =
      let h = everyone-Has v y (subst (In y) (sym e) (here_between y us ys)) in
      let (c, q) = lookup_of_contains y d.elements h in
      let rest =
        skip_deleted-shown fuel (us ++ y ∷ []) ys (e ∙ sym (append_assoc us (y ∷ []) ys))
          (λ z m. n z (inr m)) (omega arith) in
      rw (element_at-ok d y c q, if_neg (same_key y root_id) (n y (inl refl)), q)
        (elim (Bool-cases c.deleted) [
          | inl gone ↦ rw (gone, successor-head v y us ys e) rest
          | inr here ↦ rw here
        ])

  step_back :
      (fuel : ℕ) (ks ws : List ElementId) (y : ElementId)
      → everyone d ≡ root_id ∷ (ks ++ y ∷ ws)
      → skip_back fuel d (last_of root_id ks) ≡ ok (last_of root_id (shown d ks))
      → skip_back (suc fuel) d y ≡ ok (last_of root_id (shown d (ks ++ y ∷ [])))
  unfolding skip_back is_visible shown
  step_back fuel ks ws y e rest =
      let n : y ≢ root_id = after_root v [] (ks ++ y ∷ ws) root_id y e (here_between y ks ws) in
      let h = everyone-Has v y (subst (In y) (sym e) (here_between y (root_id ∷ ks) ws)) in
      let (c, q) = lookup_of_contains y d.elements h in
      let step : skip_back (suc fuel) d y
          ≡ (if c.deleted then (predecessor d y >>= skip_back fuel d) else ok y) =
        if_neg (same_key y root_id) n _ _ ∙ rw (element_at-ok d y c q) in
      let seen : is_visible d y ≡ (if c.deleted then false else true) =
        if_neg (same_key y root_id) n _ _ ∙ rw q in
      step
      ∙ rw (shown-append d ks (y ∷ []), seen)
          (elim (Bool-cases c.deleted) [
            | inl gone ↦
                rw (gone, predecessor-last v y (root_id ∷ ks) ws n e, append-nil (shown d ks)) rest
            | inr here ↦ rw here (ap ok (sym (last_of-append root_id y (shown d ks) [])))
          ])

  -- Going back from the last of the elements in front.
  skip_back-shown :
      (fuel : ℕ) (us ws : List ElementId)
      → everyone d ≡ root_id ∷ (us ++ ws)
      → length us < fuel
      → skip_back fuel d (last_of root_id us) ≡ ok (last_of root_id (shown d us))
  unfolding skip_back shown
  skip_back-shown zero us ws e b = absurd (omega arith)
  skip_back-shown (suc fuel) [] ws e b = if_pos (same_key root_id root_id) refl _ _
  skip_back-shown (suc fuel) (u ∷ us) ws e b =
      let (ks, k) = init_of u us in
      let y = last_of u us in
      let e' : everyone d ≡ root_id ∷ (ks ++ y ∷ ws) =
        e ∙ ap (λ l. root_id ∷ (l ++ ws)) k ∙ append_assoc (root_id ∷ ks) (y ∷ []) ws in
      let shorter = ap length k ∙ length-append ks (y ∷ []) in
      let rest = skip_back-shown fuel ks (y ∷ ws) e' (omega arith) in
      step_back fuel ks ws y e' rest ∙ ap (λ l. ok (last_of root_id (shown d l))) (sym k)

  pub root_hidden : is_visible d root_id ≡ false
  unfolding is_visible
  root_hidden = if_pos (same_key root_id root_id) refl _ _

  behind_root :
      (x : ElementId) (us ws : List ElementId)
      → everyone d ≡ root_id ∷ (us ++ x ∷ ws)
      → visible_predecessor d x ≡ ok (last_of root_id (shown d (root_id ∷ us)))
  unfolding visible_predecessor shown
  behind_root x us ws e =
      let n : x ≢ root_id = after_root v [] (us ++ x ∷ ws) root_id x e (here_between x us ws) in
      let all = ap length e in
      let shorter = length-append us (x ∷ ws) in
      if_neg (same_key x root_id) n _ _
      ∙ ap (λ r. r >>= skip_back (length d.elements) d) (predecessor-last v x (root_id ∷ us) ws n e)
      ∙ skip_back-shown (length d.elements) us (x ∷ ws) e (omega (arith, everyone_fits v))
      ∙ ap (λ b. ok (last_of root_id (if b then root_id ∷ shown d us else shown d us)))
          (sym root_hidden)

  -- In a document that some history of operations leaves, every element stands once in the order of
  -- the walk; visible_successor finds the first visible element behind it, and none where there is
  -- none; visible_predecessor finds the last visible element in front of it, and the root where
  -- there is none.
  pub visible_neighbours :
      (x : ElementId)
      → Has d x
      → (us : List ElementId) × (ws : List ElementId) × (everyone d ≡ us ++ x ∷ ws)
        × (visible_predecessor d x ≡ ok (last_of root_id (shown d us)))
        × (visible_successor d x ≡ ok (head_of (shown d ws)))
  unfolding visible_successor visible_predecessor shown
  visible_neighbours x h =
      let (us, ws, e) = everyone-split v x h in (us, ws, e, in_front us ws e, behind us ws e)
    where
      behind :
          (us ws : List ElementId)
          → everyone d ≡ us ++ x ∷ ws
          → visible_successor d x ≡ ok (head_of (shown d ws))
      behind us ws e =
          let shorter = ap length e ∙ length-append us (x ∷ ws) in
          rw (visible_successor, successor-head v x us ws e)
            (skip_deleted-shown (suc (length d.elements)) (us ++ x ∷ []) ws
              (e ∙ sym (append_assoc us (x ∷ []) ws)) (λ y m. after_root v us ws x y e m)
              (omega (arith, everyone_fits v)))

      in_front :
          (us ws : List ElementId)
          → everyone d ≡ us ++ x ∷ ws
          → visible_predecessor d x ≡ ok (last_of root_id (shown d us))
      in_front [] ws e =
          let (first, f) = everyone_root v in
          let q : x ≡ root_id = cc (sym e ∙ f) in if_pos (same_key x root_id) q _ _
      in_front (u ∷ us) ws e =
          let (first, f) = everyone_root v in
          let q : u ≡ root_id = cc (sym e ∙ f) in
          behind_root x us ws (e ∙ ap (λ z. z ∷ (us ++ x ∷ ws)) q)
          ∙ ap (λ z. ok (last_of root_id (shown d (z ∷ us)))) (sym q)

  -- Among the visible elements: the one in front, or the root, and the one behind.
  pub visible_neighbours-In :
      (x : ElementId) (us ws : List ElementId)
      → visible d ≡ us ++ x ∷ ws
      → (visible_predecessor d x ≡ ok (last_of root_id us))
        × (visible_successor d x ≡ ok (head_of ws))
  unfolding shown
  visible_neighbours-In x us ws e =
      let s : is_visible d x ≡ true =
        (mem-visible v x).0 (subst (In x) (sym e) (here_between x us ws)) in
      let (ks, ls, whole, before, after) = visible_neighbours x (is_visible-Has v x s) in
      let split : visible d ≡ shown d ks ++ x ∷ shown d ls =
        visible-shown d
        ∙ ap (shown d) whole
        ∙ shown-append d ks (x ∷ ls)
        ∙ ap (λ b. shown d ks ++ (if b then x ∷ shown d ls else shown d ls)) s in
      let (front, back) =
        split_unique x us ws (shown d ks) (shown d ls) (subst Distinct e (visible-Distinct v))
          (sym e ∙ split) in
      (
        before ∙ ap (λ l. ok (last_of root_id l)) (sym front),
        after ∙ ap (λ l. ok (head_of l)) (sym back),
      )
