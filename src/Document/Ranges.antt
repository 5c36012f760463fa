-- ===== src/Document/Ranges.antt =====
-- crdt_editor/src/document.cpp: what get_visible_range collects.
use crdt_networking_applicat.Prelude.{
  ◌≡◌, ◌≢◌, refl, sym, ap, subst, ◌∙◌, inl, inr, true, false, List, [], ◌∷◌, ◌++◌, In, if_pos,
  if_neg, ite,
}
use mathlib.Core.List.{append_assoc, append-nil}
use crdt_networking_applicat.Prelude.Maps.{same_key}
use crdt_networking_applicat.Ids.{ElementId, id_key, root_id}
use crdt_networking_applicat.Operation.{InsertOperation}
use crdt_networking_applicat.Outcome.{ok, ◌>>=◌}
use crdt_networking_applicat.Document.{Document}
use crdt_networking_applicat.Document.Siblings.{Distinct}
use crdt_networking_applicat.Document.History.{Holds}
use crdt_networking_applicat.Document.Visit.Fold.{
  visible, fold_each, fold_each-append, visit_document-fold,
}
use crdt_networking_applicat.Document.Visit.Members.{mem-append, mem-visible}
use crdt_networking_applicat.Document.Visit.Once.{visible-Distinct}
use crdt_networking_applicat.Document.Queries.{DocumentRange, range_step, get_visible_range}
use crdt_networking_applicat.Document.Positions.RoundTrip.{visible_element}
use crdt_networking_applicat.Document.Walk.{visible_predecessor}
use crdt_networking_applicat.Document.Walk.Order.{last_of-append}
use crdt_networking_applicat.Document.Walk.Neighbours.{split-Distinct}
use crdt_networking_applicat.Document.Walk.Visible.{visible_neighbours-In}

module _ (r : DocumentRange) where
  -- While nothing is collected, up to the first end.
  range_off :
      (xs out : List ElementId)
      → ¬ In r.first xs
      → fold_each (range_step r) xs (false, out) ≡ ok (false, out)
  unfolding range_step
  range_off [] out n = refl
  range_off (x ∷ xs) out n = elim (same_key x r.last) [
    | yes q ↦ rw (if_pos _ q) (range_off xs out (λ m. n (inr m)))
    | no ne ↦
        let other : x ≢ r.first = λ e. n (inl (sym e)) in
        rw (if_neg _ ne, if_neg _ other) (range_off xs out (λ m. n (inr m)))
  ]

  -- Between the ends everything is collected.
  range_on :
      (xs out : List ElementId)
      → ¬ In r.first xs
      → ¬ In r.last xs
      → fold_each (range_step r) xs (true, out) ≡ ok (true, out ++ xs)
  unfolding range_step
  range_on [] out n k = ap (λ l. ok (true, l)) (sym (append-nil out))
  range_on (x ∷ xs) out n k =
      let other : x ≢ r.first = λ e. n (inl (sym e)) in
      let other' : x ≢ r.last = λ e. k (inl (sym e)) in
      rw (if_neg _ other', if_neg _ other)
        (range_on xs (out ++ x ∷ []) (λ m. n (inr m)) (λ m. k (inr m))
          ∙ ap (λ l. ok (true, l)) (append_assoc out (x ∷ []) xs))

  -- From between the ends to the end of the list.
  range_rest :
      (ms ws : List ElementId)
      → ¬ In r.first (ms ++ r.last ∷ ws)
      → ¬ In r.last ms
      → fold_each (range_step r) (ms ++ r.last ∷ ws) (true, []) ≡ ok (false, ms ++ r.last ∷ [])
  unfolding range_step
  range_rest ms ws n k =
      fold_each-append (range_step r) ms (r.last ∷ ws) (true, [])
      ∙ rw (range_on ms [] (λ m. n ((mem-append r.first ms (r.last ∷ ws)).1 (inl m))) k) (
          rw (if_pos (same_key r.last r.last) refl) (
            range_off ws (ms ++ r.last ∷ [])
              (λ m. n ((mem-append r.first ms (r.last ∷ ws)).1 (inr (inr m))))))

module _ {T : InsertOperation → Type 0} {R : ElementId → Type 0} {d : Document}
    (v : Holds T R d) where
  rooted-Distinct : Distinct (root_id ∷ visible d)
  rooted-Distinct = (
    λ m. let (_, _, _, n) = visible_element v root_id ((mem-visible v root_id).0 m) in n refl,
    visible-Distinct v,
  )

  fold_between :
      (us ms ws : List ElementId) (x y : ElementId)
      → root_id ∷ visible d ≡ us ++ x ∷ (ms ++ y ∷ ws)
      → x ≢ y
      → ¬ In x us
      → ¬ In x (ms ++ y ∷ ws)
      → ¬ In y ms
      → fold_each
          (range_step (record { first = x; last = y }))
          (visible d)
          (ite (same_key x root_id) true false, [])
        ≡ ok (false, ms ++ y ∷ [])
  unfolding range_step
  fold_between [] ms ws x y e n a b k =
      let at_root : x ≡ root_id = cc in
      let all : visible d ≡ ms ++ y ∷ ws = cc in
      rw (if_pos (same_key x root_id) at_root, all)
        (range_rest (record { first = x; last = y }) ms ws b k)
  fold_between (u ∷ us) ms ws x y e n a b k =
      let r : DocumentRange = record { first = x; last = y } in
      let first : u ≡ root_id = cc in
      let not_root : x ≢ root_id = λ q. a (inl (q ∙ sym first)) in
      let all : visible d ≡ us ++ x ∷ (ms ++ y ∷ ws) = cc in
      let here : fold_each (range_step r) (x ∷ (ms ++ y ∷ ws)) (false, [])
          ≡ ok (false, ms ++ y ∷ []) =
        rw (if_neg (same_key x y) n, if_pos (same_key x x) refl) (range_rest r ms ws b k) in
      rw (if_neg (same_key x root_id) not_root, all)
        (fold_each-append (range_step r) us (x ∷ (ms ++ y ∷ ws)) (false, [])
          ∙ ap (λ o. o >>= fold_each (range_step r) (x ∷ (ms ++ y ∷ ws)))
              (range_off r us [] (λ m. a (inr m)))
          ∙ here)

  -- The elements behind the first end, up to the last end with it.
  pub get_visible_range-between :
      (us ms ws : List ElementId) (x y : ElementId)
      → root_id ∷ visible d ≡ us ++ x ∷ (ms ++ y ∷ ws)
      → get_visible_range d (record { first = x; last = y }) ≡ ok (ms ++ y ∷ [])
  unfolding get_visible_range range_step
  get_visible_range-between us ms ws x y e =
      let (a, b, p) = split-Distinct x us (ms ++ y ∷ ws) (subst Distinct e rooted-Distinct) in
      let (k, _, _) = split-Distinct y ms ws p in
      let r : DocumentRange = record { first = x; last = y } in
      let n : x ≢ y = λ q. b (
        subst (λ z. In z (ms ++ y ∷ ws)) (sym q) ((mem-append y ms (y ∷ ws)).1 (inr (inl refl)))) in
      if_neg (same_key x y) n _ _
      ∙ rw (visit_document-fold v (range_step r), fold_between us ms ws x y e n a b k)

  pub in_front :
      (us zs : List ElementId) (x z : ElementId)
      → root_id ∷ visible d ≡ us ++ x ∷ (z ∷ zs)
      → visible_predecessor d z ≡ ok x
  in_front [] zs x z e =
      let q : visible d ≡ z ∷ zs = cc in (visible_neighbours-In v z [] zs q).0 ∙ ap ok (the_root e)
    where
      the_root : root_id ∷ visible d ≡ x ∷ (z ∷ zs) → root_id ≡ x
      the_root e = cc
  in_front (u ∷ us) zs x z e =
      let q : visible d ≡ us ++ x ∷ (z ∷ zs) = cc in
      (visible_neighbours-In v z (us ++ x ∷ []) zs (q ∙ sym (append_assoc us (x ∷ []) (z ∷ zs)))).0
      ∙ ap ok (last_of-append root_id x us [])
