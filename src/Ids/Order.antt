-- ===== src/Ids/Order.antt =====
-- The comparison of element ids is a strict total order that agrees with their equality.
use crdt_networking_applicat.Prelude.{
  ℕ, ◌≡◌, refl, true, false, List, [], ◌∷◌, Ordering, arith, ◌≢◌,
}
use crdt_networking_applicat.Ids.{ElementId, compare_bytes, gt_ids}

abbrev pub flip : Ordering → Ordering
flip Ordering.lt = Ordering.gt
flip Ordering.eq = Ordering.eq
flip Ordering.gt = Ordering.lt

compare_bytes-flip : (xs ys : List ℕ) → compare_bytes ys xs ≡ flip (compare_bytes xs ys)
unfolding compare_bytes
compare_bytes-flip [] [] = refl
compare_bytes-flip [] (y ∷ ys) = refl
compare_bytes-flip (x ∷ xs) [] = refl
compare_bytes-flip (x ∷ xs) (y ∷ ys) = ground (arith, compare_bytes-flip xs ys)

compare_bytes-eq : (xs ys : List ℕ) → compare_bytes xs ys ≡ Ordering.eq → xs ≡ ys
unfolding compare_bytes
compare_bytes-eq [] [] h = refl
compare_bytes-eq [] (y ∷ ys) h = cc
compare_bytes-eq (x ∷ xs) [] h = cc
compare_bytes-eq (x ∷ xs) (y ∷ ys) h = ground (arith, compare_bytes-eq xs ys)

compare_bytes_self : (xs : List ℕ) → compare_bytes xs xs ≡ Ordering.eq
unfolding compare_bytes
compare_bytes_self [] = refl
compare_bytes_self (x ∷ xs) = ground (arith, compare_bytes_self xs)

compare_bytes_trans :
    (xs ys zs : List ℕ)
    → compare_bytes xs ys ≡ Ordering.gt
    → compare_bytes ys zs ≡ Ordering.gt
    → compare_bytes xs zs ≡ Ordering.gt
unfolding compare_bytes
compare_bytes_trans [] [] zs h k = cc
compare_bytes_trans [] (y ∷ ys) zs h k = cc
compare_bytes_trans (x ∷ xs) ys [] h k = refl
compare_bytes_trans (x ∷ xs) [] (z ∷ zs) h k = cc
compare_bytes_trans (x ∷ xs) (y ∷ ys) (z ∷ zs) h k = ground (arith, compare_bytes_trans xs ys zs)

-- No id precedes itself.
pub gt_ids_irrefl : (a : ElementId) → gt_ids a a ≡ false
unfolding gt_ids
gt_ids_irrefl a = ground (arith, compare_bytes_self a.site_id)

-- The order that sorts the siblings is transitive.
pub gt_ids_trans : (a b c : ElementId) → gt_ids a b ≡ true → gt_ids b c ≡ true → gt_ids a c ≡ true
unfolding gt_ids
gt_ids_trans a b c h k = ground (arith, compare_bytes_trans a.site_id b.site_id c.site_id)

-- Of two different ids one is greater.
pub gt_ids_total : (a b : ElementId) → a ≢ b → gt_ids a b ≡ false → gt_ids b a ≡ true
unfolding gt_ids
gt_ids_total a b n h =
    ground (arith, compare_bytes-eq a.site_id b.site_id, compare_bytes-flip a.site_id b.site_id)
