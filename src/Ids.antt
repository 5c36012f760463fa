-- ===== src/Ids.antt =====
-- crdt_editor/src/elementID.hpp and elementID.cpp: element ids, their equality and their order.
-- A std::string is the list of its bytes, each below 256.
pub mod Order
use crdt_networking_applicat.Prelude.{
  ℕ, ◌≡◌, Bool, true, false, List, [], ◌∷◌, compare, Ordering, ℕ_discrete,
}
use crdt_networking_applicat.Prelude.Maps.{Key}

pub record ElementId : Type 0 where
  pub lamport : ℕ
  pub site_id : List ℕ

unfoldable pub List-discrete : Discrete (List ℕ)
List-discrete = hlevel ℕ_discrete

pub ElementId-discrete : Discrete ElementId
ElementId-discrete = hlevel ℕ_discrete

instance abbrev pub text_key : Key (List ℕ)
text_key = record { key_eq = List-discrete }

instance abbrev pub id_key : Key ElementId
id_key = record { key_eq = ElementId-discrete }

abbrev pub root_id : ElementId
root_id = record {
  lamport = 0;
  site_id = b'_' ∷ b'_' ∷ b'R' ∷ b'O' ∷ b'O' ∷ b'T' ∷ b'_' ∷ b'_' ∷ [];
}

-- site_id <=> other.site_id, byte by byte
unfoldable pub compare_bytes : List ℕ → List ℕ → Ordering
compare_bytes [] [] = Ordering.eq
compare_bytes [] (y ∷ ys) = Ordering.lt
compare_bytes (x ∷ xs) [] = Ordering.gt
compare_bytes (x ∷ xs) (y ∷ ys) =
    let rest = compare_bytes xs ys in
    elim (compare x y) [
      | Ordering.lt ↦ Ordering.lt
      | Ordering.eq ↦ rest
      | Ordering.gt ↦ Ordering.gt
    ]

-- operator<=>: the clocks first, then the sites
unfoldable pub compare_ids : ElementId → ElementId → Ordering
unfolding compare_bytes
compare_ids a b = elim (compare a.lamport b.lamport) [
  | Ordering.lt ↦ Ordering.lt
  | Ordering.eq ↦ compare_bytes a.site_id b.site_id
  | Ordering.gt ↦ Ordering.gt
]

-- a > b
unfoldable pub gt_ids : ElementId → ElementId → Bool
unfolding compare_ids
gt_ids a b = elim (compare_ids a b) [ Ordering.gt ↦ true | _ ↦ false ]
