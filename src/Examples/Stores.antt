-- ===== src/Examples/Stores.antt =====
-- A database in memory that keeps what crdt_editor/persistance asks of it, and a document that is
-- logged in it and loaded again.
use crdt_networking_applicat.Prelude.{
  ℕ_discrete, ◌≡◌, ◌↔◌, refl, sym, ap, ap₂, inl, inr, some, List, [], ◌∷◌, In, ite, if_pos, if_neg,
}
use crdt_networking_applicat.Prelude.Maps.{
  Key, Map, lookup, emplace, same_key, lookup-emplace_self, lookup-emplace_ne, emplace-IsFunctional,
  IsFunctional, contains_of_none, contains_of_lookup,
}
use crdt_networking_applicat.Ids.{text_key}
use crdt_networking_applicat.Operation.{Operation}
use crdt_networking_applicat.Outcome.{ok}
use crdt_networking_applicat.Text.{Bytes}
use crdt_networking_applicat.Storage.{Database, IsDatabase}

instance abbrev pair_key : Key (Bytes × Bytes)
pair_key = record { key_eq = hlevel ℕ_discrete }

abbrev pub Rows : Type 0
Rows = Map (Bytes × Bytes) Bytes

abbrev rows_of : Bytes → Rows → List Bytes
rows_of d [] = []
rows_of d (((e, i), t) ∷ m) = let rest = rows_of d m in ite (same_key e d) (t ∷ rest) rest

abbrev pub rows_database : Database Rows
rows_database = record {
  insert_document = λ d s. ok s;
  delete_document = λ d s. ok s;
  get_document_ids = λ s. ok [];
  insert_operation = λ d i t s. ok (emplace (d, i) t s);
  get_operations = λ d s. ok (rows_of d s);
}

mem-rows_of : (d t : Bytes) (s : Rows) → In t (rows_of d s) ↔ ((i : Bytes) × In ((d, i), t) s)
mem-rows_of d t [] = ((λ m. absurd m), λ m. absurd m.1)
mem-rows_of d t (((e, i), u) ∷ s) =
    let ih = mem-rows_of d t s in
    elim (same_key e d) [
      | yes q ↦ rw (if_pos (same_key e d) q) (
        λ m. elim m [
          | inl a ↦ (i, inl (ap₂ (λ x y. ((x, i), y)) (sym q) a))
          | inr k ↦ let (j, n) = ih.0 k in (j, inr n)
        ],
        λ (j, w). elim w [ inl a ↦ inl (ap (λ r. r.1) a) | inr n ↦ inr (ih.1 (j, n)) ],
      )
      | no n ↦ rw (if_neg (same_key e d) n) (
        λ m. let (j, k) = ih.0 m in (j, inr k),
        λ (j, w). elim w [ inl a ↦ absurd (n (sym (ap (λ r. r.0.0) a))) | inr k ↦ ih.1 (j, k) ],
      )
    ]

mem-lookup : (k : Bytes × Bytes) (t : Bytes) (s : Rows) → lookup k s ≡ some t → In (k, t) s
unfolding lookup
mem-lookup k t [] e = cc
mem-lookup k t ((j, u) ∷ s) e = elim (same_key j k) [
  | yes q ↦ inl (ap₂ (λ a b. (a, b)) (sym q) (cc (rw (if_pos (same_key j k) q) at e)))
  | no n ↦ inr (mem-lookup k t s (rw (if_neg (same_key j k) n) at e))
]

rows_database-IsDatabase : IsDatabase rows_database
rows_database-IsDatabase = record {
  stored = λ s d. IsFunctional s;
  row = λ s d i. lookup (d, i) s;
  insert_works = λ d i t s f. (
    emplace (d, i) t s,
    refl,
    emplace-IsFunctional (d, i) t s f,
    (λ e. lookup-emplace_self (d, i) t s (contains_of_none (d, i) s e)),
    (λ y e. unfold emplace in rw (contains_of_lookup (d, i) s e) e),
    λ j n. lookup-emplace_ne (d, i) (d, j) t s (λ q. n (sym (ap (λ p. p.1) q))),
  );
  select_works = λ d s f. (
    rows_of d s,
    refl,
    λ t. (
      λ m. let (i, n) = (mem-rows_of d t s).0 m in (i, f (d, i) t n),
      λ (i, e). (mem-rows_of d t s).1 (i, mem-lookup (d, i) t s e),
    ),
  );
}
