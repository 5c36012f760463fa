-- ===== src/Document/Invariant/Buffer.antt =====
-- The branches of applyInsert that place nothing keep the invariant: an id that is known, and a
-- parent that is missing.
use crdt_networking_applicat.Prelude.{
  ℕ, ◌≡◌, refl, sym, ap, subst, ◌∙◌, ◌↔◌, ◌⊎◌, inl, inr, [], ◌∷◌, ◌++◌, In, arith, Bool-cases,
}
use crdt_networking_applicat.Prelude.Maps.{
  Map, contains, lookup_of_contains, contains-assign, lookup-assign_self, lookup-assign_ne,
  contains-emplace_ne, assign-IsFunctional, same_key,
}
use crdt_networking_applicat.Ids.{ElementId, id_key}
use crdt_networking_applicat.Operation.{Character, InsertOperation}
use crdt_networking_applicat.Document.{Document, buffer_insert, enqueue}
use crdt_networking_applicat.Document.Siblings.{mem-append_singleton}
use crdt_networking_applicat.Document.Invariant.{
  IsGenuine, Add, Has, Lacks, Origin, Inv, waiting_for,
}

module _ {T : InsertOperation → Type 0} {R P : ElementId → Type 0} {d : Document}
    (v : Inv T R P d) where
  -- The insert that an element comes from is the only one with its id.
  pub parent_there_of :
      (o : InsertOperation) → IsGenuine (Add o T) → Has d o.ident → Has d o.parent × T o
  parent_there_of o g h =
      let (c, e) = lookup_of_contains o.ident d.elements h in
      let from = v.origin o.ident c e (g.not_root o (inl refl)) in
      let same = g.unique o from.oper (inl refl) (inr from.received) (sym from.ident_eq) in
      (subst (λ u. Has d u.parent) (sym same) from.parent_there, subst T (sym same) from.received)

-- An origin for more inserts.
pub Origin-mono :
    {T T' : InsertOperation → Type 0} {rank : ElementId → ℕ} {es : Map ElementId Character}
    {ps : Map ElementId ElementId} {x : ElementId} {c : Character}
    → ((o : InsertOperation) → T o → T' o)
    → Origin T rank es ps x c
    → Origin T' rank es ps x c
Origin-mono more r = record {
  oper = r.oper;
  received = more r.oper r.received;
  ident_eq = r.ident_eq;
  char_eq = r.char_eq;
  parent_eq = r.parent_eq;
  parent_there = r.parent_there;
  after_parent = r.after_parent;
}

-- The invariant under the same inserts and more ids in flight.
module _ {T T' : InsertOperation → Type 0} {R P P' : ElementId → Type 0} {d : Document}
    (same : (o : InsertOperation) → T o ↔ T' o) (more : (x : ElementId) → Lacks d x → P x → P' x)
    (v : Inv T R P d) where
  pub Inv-change : Inv T' R P' d
  Inv-change = record {
    rank = v.rank;
    rank_lt = v.rank_lt;
    root_element = v.root_element;
    root_parent = v.root_parent;
    placed = λ o t q. v.placed o ((same o).1 t) q;
    origin = λ x c e n. Origin-mono (λ o. (same o).0) (v.origin x c e n);
    removed = v.removed;
    removed_later = v.removed_later;
    waits = λ o t q. v.waits o ((same o).1 t) q;
    waiting_own = λ k o m. let (t, e) = v.waiting_own k o m in ((same o).0 t, e);
    waiting_key = v.waiting_key;
    waiting_entries = v.waiting_entries;
    waiting_ids = λ x h.
        let (l, w) = v.waiting_ids x h in (l, elim w [ inl b ↦ inl b | inr p ↦ inr (more x l p) ]);
    children_keys = v.children_keys;
    parent_keys = v.parent_keys;
    descending = v.descending;
    kin = v.kin;
  }

module _ {T : InsertOperation → Type 0} {R P : ElementId → Type 0} {d : Document}
    (v : Inv T R P d) where
  -- An operation that was received before adds nothing.
  received-Inv : (o : InsertOperation) → T o → Inv (Add o T) R P d
  received-Inv o t =
      Inv-change (λ o'. (inr, elim [ inl e ↦ subst T (sym e) t | inr t' ↦ t' ])) (λ x l p. p) v

  -- An id that is there: nothing changes, and the operation was received before.
  pub known-Inv : (o : InsertOperation) → IsGenuine (Add o T) → Has d o.ident → Inv (Add o T) R P d
  known-Inv o g h = received-Inv o (parent_there_of v o g h).1

-- Buffering changes one list of waiting operations.
mem-waiting_for :
    (d : Document) (o o' : InsertOperation) (k : ElementId)
    → In o' (waiting_for (enqueue o d) k) ↔ (In o' (waiting_for d k) ⊎ ((o' ≡ o) × (k ≡ o.parent)))
unfolding enqueue
mem-waiting_for d o o' k =
    let all = mem-append_singleton o' o (waiting_for d o.parent) in
    elim (same_key o.parent k) [
      | yes p ↦
          rw (← p, lookup-assign_self)
            (
              λ m. elim (all.0 m) [ inl old ↦ inl old | inr e ↦ inr (e, refl) ],
              elim [ inl old ↦ all.1 (inl old) | inr e ↦ all.1 (inr e.0) ],
            )
      | no n ↦
          rw (lookup-assign_ne o.parent k _ d.buffered_inserts n)
            (λ m. inl m, elim [ inl old ↦ old | inr e ↦ absurd (n (sym e.1)) ])
    ]

-- A parent that is missing: the operation waits for it.
module _ {T : InsertOperation → Type 0} {R P : ElementId → Type 0} {d : Document} (v : Inv T R P d)
    (o : InsertOperation) (fresh : Lacks d o.ident) (missing : Lacks d o.parent) where
  keep_waiting :
      (x : ElementId)
      → Lacks d x
        × (((o' : InsertOperation) × In o' (waiting_for d o'.parent) × (o'.ident ≡ x)) ⊎ P x)
      → Lacks d x
        × (((o' : InsertOperation) × In o' (waiting_for (enqueue o d) o'.parent) × (o'.ident ≡ x))
            ⊎ P x)
  keep_waiting x (l, inl (o', m, e)) =
      (l, inl (o', (mem-waiting_for d o o' o'.parent).1 (inl m), e))
  keep_waiting x (l, inr p) = (l, inr p)

  enqueue-Inv : Inv (Add o T) R P (enqueue o d)
  unfolding enqueue
  enqueue-Inv =
      let mem = mem-waiting_for d o in
      record {
        rank = v.rank;
        rank_lt = v.rank_lt;
        root_element = v.root_element;
        root_parent = v.root_parent;
        placed = λ o' t q. elim t [
          | inl e ↦ cc (missing, subst (λ u. Has d u.parent) e q)
          | inr t' ↦ v.placed o' t' q
        ];
        origin = λ x c e n. Origin-mono (λ o'. inr) (v.origin x c e n);
        removed = v.removed;
        removed_later = v.removed_later;
        waits = λ o' t q. elim t [
          | inl e ↦ (mem o' o'.parent).1 (inr (e, ap (λ u. u.parent) e))
          | inr t' ↦ (mem o' o'.parent).1 (inl (v.waits o' t' q))
        ];
        waiting_own = λ k o' m. elim ((mem o' k).0 m) [
          | inl old ↦ let (t, e) = v.waiting_own k o' old in (inr t, e)
          | inr e ↦ (inl e.0, ap (λ u. u.parent) e.0 ∙ sym e.1)
        ];
        waiting_key = λ k h. ground (
          arith,
          v.waiting_key k,
          contains-assign o.parent k (waiting_for d o.parent ++ o ∷ []) d.buffered_inserts,
        );
        waiting_entries = assign-IsFunctional o.parent _ d.buffered_inserts v.waiting_entries;
        waiting_ids = λ x h. elim (same_key o.ident x) [
          | yes p ↦ (subst (Lacks d) p fresh, inl (o, (mem o o.parent).1 (inr (refl, refl)), p))
          | no n ↦
              keep_waiting x (
                v.waiting_ids x
                  (sym (contains-emplace_ne o.ident x tt d.buffered_insert_ids n) ∙ h))
        ];
        children_keys = v.children_keys;
        parent_keys = v.parent_keys;
        descending = v.descending;
        kin = v.kin;
      }

  -- An operation whose id is in the buffer already is the one that stands there.
  waiting_already :
      IsGenuine (Add o T)
      → (((o' : InsertOperation) × In o' (waiting_for d o'.parent) × (o'.ident ≡ o.ident))
          ⊎ P o.ident)
      → ¬ P o.ident
      → T o
  waiting_already g (inl (o', m, e)) n =
      let (t, _) = v.waiting_own o'.parent o' m in subst T (g.unique o' o (inr t) (inl refl) e) t
  waiting_already g (inr p) n = absurd (n p)

  pub buffer_insert-Inv : IsGenuine (Add o T) → ¬ P o.ident → Inv (Add o T) R P (buffer_insert o d)
  unfolding buffer_insert
  buffer_insert-Inv g n = elim (Bool-cases (contains o.ident d.buffered_insert_ids)) [
    | inl old ↦ rw old (received-Inv v o (waiting_already g (v.waiting_ids o.ident old).1 n))
    | inr new ↦ rw new enqueue-Inv
  ]
