-- ===== src/Document/Invariant/Check.antt =====
-- The checks at the end of applyInsert find nothing: the buffer holds operations of missing
-- parents only, each under its parent, and none of an element that is there.
use crdt_networking_applicat.Prelude.{
  ◌≤◌, ◌+◌, ◌≡◌, refl, sym, subst, inl, inr, none, List, [], ◌∷◌, In, arith, length, Bool-cases,
  if_pos, if_neg,
}
use crdt_networking_applicat.Prelude.Maps.{
  Map, lookup, contains, erase, lookup_of_contains, contains_of_lookup, same_key,
}
use crdt_networking_applicat.Ids.{ElementId, id_key}
use crdt_networking_applicat.Operation.{InsertOperation}
use crdt_networking_applicat.Outcome.{done}
use crdt_networking_applicat.Document.{
  Document, list_at, check_waiting, check_entries, check_buffers, waiting_count,
}
use crdt_networking_applicat.Document.Invariant.{IsGenuine, Has, Lacks, Inv, waiting_for}

check_waiting-none :
    (d : Document) (k : ElementId) (os : List InsertOperation)
    → ((o : InsertOperation) → In o os → (o.parent ≡ k) × Lacks d o.ident)
    → check_waiting d k os ≡ none
unfolding check_waiting
check_waiting-none d k [] h = refl
check_waiting-none d k (o ∷ os) h =
    rw (if_pos (same_key o.parent k) (h o (inl refl)).0, (h o (inl refl)).1)
      (check_waiting-none d k os (λ o' m. h o' (inr m)))

check_entries-none :
    (d : Document) (m : Map ElementId (List InsertOperation))
    → ((k : ElementId) (os : List InsertOperation)
        → In (k, os) m
        → Lacks d k × ((o : InsertOperation) → In o os → (o.parent ≡ k) × Lacks d o.ident))
    → check_entries d m ≡ none
unfolding check_entries
check_entries-none d [] h = refl
check_entries-none d ((k, os) ∷ m) h =
    rw ((h k os (inl refl)).0, check_waiting-none d k os (h k os (inl refl)).1)
      (check_entries-none d m (λ j ps q. h j ps (inr q)))

module _ {T : InsertOperation → Type 0} {R P : ElementId → Type 0} {d : Document} (v : Inv T R P d)
    (g : IsGenuine T) where
  -- An operation whose element is there has its parent there.
  pub received_there : (o : InsertOperation) → T o → Has d o.ident → Has d o.parent
  received_there o t h =
      let (c, e) = lookup_of_contains o.ident d.elements h in
      let from = v.origin o.ident c e (g.not_root o t) in
      subst (λ u. Has d u.parent) (g.unique from.oper o from.received t from.ident_eq)
        from.parent_there

  waiting_absent :
      (k : ElementId) (o : InsertOperation)
      → Lacks d k
      → In o (waiting_for d k)
      → (o.parent ≡ k) × Lacks d o.ident
  waiting_absent k o l m =
      let (t, e) = v.waiting_own k o m in
      (
        e,
        elim (Bool-cases (contains o.ident d.elements)) [
          | inl h ↦ cc (subst (Lacks d) (sym e) l, received_there o t h)
          | inr n ↦ n
        ],
      )

  pub check_buffers-done : check_buffers d ≡ done d
  unfolding check_buffers
  check_buffers-done =
      let clean = check_entries-none d d.buffered_inserts λ k os m.
        let e = v.waiting_entries k os m in
        let l = v.waiting_key k (contains_of_lookup k d.buffered_inserts e) in
        (l, λ o i. waiting_absent k o l (rw e i)) in
      rw (clean, check_buffers)

-- Taking a list of waiting operations out shrinks the buffer by its length.
pub waiting_count-erase :
    (k : ElementId) (m : Map ElementId (List InsertOperation))
    → waiting_count (erase k m) + length (list_at (lookup k m)) ≤ waiting_count m
unfolding erase lookup
waiting_count-erase k [] = omega arith
waiting_count-erase k ((j, os) ∷ m) = elim (same_key j k) [
  | yes p ↦ rw (if_pos _ p, if_pos _ p) (omega (arith, waiting_count-erase k m))
  | no n ↦ rw (if_neg _ n, if_neg _ n) (omega (arith, waiting_count-erase k m))
]
