-- ===== src/Document/Invariant/Settle.antt =====
-- The branch of applyInsert that places an element keeps the invariant. The operations that
-- waited for it leave the buffer, so they count as not received, and their ids as in flight.
use crdt_networking_applicat.Prelude.{
  ◌≡◌, refl, sym, subst, ◌∙◌, ◌≢◌, ◌↔◌, ◌⊎◌, inl, inr, true, false, none, List, In,
}
use crdt_networking_applicat.Prelude.Maps.{
  Map, lookup, contains, lookup_of_contains, contains_of_lookup, contains_of_none,
  contains-erase_self, contains-erase_ne, erase, same_key, IsFunctional,
}
use crdt_networking_applicat.Ids.{ElementId, id_key}
use crdt_networking_applicat.Operation.{InsertOperation}
use crdt_networking_applicat.Document.{Document, list_at, place}
use crdt_networking_applicat.Document.Invariant.{IsGenuine, Add, Has, Lacks, Inv, waiting_for}
use crdt_networking_applicat.Document.Invariant.Place.{
  Rest, Loose, settled, keeps_elements, lacked_element, still-Lacks, new_rank, new_rank_lt,
  new-Origin, new_removed, new_removed_later, new_root_element, new_root_parent, new_placed,
}
use crdt_networking_applicat.Document.Invariant.Kin.{
  new-IsDescending, new_kin, new_children_keys, new_parent_keys,
}

module _ {T : InsertOperation → Type 0} {R P : ElementId → Type 0} {d : Document} (v : Inv T R P d)
    (o : InsertOperation) (g : IsGenuine (Add o T)) (fresh : Lacks d o.ident)
    (there : Has d o.parent) (bs : Map ElementId (List InsertOperation))
    (bs_self : lookup o.ident bs ≡ none)
    (bs_ne : (k : ElementId) → o.ident ≢ k → lookup k bs ≡ lookup k d.buffered_inserts)
    (bs_entries : IsFunctional bs) where
  still_waiting :
      (k : ElementId) (w : InsertOperation)
      → o.ident ≢ k
      → In w (waiting_for d k) ↔ In w (waiting_for (settled o d bs) k)
  still_waiting k w n = rw (bs_ne k n) (λ m. m, λ m. m)

  waits_left :
      (k : ElementId) (w : InsertOperation)
      → In w (waiting_for (settled o d bs) k)
      → (o.ident ≢ k) × In w (waiting_for d k)
  waits_left k w m = elim (same_key o.ident k) [
    | yes e ↦ absurd (subst (λ l. In w (list_at l)) (subst (λ j. lookup j bs ≡ none) e bs_self) m)
    | no n ↦ (n, (still_waiting k w n).1 m)
  ]

  keep_waiting :
      (x : ElementId)
      → o.ident ≢ x
      → Lacks d x × (((w : InsertOperation) × In w (waiting_for d w.parent) × (w.ident ≡ x)) ⊎ P x)
      → Lacks (place o d) x
        × (((w : InsertOperation) × In w (waiting_for (settled o d bs) w.parent) × (w.ident ≡ x))
            ⊎ Loose o d P x)
  keep_waiting x n (l, inl (w, m, e)) = (
    still-Lacks v o fresh there x n l,
    elim (same_key o.ident w.parent) [
      | yes q ↦ inr (inr (w, subst (λ k. In w (waiting_for d k)) (sym q) m, e))
      | no q ↦ inl (w, (still_waiting w.parent w q).0 m, e)
    ],
  )
  keep_waiting x n (l, inr p) = (still-Lacks v o fresh there x n l, inr (inl (p, λ e. n (sym e))))

  new_waiting_key : (k : ElementId) → contains k bs ≡ true → Lacks (place o d) k
  new_waiting_key k h = elim (same_key o.ident k) [
    | yes e ↦ cc (h, contains_of_none k bs (subst (λ j. lookup j bs ≡ none) e bs_self))
    | no n ↦
        let (ws, e) = lookup_of_contains k bs h in
        still-Lacks v o fresh there k n
          (v.waiting_key k (contains_of_lookup k d.buffered_inserts (sym (bs_ne k n) ∙ e)))
  ]

  new_waiting_ids :
      (x : ElementId)
      → contains x (place o d).buffered_insert_ids ≡ true
      → Lacks (place o d) x
        × (((w : InsertOperation) × In w (waiting_for (settled o d bs) w.parent) × (w.ident ≡ x))
            ⊎ Loose o d P x)
  unfolding place
  new_waiting_ids x h = elim (same_key o.ident x) [
    | yes e ↦ cc (
      h,
      subst (λ y. contains y (erase o.ident d.buffered_insert_ids) ≡ false) e
          (contains-erase_self o.ident d.buffered_insert_ids),
    )
    | no n ↦
        keep_waiting x n
          (v.waiting_ids x (sym (contains-erase_ne o.ident x d.buffered_insert_ids n) ∙ h))
  ]

  pub settled-Inv : Inv (Rest o T) R (Loose o d P) (settled o d bs)
  settled-Inv =
      let not_root = g.not_root o (inl refl) in
      record {
        rank = new_rank v o fresh there;
        rank_lt = new_rank_lt v o fresh there;
        root_element = new_root_element v o fresh there not_root;
        root_parent = new_root_parent v o fresh there not_root;
        placed = new_placed v o fresh there;
        origin = new-Origin v o fresh there;
        removed = new_removed v o fresh there;
        removed_later = new_removed_later v o fresh there;
        waits = λ w t l. elim t [
          | inl e ↦ cc (
            subst (λ u. Lacks (place o d) u.parent) e l,
            keeps_elements v o fresh there o.parent there,
          )
          | inr old ↦
              (still_waiting w.parent w (λ e. old.1 (sym e))).0
                (v.waits w old.0 (lacked_element v o fresh there w.parent l).0)
        ];
        waiting_own = λ k w m.
            let (n, old) = waits_left k w m in
            let (t, e) = v.waiting_own k w old in (inr (t, λ q. n (sym q ∙ e)), e);
        waiting_key = new_waiting_key;
        waiting_entries = bs_entries;
        waiting_ids = new_waiting_ids;
        children_keys = new_children_keys v o fresh there;
        parent_keys = new_parent_keys v o fresh there;
        descending = new-IsDescending v o fresh there;
        kin = new_kin v o fresh there not_root;
      }
