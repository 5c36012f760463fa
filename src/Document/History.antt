-- ===== src/Document/History.antt =====
-- Document::apply over a whole history: it returns, throws nothing, and keeps the invariant.
use crdt_networking_applicat.Prelude.{
  suc, ◌≡◌, refl, ◌↔◌, ◌⊎◌, inl, inr, List, [], ◌∷◌, In, arith, Bool-cases,
}
use crdt_networking_applicat.Prelude.Maps.{contains}
use crdt_networking_applicat.Ids.{ElementId, id_key}
use crdt_networking_applicat.Operation.{InsertOperation, RemoveOperation, Operation, insert, remove}
use crdt_networking_applicat.Outcome.{done}
use crdt_networking_applicat.Document.{
  Document, apply, apply_insert, apply_delete, apply_history, new_document, buffer_insert,
  waiting_count,
}
use crdt_networking_applicat.Document.Invariant.{IsGenuine, Add, Has, Lacks, Inv}
use crdt_networking_applicat.Document.Invariant.Buffer.{Inv-change, known-Inv, buffer_insert-Inv}
use crdt_networking_applicat.Document.Invariant.Apply.{apply_insert-Applied, genuine_part}
use crdt_networking_applicat.Document.Invariant.Delete.{AddId, apply_delete-Inv, new_document-Inv}

-- The inserts and the removals of a history.
abbrev pub Inserted : List Operation → InsertOperation → Type 0
Inserted h o = In (insert o) h

abbrev pub Removed : List Operation → ElementId → Type 0
Removed h x = In (remove (record { the_target = x })) h

-- The state after a history, between two calls of apply: nothing is in flight.
abbrev pub Holds : (InsertOperation → Type 0) → (ElementId → Type 0) → Document → Type 0
Holds T R d = Inv T R (λ x. ⊥) d

module _ {T : InsertOperation → Type 0} {R : ElementId → Type 0} {d : Document}
    (v : Holds T R d) where
  buffered :
      (o : InsertOperation)
      → IsGenuine (Add o T)
      → Lacks d o.parent
      → (d' : Document) × (apply d (insert o) ≡ done d') × Holds (Add o T) R d'
  unfolding apply apply_insert
  buffered o g missing = elim (Bool-cases (contains o.ident d.elements)) [
    | inl known ↦ (d, rw known, known-Inv v o g known)
    | inr fresh ↦
        (buffer_insert o d, rw (fresh, missing), buffer_insert-Inv v o fresh missing g (λ m. m))
  ]

  nested :
      (o : InsertOperation)
      → IsGenuine (Add o T)
      → Has d o.parent
      → (d' : Document) × (apply d (insert o) ≡ done d') × Holds (Add o T) R d'
  unfolding apply
  nested o g there =
      let r =
        apply_insert-Applied (suc (waiting_count d.buffered_inserts)) T R (λ x. ⊥) d o v g there
          (omega arith) in
      (r.after, r.returns, Inv-change (λ o'. ((λ t. t), λ t. t)) (λ x l p. p.0) r.inv)

  pub apply-insert_Holds :
      (o : InsertOperation)
      → IsGenuine (Add o T)
      → (d' : Document) × (apply d (insert o) ≡ done d') × Holds (Add o T) R d'
  apply-insert_Holds o g = elim (Bool-cases (contains o.parent d.elements)) [
    | inl there ↦ nested o g there
    | inr missing ↦ buffered o g missing
  ]

module _ {T T' : InsertOperation → Type 0} {R R' : ElementId → Type 0} {d : Document} where
  -- The removals may be replaced by the same removals.
  pub Holds-change :
      ((o : InsertOperation) → T o ↔ T' o)
      → ((x : ElementId) → R x ↔ R' x)
      → Holds T R d
      → Holds T' R' d
  Holds-change same gone v =
      let w = Inv-change same (λ x l p. p) v in
      record {
        rank = w.rank;
        rank_lt = w.rank_lt;
        root_element = w.root_element;
        root_parent = w.root_parent;
        placed = w.placed;
        origin = w.origin;
        removed = λ x c h.
            ((λ q. (gone x).0 ((w.removed x c h).0 q)), λ r. (w.removed x c h).1 ((gone x).1 r));
        removed_later = λ x. (
          λ q. let (r, l) = (w.removed_later x).0 q in ((gone x).0 r, l),
          λ r. (w.removed_later x).1 ((gone x).1 r.0, r.1),
        );
        waits = w.waits;
        waiting_own = w.waiting_own;
        waiting_key = w.waiting_key;
        waiting_entries = w.waiting_entries;
        waiting_ids = w.waiting_ids;
        children_keys = w.children_keys;
        parent_keys = w.parent_keys;
        descending = w.descending;
        kin = w.kin;
      }

abbrev Received : List Operation → (InsertOperation → Type 0) → InsertOperation → Type 0
Received h T o = Inserted h o ⊎ T o

abbrev Gone : List Operation → (ElementId → Type 0) → ElementId → Type 0
Gone h R x = Removed h x ⊎ R x

module _ (h : List Operation) (T : InsertOperation → Type 0) (R : ElementId → Type 0) where
  Received-insert :
      (o o' : InsertOperation) → Received h (Add o T) o' ↔ Received (insert o ∷ h) T o'
  Received-insert o o' = (ground arith, ground arith)

  Received-remove :
      (o : RemoveOperation) (o' : InsertOperation) → Received h T o' ↔ Received (remove o ∷ h) T o'
  Received-remove o o' = (ground arith, ground arith)

  Gone-insert : (o : InsertOperation) (x : ElementId) → Gone h R x ↔ Gone (insert o ∷ h) R x
  Gone-insert o x = (ground arith, ground arith)

  Gone-remove :
      (o : RemoveOperation) (x : ElementId)
      → Gone h (AddId o.the_target R) x ↔ Gone (remove o ∷ h) R x
  Gone-remove o x = (ground arith, ground arith)

apply_history-Holds_from :
    (h : List Operation) (T : InsertOperation → Type 0) (R : ElementId → Type 0) (d : Document)
    → Holds T R d
    → IsGenuine (Received h T)
    → (d' : Document) × (apply_history h d ≡ done d') × Holds (Received h T) (Gone h R) d'
unfolding apply_history apply
apply_history-Holds_from [] T R d v g = (
  d,
  refl,
  Holds-change (λ o. (inr, elim [ inl m ↦ absurd m | inr t ↦ t ]))
      (λ x. (inr, elim [ inl m ↦ absurd m | inr t ↦ t ])) v,
)
apply_history-Holds_from (insert o ∷ h) T R d v g =
    let same = Received-insert h T R o in
    let g' = genuine_part (λ o'. (same o').0) g in
    let (d', e, v') = apply-insert_Holds v o (genuine_part (λ o'. inr) g') in
    let (d'', e', v'') = apply_history-Holds_from h (Add o T) R d' v' g' in
    (d'', rw e e', Holds-change same (Gone-insert h T R o) v'')
apply_history-Holds_from (remove o ∷ h) T R d v g =
    let same = Received-remove h T R o in
    let (d'', e', v'') =
      apply_history-Holds_from h T (AddId o.the_target R) (apply_delete d o) (apply_delete-Inv o v)
        (genuine_part (λ o'. (same o').0) g) in
    (d'', e', Holds-change same (Gone-remove h T R o) v'')

-- A history in which every id has one insertion and the root has none, in any order and with
-- repetitions, is applied to the new document without an exception and without running out of
-- fuel, and the invariant holds of the result.
pub apply_history-Holds :
    (h : List Operation)
    → IsGenuine (Inserted h)
    → (d : Document) × (apply_history h new_document ≡ done d) × Holds (Inserted h) (Removed h) d
apply_history-Holds h g =
    let (d, e, v) =
      apply_history-Holds_from h (λ o. ⊥) (λ x. ⊥) new_document new_document-Inv
        (genuine_part (λ o. elim [ inl m ↦ m | inr t ↦ absurd t ]) g) in
    (
      d,
      e,
      Holds-change (λ o. (elim [ inl m ↦ m | inr t ↦ absurd t ], inl))
          (λ x. (elim [ inl m ↦ m | inr t ↦ absurd t ], inl)) v,
    )
