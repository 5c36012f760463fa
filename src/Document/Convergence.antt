-- ===== src/Document/Convergence.antt =====
-- Strong eventual consistency: replicas that received the same operations agree, whatever the
-- order and however often each operation came.
use crdt_networking_applicat.Prelude.{
  ℕ, zero, suc, ◌<◌, ◌≡◌, refl, sym, ap, subst, ◌∙◌, ◌≢◌, ◌↔◌, inl, inr, Bool, true, false, some,
  List, In, arith, Bool-cases, Option-cases,
}
use crdt_networking_applicat.Prelude.Maps.{
  lookup, contains, lookup_of_contains, contains_of_lookup, none_of_contains, same_key,
}
use crdt_networking_applicat.Ids.{ElementId, id_key, root_id}
use crdt_networking_applicat.Operation.{Character, InsertOperation, Operation, insert, remove}
use crdt_networking_applicat.Outcome.{done}
use crdt_networking_applicat.Document.{Document, list_at, apply_history, new_document}
use crdt_networking_applicat.Document.Siblings.{IsDescending-unique}
use crdt_networking_applicat.Document.Invariant.{IsGenuine, Has, Lacks, waiting_for}
use crdt_networking_applicat.Document.Invariant.Apply.{genuine_part}
use crdt_networking_applicat.Document.History.{Inserted, Holds, apply_history-Holds}

-- The two documents hold the same elements with the same characters and tombstones, in the same
-- tree, and the same operations wait for what is missing.
pub record Agree (d d' : Document) : Type 0 where
  pub elements : (x : ElementId) → lookup x d.elements ≡ lookup x d'.elements
  pub parents : (x : ElementId) → lookup x d.parent_of ≡ lookup x d'.parent_of
  pub children : (x : ElementId) → lookup x d.children ≡ lookup x d'.children
  pub deletes : (x : ElementId) → contains x d.buffered_deletes ≡ contains x d'.buffered_deletes
  pub waiting :
      (k : ElementId) (o : InsertOperation) → In o (waiting_for d k) ↔ In o (waiting_for d' k)

pub iff-true : (a b : Bool) → ((a ≡ true) ↔ (b ≡ true)) → a ≡ b
iff-true true true h = refl
iff-true true false h = sym (h.0 refl)
iff-true false true h = h.1 refl
iff-true false false h = refl

root_char :
    {T : InsertOperation → Type 0} {R : ElementId → Type 0} {d : Document} (v : Holds T R d)
    (x : ElementId) (c : Character)
    → lookup x d.elements ≡ some c
    → x ≡ root_id
    → c.actual_char ≡ 0
root_char {d = d} v x c e r = cc (v.root_element.1, subst (λ y. lookup y d.elements ≡ some c) r e)

-- What waits in one replica waits in the other, if that lacks the same elements.
waits_too :
    {T T' : InsertOperation → Type 0} {R R' : ElementId → Type 0} {d d' : Document}
    (v : Holds T R d) (v' : Holds T' R' d')
    → ((o : InsertOperation) → T o → T' o)
    → ((x : ElementId) → Lacks d x → Lacks d' x)
    → (k : ElementId) (o : InsertOperation) → In o (waiting_for d k)
    → In o (waiting_for d' k)
waits_too {d = d} {d' = d'} v v' sub lacks k o m =
    let (t, e) = v.waiting_own k o m in
    let key : contains k d.buffered_inserts ≡ true =
      elim (Option-cases (lookup k d.buffered_inserts)) [
        | inl nobody ↦ absurd (subst (λ l. In o (list_at l)) nobody m)
        | inr (os, found) ↦ contains_of_lookup k d.buffered_inserts found
      ] in
    subst (λ j. In o (waiting_for d' j)) e
      (v'.waits o (sub o t) (subst (Lacks d') (sym e) (lacks k (v.waiting_key k key))))

-- By induction on the rank: an element's parent came first.
pub Has-too :
    {T T' : InsertOperation → Type 0} {R R' : ElementId → Type 0} {d d' : Document}
    (v : Holds T R d) (v' : Holds T' R' d')
    → ((o : InsertOperation) → T o → T' o)
    → (n : ℕ) (x : ElementId) → v.rank x < n
    → Has d x
    → Has d' x
Has-too v v' sub zero x below h = absurd (omega arith)
Has-too {d = d} {d' = d'} v v' sub (suc n) x below h = elim (same_key x root_id) [
  | yes e ↦ subst (Has d') (sym e) (contains_of_lookup root_id d'.elements v'.root_element.1)
  | no ne ↦
      let (c, e) = lookup_of_contains x d.elements h in
      let from = v.origin x c e ne in
      let parent =
        Has-too v v' sub n from.oper.parent (omega (arith, from.after_parent)) from.parent_there in
      subst (Has d') from.ident_eq (v'.placed from.oper (sub from.oper from.received) parent)
]

module _ {T T' : InsertOperation → Type 0} {R R' : ElementId → Type 0} {d d' : Document}
    (v : Holds T R d) (v' : Holds T' R' d') (g : IsGenuine T)
    (same : (o : InsertOperation) → T o ↔ T' o) (gone : (x : ElementId) → R x ↔ R' x) where
  has_same : (x : ElementId) → contains x d.elements ≡ contains x d'.elements
  has_same x = iff-true _ _ (
    Has-too v v' (λ o. (same o).0) (suc (v.rank x)) x (omega arith),
    Has-too v' v (λ o. (same o).1) (suc (v'.rank x)) x (omega arith),
  )

  same_origin :
      (x : ElementId) (c c' : Character)
      → lookup x d.elements ≡ some c
      → lookup x d'.elements ≡ some c'
      → x ≢ root_id
      → (c.actual_char ≡ c'.actual_char) × (lookup x d.parent_of ≡ lookup x d'.parent_of)
  same_origin x c c' e e' n =
      let from = v.origin x c e n in
      let from' = v'.origin x c' e' n in
      let one =
        g.unique from.oper from'.oper from.received ((same from'.oper).1 from'.received)
          (from.ident_eq ∙ sym from'.ident_eq) in
      (
        from.char_eq ∙ ap (λ o. o.ch) one ∙ sym from'.char_eq,
        from.parent_eq ∙ ap (λ o. some o.parent) one ∙ sym from'.parent_eq,
      )

  same_char :
      (x : ElementId) (c c' : Character)
      → lookup x d.elements ≡ some c
      → lookup x d'.elements ≡ some c'
      → c.actual_char ≡ c'.actual_char
  same_char x c c' e e' = elim (same_key x root_id) [
    | yes r ↦ root_char v x c e r ∙ sym (root_char v' x c' e' r)
    | no n ↦ (same_origin x c c' e e' n).0
  ]

  same_deleted :
      (x : ElementId) (c c' : Character)
      → lookup x d.elements ≡ some c
      → lookup x d'.elements ≡ some c'
      → c.deleted ≡ c'.deleted
  same_deleted x c c' e e' = iff-true _ _ (
    λ q. (v'.removed x c' e').1 ((gone x).0 ((v.removed x c e).0 q)),
    λ q. (v.removed x c e).1 ((gone x).1 ((v'.removed x c' e').0 q)),
  )

  same_element : (x : ElementId) → lookup x d.elements ≡ lookup x d'.elements
  same_element x = elim (Bool-cases (contains x d.elements)) [
    | inl h ↦
        let (c, e) = lookup_of_contains x d.elements h in
        let (c', e') = lookup_of_contains x d'.elements (sym (has_same x) ∙ h) in
        e ∙ ap some (ground (arith, same_char x c c' e e', same_deleted x c c' e e')) ∙ sym e'
    | inr l ↦
        none_of_contains x d.elements l
        ∙ sym (none_of_contains x d'.elements (sym (has_same x) ∙ l))
  ]

  same_parent : (x : ElementId) → lookup x d.parent_of ≡ lookup x d'.parent_of
  same_parent x = elim (Bool-cases (contains x d.elements)) [
    | inl h ↦ elim (same_key x root_id) [
      | yes r ↦ rw r (v.root_parent ∙ sym v'.root_parent)
      | no n ↦
          let (c, e) = lookup_of_contains x d.elements h in
          let (c', e') = lookup_of_contains x d'.elements (sym (has_same x) ∙ h) in
          (same_origin x c c' e e' n).1
    ]
    | inr l ↦
        none_of_contains x d.parent_of (v.parent_keys x ∙ l)
        ∙ sym (none_of_contains x d'.parent_of (v'.parent_keys x ∙ sym (has_same x) ∙ l))
  ]

  same_kids : (p : ElementId) → list_at (lookup p d.children) ≡ list_at (lookup p d'.children)
  same_kids p = IsDescending-unique _ _ (v.descending p) (v'.descending p) λ x. (
    λ m. (v'.kin p x).1 (rw (same_parent x) at ((v.kin p x).0 m)),
    λ m. (v.kin p x).1 (rw (← same_parent x) at ((v'.kin p x).0 m)),
  )

  same_children : (p : ElementId) → lookup p d.children ≡ lookup p d'.children
  same_children p = elim (Bool-cases (contains p d.elements)) [
    | inl h ↦
        let (k, e) = lookup_of_contains p d.children (v.children_keys p ∙ h) in
        let (k', e') =
          lookup_of_contains p d'.children (v'.children_keys p ∙ sym (has_same p) ∙ h) in
        e ∙ ap some (ap list_at (sym e) ∙ same_kids p ∙ ap list_at e') ∙ sym e'
    | inr l ↦
        none_of_contains p d.children (v.children_keys p ∙ l)
        ∙ sym (none_of_contains p d'.children (v'.children_keys p ∙ sym (has_same p) ∙ l))
  ]

  pub Agree-of_same : Agree d d'
  Agree-of_same = record {
    elements = same_element;
    parents = same_parent;
    children = same_children;
    deletes = λ x. iff-true _ _ (
      λ q.
          let (r, l) = (v.removed_later x).0 q in
          (v'.removed_later x).1 ((gone x).0 r, sym (has_same x) ∙ l),
      λ q.
          let (r, l) = (v'.removed_later x).0 q in
          (v.removed_later x).1 ((gone x).1 r, has_same x ∙ l),
    );
    waiting = λ k o. (
      waits_too v v' (λ o'. (same o').0) (λ x l. sym (has_same x) ∙ l) k o,
      waits_too v' v (λ o'. (same o').1) (λ x l. has_same x ∙ l) k o,
    );
  }

-- Two replicas that start empty and receive the same operations, in any orders and with any
-- repetitions, end in documents that agree, and no call throws, if every id has one insertion and
-- the root has none.
pub replicas-Agree :
    (h h' : List Operation)
    → IsGenuine (Inserted h)
    → ((op : Operation) → In op h ↔ In op h')
    → (d d' : Document) × (apply_history h new_document ≡ done d)
      × (apply_history h' new_document ≡ done d')
      × Agree d d'
replicas-Agree h h' g same =
    let (d, e, v) = apply_history-Holds h g in
    let (d', e', v') = apply_history-Holds h' (genuine_part (λ o. (same (insert o)).1) g) in
    (
      d,
      d',
      e,
      e',
      Agree-of_same v v' g (λ o. same (insert o)) (λ x. same (remove (record { the_target = x }))),
    )
