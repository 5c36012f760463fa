-- ===== src/Document/Invariant/Delete.antt =====
-- applyDelete keeps the invariant: a tombstone for an element that is there, a note for one that
-- is not. And the invariant holds of the new document.
use crdt_networking_applicat.Prelude.{
  ◌≡◌, refl, sym, ap, subst, ◌∙◌, ◌↔◌, ◌⊎◌, inl, inr, Bool, true, false, some, some-injective, List,
  [], ◌∷◌, In, arith, if_pos, if_neg, Bool-cases, ite,
}
use crdt_networking_applicat.Prelude.Maps.{
  lookup, contains, modify, emplace, lookup_of_contains, contains_of_lookup, lookup-modify_ne,
  lookup-modify-some, contains-modify, contains-emplace_self, contains-emplace_ne, length-modify,
  same_key,
}
use crdt_networking_applicat.Ids.{ElementId, id_key, root_id}
use crdt_networking_applicat.Operation.{Character, set_deleted, InsertOperation, RemoveOperation}
use crdt_networking_applicat.Document.{Document, list_at, apply_delete, new_document}
use crdt_networking_applicat.Document.Invariant.{Has, Lacks, Origin, Inv, waiting_for}

abbrev pub AddId : ElementId → (ElementId → Type 0) → ElementId → Type 0
AddId y R x = (x ≡ y) ⊎ R x

module _ {T : InsertOperation → Type 0} {R P : ElementId → Type 0} {d : Document} (v : Inv T R P d)
    (t : ElementId) where
  -- The element with the tombstone, or without.
  abbrev buried : Document
  buried = record d { elements = modify t (set_deleted true) d.elements }

  abbrev noted : Document
  noted = record d { buffered_deletes = emplace t tt d.buffered_deletes }

  same_has : (x : ElementId) → contains x buried.elements ≡ contains x d.elements
  same_has x = contains-modify t x (set_deleted true) d.elements

  -- An element of the new document is one of the old with its character.
  was :
      (x : ElementId) (c : Character)
      → lookup x buried.elements ≡ some c
      → (c' : Character) × (lookup x d.elements ≡ some c')
        × (c.actual_char ≡ c'.actual_char)
        × ((c.deleted ≡ true) ↔ ((x ≡ t) ⊎ (c'.deleted ≡ true)))
  was x c h =
      let (c', e) =
        lookup_of_contains x d.elements
          (sym (same_has x) ∙ contains_of_lookup x buried.elements h) in
      elim (same_key t x) [
        | yes p ↦
            let dead : c ≡ set_deleted true c' = some-injective c (set_deleted true c') (
              sym h
              ∙ subst (λ y. lookup y buried.elements ≡ some (set_deleted true c')) p
                  (lookup-modify-some t (set_deleted true) d.elements c' (rw p e))) in
            (c', e, ap (λ w. w.actual_char) dead, (λ _. inl (sym p), λ _. ap (λ w. w.deleted) dead))
        | no n ↦
            let same : c ≡ c' =
              some-injective c c'
                (sym h ∙ lookup-modify_ne t x (set_deleted true) d.elements n ∙ e) in
            (
              c',
              e,
              ap (λ w. w.actual_char) same,
              (
                λ q. inr (sym (ap (λ w. w.deleted) same) ∙ q),
                elim [ inl q ↦ absurd (n (sym q)) | inr q ↦ ap (λ w. w.deleted) same ∙ q ],
              ),
            )
      ]

  buried-Origin :
      (x : ElementId) (c c' : Character)
      → c.actual_char ≡ c'.actual_char
      → Origin T v.rank d.elements d.parent_of x c'
      → Origin T v.rank buried.elements d.parent_of x c
  buried-Origin x c c' e r = record {
    oper = r.oper;
    received = r.received;
    ident_eq = r.ident_eq;
    char_eq = e ∙ r.char_eq;
    parent_eq = r.parent_eq;
    parent_there = same_has r.oper.parent ∙ r.parent_there;
    after_parent = r.after_parent;
  }

  buried_root :
      (b : Bool) × (lookup root_id buried.elements ≡ some (record { actual_char = 0; deleted = b }))
  buried_root =
      let (b, e) = v.root_element in
      elim (same_key t root_id) [
        | yes p ↦ (
          true,
          subst (λ y. lookup y buried.elements ≡ some (record { actual_char = 0; deleted = true }))
              p
              (lookup-modify-some t (set_deleted true) d.elements
                (record { actual_char = 0; deleted = b }) (rw p e)),
        )
        | no n ↦ (b, lookup-modify_ne t root_id (set_deleted true) d.elements n ∙ e)
      ]

  buried-Inv : Has d t → Inv T (AddId t R) P buried
  buried-Inv there = record {
    rank = v.rank;
    rank_lt = λ x h.
        omega (
          arith,
          v.rank_lt x (sym (same_has x) ∙ h),
          length-modify t (set_deleted true) d.elements,
        );
    root_element = buried_root;
    root_parent = v.root_parent;
    placed = λ o r h. same_has o.ident ∙ v.placed o r (sym (same_has o.parent) ∙ h);
    origin = λ x c h n. let (c', e, q, _) = was x c h in buried-Origin x c c' q (v.origin x c' e n);
    removed = λ x c h.
        let (c', e, _, iff) = was x c h in
        (
          λ q. elim (iff.0 q) [ inl s ↦ inl s | inr s ↦ inr ((v.removed x c' e).0 s) ],
          elim [ inl s ↦ iff.1 (inl s) | inr r ↦ iff.1 (inr ((v.removed x c' e).1 r)) ],
        );
    removed_later = λ x. (
      λ q. let (r, l) = (v.removed_later x).0 q in (inr r, same_has x ∙ l),
      λ r. (v.removed_later x).1 (
        elim r.0 [ inl e ↦ cc (sym (same_has x) ∙ r.1, subst (Has d) (sym e) there) | inr q ↦ q ],
        sym (same_has x) ∙ r.1,
      ),
    );
    waits = λ o r l. v.waits o r (sym (same_has o.parent) ∙ l);
    waiting_own = v.waiting_own;
    waiting_key = λ k h. same_has k ∙ v.waiting_key k h;
    waiting_entries = v.waiting_entries;
    waiting_ids = λ x h. let (l, w) = v.waiting_ids x h in (same_has x ∙ l, w);
    children_keys = λ x. v.children_keys x ∙ sym (same_has x);
    parent_keys = λ x. v.parent_keys x ∙ sym (same_has x);
    descending = v.descending;
    kin = v.kin;
  }

  noted-Inv : Lacks d t → Inv T (AddId t R) P noted
  noted-Inv missing = record {
    rank = v.rank;
    rank_lt = v.rank_lt;
    root_element = v.root_element;
    root_parent = v.root_parent;
    placed = v.placed;
    origin = v.origin;
    removed = λ x c h. (
      (λ q. inr ((v.removed x c h).0 q)),
      elim [
        | inl e ↦ cc (missing, subst (Has d) e (contains_of_lookup x d.elements h))
        | inr r ↦ (v.removed x c h).1 r
      ],
    );
    removed_later = λ x. elim (same_key t x) [
      | yes p ↦
          rw (← p) (λ _. (inl refl, missing), λ _. contains-emplace_self t tt d.buffered_deletes)
      | no n ↦ rw (contains-emplace_ne t x tt d.buffered_deletes n) (
        λ q. let (r, l) = (v.removed_later x).0 q in (inr r, l),
        λ r. (v.removed_later x).1 (elim r.0 [ inl e ↦ absurd (n (sym e)) | inr q ↦ q ], r.1),
      )
    ];
    waits = v.waits;
    waiting_own = v.waiting_own;
    waiting_key = v.waiting_key;
    waiting_entries = v.waiting_entries;
    waiting_ids = v.waiting_ids;
    children_keys = v.children_keys;
    parent_keys = v.parent_keys;
    descending = v.descending;
    kin = v.kin;
  }

pub apply_delete-Inv :
    {T : InsertOperation → Type 0} {R P : ElementId → Type 0} {d : Document} (o : RemoveOperation)
    → Inv T R P d
    → Inv T (AddId o.the_target R) P (apply_delete d o)
unfolding apply_delete
apply_delete-Inv {d = d} o v = elim (Bool-cases (contains o.the_target d.elements)) [
  | inl there ↦ rw there (buried-Inv v o.the_target there)
  | inr missing ↦ rw missing (noted-Inv v o.the_target missing)
]

module _ {V : Type 0} (w : V) (x : ElementId) where
  only_root : (c : V) → lookup x ((root_id, w) ∷ []) ≡ some c → (root_id ≡ x) × (c ≡ w)
  unfolding lookup
  only_root c h = elim (same_key root_id x) [
    | yes p ↦ (p, some-injective c w (sym h ∙ if_pos (same_key root_id x) p _ _))
    | no n ↦ cc (sym h ∙ if_neg (same_key root_id x) n _ _)
  ]

  contains_root : contains x ((root_id, w) ∷ []) ≡ ite (same_key root_id x) true false
  unfolding contains lookup
  contains_root = elim (same_key root_id x) [
    | yes p ↦ rw (if_pos _ p, if_pos _ p)
    | no n ↦ rw (if_neg _ n, if_neg _ n)
  ]

clash : ¬ (true ≡ false)
clash e = cc

nothing_buffered : (V : Type 0) (x : ElementId) → contains {V = V} x [] ≡ false
unfolding contains lookup
nothing_buffered V x = refl

no_waiting : (k : ElementId) (o : InsertOperation) → ¬ In o (waiting_for new_document k)
unfolding new_document lookup
no_waiting k o m = m

no_children :
    (p : ElementId) → ◌≡◌ {A = List ElementId} (list_at (lookup p ((root_id, []) ∷ []))) []
unfolding lookup
no_children p = elim (same_key root_id p) [ yes e ↦ rw (if_pos _ e) | no n ↦ rw (if_neg _ n) ]

pub new_document-Inv : Inv (λ o. ⊥) (λ x. ⊥) (λ x. ⊥) new_document
unfolding new_document
new_document-Inv = record {
  rank = λ x. 0;
  rank_lt = λ x h. omega arith;
  root_element = (false, unfold lookup in if_pos (same_key root_id root_id) refl _ _);
  root_parent = unfold lookup in if_pos (same_key root_id root_id) refl _ _;
  placed = λ o t. absurd t;
  origin = λ x c e n. absurd (n (sym (only_root _ x c e).0));
  removed = λ x c e. ((λ q. cc (q, (only_root _ x c e).1)), λ r. absurd r);
  removed_later = λ x. (λ e. absurd (clash (sym e ∙ nothing_buffered _ x)), λ r. absurd r.0);
  waits = λ o t. absurd t;
  waiting_own = λ k o m. absurd (no_waiting k o m);
  waiting_key = λ k e. absurd (clash (sym e ∙ nothing_buffered _ k));
  waiting_entries = λ k v m. absurd m;
  waiting_ids = λ x e. absurd (clash (sym e ∙ nothing_buffered _ x));
  children_keys = λ x. contains_root _ x ∙ sym (contains_root _ x);
  parent_keys = λ x. contains_root _ x ∙ sym (contains_root _ x);
  descending = λ p. rw (no_children p) tt;
  kin = λ p x.
      rw (no_children p) (λ m. absurd m, λ k. absurd (k.1 (sym (only_root root_id x p k.0).0)));
}
