-- ===== src/Document/Typing.antt =====
-- One more insertion, of an id that is newer than all others: what it does to the tree. Everything
-- follows from the invariants before and after.
pub mod Tree
pub mod Shown
use crdt_networking_applicat.Prelude.{
  ℕ, zero, suc, ◌+◌, ◌≤◌, ◌<◌, ◌≡◌, ◌≢◌, refl, sym, ap, ap₂, subst, ◌∙◌, ◌↔◌, ◌⊎◌, inl, inr, Bool,
  true, false, some, some-injective, none, List, [], ◌∷◌, ◌++◌, In, length, arith, if_pos, if_neg,
}
use crdt_networking_applicat.Prelude.Maps.{
  lookup, contains, same_key, lookup_of_contains, contains_of_lookup,
}
use crdt_networking_applicat.Ids.{ElementId, id_key, root_id, gt_ids}
use crdt_networking_applicat.Operation.{Character, InsertOperation}
use crdt_networking_applicat.Document.{Document, list_at}
use crdt_networking_applicat.Document.Siblings.{IsDescending, IsDescending-unique}
use crdt_networking_applicat.Document.Invariant.{IsGenuine, Add, Has}
use crdt_networking_applicat.Document.History.{Holds}
use crdt_networking_applicat.Document.Convergence.{Has-too, iff-true}
use crdt_networking_applicat.Document.Visit.Fold.{child_ranks}

abbrev pub kids_of : Document → ElementId → List ElementId
kids_of d y = list_at (lookup y d.children)

-- What makes an insertion the newest: nothing else speaks of its id, and all ids are smaller.
pub record IsNewest (T : InsertOperation → Type 0) (R : ElementId → Type 0) (o : InsertOperation)
    : Type 0 where
  pub genuine : IsGenuine (Add o T)
  pub no_twin : (p : InsertOperation) → T p → p.ident ≢ o.ident
  pub no_child : (p : InsertOperation) → T p → p.parent ≢ o.ident
  pub not_removed : ¬ R o.ident
  pub greatest : (p : InsertOperation) → T p → gt_ids o.ident p.ident ≡ true

module _ {T : InsertOperation → Type 0} {R : ElementId → Type 0} {d d' : Document}
    {o : InsertOperation} (v : Holds T R d) (v' : Holds (Add o T) R d') (n : IsNewest T R o)
    (there : Has d o.parent) where
  pub not_here : (y : ElementId) → Has d y → y ≢ o.ident
  not_here y h e =
      let (c, q) = lookup_of_contains y d.elements h in
      let other : y ≢ root_id = λ r. n.genuine.not_root o (inl refl) (sym e ∙ r) in
      let from = v.origin y c q other in n.no_twin from.oper from.received (from.ident_eq ∙ e)

  pub Has-still : (y : ElementId) → Has d y → Has d' y
  Has-still y = Has-too v v' (λ p t. inr t) (suc (v.rank y)) y (omega arith)

  pub ident-Has : Has d' o.ident
  ident-Has = v'.placed o (inl refl) (Has-still o.parent there)

  -- Nothing else is new.
  Has-before : (k : ℕ) (y : ElementId) → v'.rank y < k → Has d' y → y ≢ o.ident → Has d y
  Has-before zero y b h e = absurd (omega arith)
  Has-before (suc k) y b h e = elim (same_key y root_id) [
    | yes r ↦ subst (Has d) (sym r) (contains_of_lookup root_id d.elements v.root_element.1)
    | no r ↦
        let (c, q) = lookup_of_contains y d'.elements h in
        let from = v'.origin y c q r in
        elim from.received [
          | inl same ↦ absurd (e (sym from.ident_eq ∙ ap (λ p. p.ident) same))
          | inr t ↦
              let above =
                Has-before k from.oper.parent (omega (arith, from.after_parent)) from.parent_there
                  (n.no_child from.oper t) in
              subst (Has d) from.ident_eq (v.placed from.oper t above)
        ]
  ]

  pub Has-old : (y : ElementId) → Has d' y → y ≢ o.ident → Has d y
  Has-old y h e = Has-before (suc (v'.rank y)) y (omega arith) h e

  -- The insertion behind an element is the same as before.
  pub same_source :
      (y : ElementId) (c c' : Character)
      → lookup y d.elements ≡ some c
      → lookup y d'.elements ≡ some c'
      → y ≢ root_id
      → (c'.actual_char ≡ c.actual_char) × (lookup y d'.parent_of ≡ lookup y d.parent_of)
  same_source y c c' q q' r =
      let from = v.origin y c q r in
      let from' = v'.origin y c' q' r in
      let one =
        n.genuine.unique from.oper from'.oper (inr from.received) from'.received
          (from.ident_eq ∙ sym from'.ident_eq) in
      (
        from'.char_eq ∙ ap (λ p. p.ch) (sym one) ∙ sym from.char_eq,
        from'.parent_eq ∙ ap (λ p. some p.parent) (sym one) ∙ sym from.parent_eq,
      )

  pub same_parent :
      (y : ElementId) → Has d y → y ≢ root_id → lookup y d'.parent_of ≡ lookup y d.parent_of
  same_parent y h r =
      let (c, q) = lookup_of_contains y d.elements h in
      let (c', q') = lookup_of_contains y d'.elements (Has-still y h) in
      (same_source y c c' q q' r).1

  -- The new element comes from its insertion.
  pub new_source :
      (c : Character)
      → lookup o.ident d'.elements ≡ some c
      → (c.actual_char ≡ o.ch) × (lookup o.ident d'.parent_of ≡ some o.parent)
  new_source c q =
      let from = v'.origin o.ident c q (n.genuine.not_root o (inl refl)) in
      let one = n.genuine.unique from.oper o from.received (inl refl) from.ident_eq in
      (from.char_eq ∙ ap (λ p. p.ch) one, from.parent_eq ∙ ap (λ p. some p.parent) one)

  pub new_parent : lookup o.ident d'.parent_of ≡ some o.parent
  new_parent = let (c, q) = lookup_of_contains o.ident d'.elements ident-Has in (new_source c q).1

  pub kids_members :
      (y z : ElementId)
      → In z (kids_of d' y) ↔ ((In z (kids_of d y)) ⊎ ((z ≡ o.ident) × (y ≡ o.parent)))
  kids_members y z = (
    λ m.
        let (e, r) = (v'.kin y z).0 m in
        let (h, _, _) = child_ranks v' y z m in
        elim (same_key z o.ident) [
          | yes q ↦ inr (
            q,
            some-injective y o.parent (sym e ∙ ap (λ w. lookup w d'.parent_of) q ∙ new_parent),
          )
          | no q ↦ inl ((v.kin y z).1 (sym (same_parent z (Has-old z h q) r) ∙ e, r))
        ],
    λ m. elim m [
      | inl k ↦
          let (h, _, r) = child_ranks v y z k in
          (v'.kin y z).1 (same_parent z h r ∙ ((v.kin y z).0 k).0, r)
      | inr (q, e) ↦ (v'.kin y z).1 (
        ap (λ w. lookup w d'.parent_of) q ∙ new_parent ∙ ap some (sym e),
        λ r. n.genuine.not_root o (inl refl) (sym q ∙ r),
      )
    ],
  )
