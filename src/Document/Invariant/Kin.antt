-- ===== src/Document/Invariant/Kin.antt =====
-- Placing an element: the lists of children and the parents.
use crdt_networking_applicat.Prelude.{
  ◌≡◌, refl, sym, ap, subst, ◌∙◌, ◌≢◌, ◌↔◌, ◌⊎◌, inl, inr, some, List, [], ◌∷◌, ◌++◌, In, if_pos,
  if_neg,
}
use crdt_networking_applicat.Prelude.Maps.{
  lookup, contains, contains_of_lookup, none_of_contains, contains_of_none, lookup-assign_self,
  lookup-assign_ne, lookup-emplace_self, lookup-emplace_ne, contains-emplace, contains-assign,
  assign, same_key,
}
use crdt_networking_applicat.Ids.{ElementId, id_key, root_id}
use crdt_networking_applicat.Operation.{InsertOperation}
use crdt_networking_applicat.Document.{Document, list_at, place}
use crdt_networking_applicat.Document.Siblings.{
  mem-append_singleton, mem-sort_descending, sort_descending-IsDescending, IsDescending-Distinct,
  Distinct-append_singleton, sort_descending, IsDescending,
}
use crdt_networking_applicat.Document.Invariant.{Has, Lacks, Inv}
use crdt_networking_applicat.Document.Invariant.Place.{
  not_parent, no_parent, no_children, keeps_elements,
}

module _ {T : InsertOperation → Type 0} {R P : ElementId → Type 0} {d : Document} (v : Inv T R P d)
    (o : InsertOperation) (fresh : Lacks d o.ident) (there : Has d o.parent) where
  abbrev pub siblings : List ElementId
  siblings = list_at (lookup o.parent d.children) ++ o.ident ∷ []

  pub children_parent : list_at (lookup o.parent (place o d).children) ≡ sort_descending siblings
  unfolding place
  children_parent = rw lookup-assign_self

  pub children_other :
      (p : ElementId)
      → o.parent ≢ p
      → list_at (lookup p (place o d).children) ≡ list_at (lookup p d.children)
  unfolding place
  children_other p n =
      let was = assign o.parent siblings d.children in
      let old = lookup-assign_ne o.parent p siblings d.children n in
      rw (lookup-assign_ne o.parent p _ _ n) (elim (same_key o.ident p) [
        | yes e ↦
            let unknown = contains_of_none o.ident was (
              lookup-assign_ne o.parent o.ident siblings d.children
                (λ q. (not_parent v o fresh there) (sym q))
              ∙ none_of_contains o.ident d.children (no_children v o fresh there)) in
            rw (
              ← e,
              lookup-emplace_self o.ident [] was unknown,
              none_of_contains o.ident d.children (no_children v o fresh there),
            )
        | no n' ↦ rw (lookup-emplace_ne o.ident p [] was n', old)
      ])

  -- Placing changes one list of children.
  pub mem-children :
      (p x : ElementId)
      → In x (list_at (lookup p (place o d).children))
        ↔ (In x (list_at (lookup p d.children)) ⊎ ((x ≡ o.ident) × (p ≡ o.parent)))
  mem-children p x = elim (same_key o.parent p) [
    | yes e ↦
        let all = mem-append_singleton x o.ident (list_at (lookup o.parent d.children)) in
        let sorted = mem-sort_descending x siblings in
        rw (← e, children_parent)
          (
            λ m. elim (all.0 (sorted.0 m)) [ inl old ↦ inl old | inr e' ↦ inr (e', refl) ],
            elim [ inl old ↦ sorted.1 (all.1 (inl old)) | inr e' ↦ sorted.1 (all.1 (inr e'.0)) ],
          )
    | no n ↦
        rw (children_other p n) (λ m. inl m, elim [ inl old ↦ old | inr e ↦ absurd (n (sym e.1)) ])
  ]

  pub new-IsDescending : (p : ElementId) → IsDescending (list_at (lookup p (place o d).children))
  new-IsDescending p = elim (same_key o.parent p) [
    | yes e ↦
        let old = list_at (lookup o.parent d.children) in
        rw (← e, children_parent)
          (sort_descending-IsDescending siblings (
            Distinct-append_singleton old o.ident
              (IsDescending-Distinct old (v.descending o.parent))
              (λ m. cc (
                (no_parent v o fresh there),
                contains_of_lookup o.ident d.parent_of ((v.kin o.parent o.ident).0 m).0,
              ))))
    | no n ↦ rw (children_other p n) (v.descending p)
  ]

  pub kin_of_new :
      (p : ElementId) → In o.ident (list_at (lookup p (place o d).children)) ↔ (o.parent ≡ p)
  kin_of_new p = (
    λ m. elim ((mem-children p o.ident).0 m) [
      | inl old ↦ cc (
        (no_parent v o fresh there),
        contains_of_lookup o.ident d.parent_of ((v.kin p o.ident).0 old).0,
      )
      | inr e ↦ sym e.1
    ],
    λ e. (mem-children p o.ident).1 (inr (refl, sym e)),
  )

  pub new_kin :
      (not_root : o.ident ≢ root_id) (p x : ElementId)
      → In x (list_at (lookup p (place o d).children))
        ↔ ((lookup x (place o d).parent_of ≡ some p) × (x ≢ root_id))
  unfolding place
  new_kin not_root p x =
      let mem = mem-children p x in
      let kin = v.kin p x in
      elim (same_key o.ident x) [
        | yes e ↦
            rw (← e, lookup-emplace_self o.ident o.parent d.parent_of (no_parent v o fresh there))
              (λ m. (ap some ((kin_of_new p).0 m), not_root), λ k. (kin_of_new p).1 (cc k.0))
        | no n ↦ rw (lookup-emplace_ne o.ident x o.parent d.parent_of n) (
          λ m. elim (mem.0 m) [ inl old ↦ kin.0 old | inr e ↦ absurd (n (sym e.0)) ],
          λ k. mem.1 (inl (kin.1 k)),
        )
      ]

  pub new_children_keys :
      (x : ElementId) → contains x (place o d).children ≡ contains x (place o d).elements
  unfolding place
  new_children_keys x = elim (same_key o.parent x) [
    | yes e ↦
        rw (contains-assign, if_pos _ e)
          (sym (subst (Has (place o d)) e (keeps_elements v o fresh there o.parent there)))
    | no n ↦
        let was = assign o.parent siblings d.children in
        rw (contains-assign o.parent x, if_neg _ n, contains-emplace o.ident x [] was)
          (rw (contains-assign o.parent x, if_neg _ n, v.children_keys x, contains-emplace))
  ]

  pub new_parent_keys :
      (x : ElementId) → contains x (place o d).parent_of ≡ contains x (place o d).elements
  unfolding place
  new_parent_keys x = rw (contains-emplace, contains-emplace, v.parent_keys x)
