-- ===== src/Document/Invariant/Apply.antt =====
-- applyInsert keeps the invariant, throws nothing and never runs out of fuel.
use crdt_networking_applicat.Prelude.{
  ℕ, zero, suc, ◌+◌, ◌≤◌, ◌<◌, ◌≡◌, refl, sym, ap, subst, ◌∙◌, ◌≢◌, ◌⊎◌, inl, inr, none, some, List,
  [], ◌∷◌, In, arith, length, Bool-cases, Option-cases,
}
use crdt_networking_applicat.Prelude.Maps.{
  lookup, contains, erase, lookup-erase_self, lookup-erase_ne, erase-IsFunctional, same_key,
}
use crdt_networking_applicat.Ids.{ElementId, id_key}
use crdt_networking_applicat.Operation.{InsertOperation}
use crdt_networking_applicat.Outcome.{Outcome, done}
use crdt_networking_applicat.Document.{
  Document, place, apply_each, release, apply_insert, waiting_count,
}
use crdt_networking_applicat.Document.Invariant.{IsGenuine, Add, Has, Lacks, Inv, waiting_for}
use crdt_networking_applicat.Document.Invariant.Buffer.{Inv-change, known-Inv}
use crdt_networking_applicat.Document.Invariant.Place.{
  Rest, Loose, settled, keeps_elements, Has-placed,
}
use crdt_networking_applicat.Document.Invariant.Settle.{settled-Inv}
use crdt_networking_applicat.Document.Invariant.Check.{check_buffers-done, waiting_count-erase}

-- The call returns, in a document that keeps the elements and buffers no more than before.
pub record Applied (T : InsertOperation → Type 0) (R P : ElementId → Type 0) (d : Document)
    (r : Outcome Document) : Type 0 where
  pub after : Document
  pub returns : r ≡ done after
  pub inv : Inv T R P after
  pub keeps : (x : ElementId) → Has d x → Has after x
  pub no_more : waiting_count after.buffered_inserts ≤ waiting_count d.buffered_inserts

abbrev pub Without : (ElementId → Type 0) → ElementId → ElementId → Type 0
Without P y x = P x × (x ≢ y)

abbrev WithoutAll : (ElementId → Type 0) → List InsertOperation → ElementId → Type 0
WithoutAll P ws x = P x × ((w : InsertOperation) → In w ws → w.ident ≢ x)

abbrev AddAll : List InsertOperation → (InsertOperation → Type 0) → InsertOperation → Type 0
AddAll ws T o = In o ws ⊎ T o

pub genuine_part :
    {U V : InsertOperation → Type 0}
    → ((o : InsertOperation) → V o → U o)
    → IsGenuine U
    → IsGenuine V
genuine_part sub g = record {
  unique = λ o o' p q. g.unique o o' (sub o p) (sub o' q);
  not_root = λ o p. g.not_root o (sub o p);
}

-- What a nested call with this fuel does for an operation whose parent is there.
abbrev pub Nested : ℕ → Type 1
Nested fuel =
    (T : InsertOperation → Type 0) (R P : ElementId → Type 0) (d : Document) (o : InsertOperation)
    → Inv T R P d
    → IsGenuine (Add o T)
    → Has d o.parent
    → waiting_count d.buffered_inserts < fuel
    → Applied (Add o T) R (Without P o.ident) d (apply_insert fuel d o)

module _ (fuel : ℕ) (nested : Nested fuel) where
  apply_each-Applied :
      (ws : List InsertOperation) (T : InsertOperation → Type 0) (R P : ElementId → Type 0)
      (d : Document)
      → Inv T R P d
      → IsGenuine (AddAll ws T)
      → ((w : InsertOperation) → In w ws → Has d w.parent)
      → length ws + waiting_count d.buffered_inserts ≤ fuel
      → Applied (AddAll ws T) R (WithoutAll P ws) d (apply_each (apply_insert fuel) ws d)
  unfolding apply_each
  apply_each-Applied [] T R P d v g there enough = record {
    after = d;
    returns = refl;
    inv =
        Inv-change (λ o. (inr, elim [ inl m ↦ absurd m | inr t ↦ t ]))
          (λ x l p. (p, λ w m. absurd m)) v;
    keeps = λ x h. h;
    no_more = omega arith;
  }
  apply_each-Applied (w ∷ ws) T R P d v g there enough =
      let one =
        nested T R P d w v (genuine_part (λ o. elim [ inl e ↦ inl (inl e) | inr t ↦ inr t ]) g)
          (there w (inl refl)) (omega arith) in
      let rest =
        apply_each-Applied ws (Add w T) R (Without P w.ident) one.after one.inv
          (genuine_part
            (λ o. elim [ inl m ↦ inl (inr m) | inr (inl e) ↦ inl (inl e) | inr (inr t) ↦ inr t ]) g)
          (λ u m. one.keeps u.parent (there u (inr m))) (omega (arith, one.no_more)) in
      record {
        after = rest.after;
        returns = rw one.returns rest.returns;
        inv =
            Inv-change
              (λ o. (
                elim [ inl m ↦ inl (inr m) | inr (inl e) ↦ inl (inl e) | inr (inr t) ↦ inr t ],
                elim [ inl (inl e) ↦ inr (inl e) | inl (inr m) ↦ inl m | inr t ↦ inr (inr t) ],
              ))
              (λ x l p. (
                p.0.0,
                λ u. elim [ inl e ↦ λ q. p.0.1 (sym q ∙ ap (λ y. y.ident) e) | inr m ↦ p.1 u m ],
              ))
              rest.inv;
        keeps = λ x h. rest.keeps x (one.keeps x h);
        no_more = omega (arith, one.no_more, rest.no_more);
      }

module _ (fuel : ℕ) (nested : Nested fuel) (T : InsertOperation → Type 0) (R P : ElementId → Type 0)
    (d : Document) (o : InsertOperation) (v : Inv T R P d) (g : IsGenuine (Add o T))
    (fresh : Lacks d o.ident) (there : Has d o.parent)
    (enough : waiting_count d.buffered_inserts ≤ fuel) where
  release_nobody :
      lookup o.ident d.buffered_inserts ≡ none
      → Applied (Add o T) R (Without P o.ident) d (release (apply_insert fuel) o.ident (place o d))
  unfolding place release
  release_nobody nobody =
      let none_waits : (w : InsertOperation) → ¬ In w (waiting_for d o.ident) =
        λ w m. rw nobody at m in
      rw (nobody, release)
        (record {
          after = place o d;
          returns = refl;
          inv =
              Inv-change
                (λ o'. (
                  elim [ inl e ↦ inl e | inr t ↦ inr t.0 ],
                  elim [
                    | inl e ↦ inl e
                    | inr t ↦ inr (
                      t,
                      λ e. none_waits o' (
                          subst (λ k. In o' (waiting_for d k)) e
                            (v.waits o' t (subst (Lacks d) (sym e) fresh))),
                    )
                  ],
                ))
                (λ x l. elim [ inl p ↦ p | inr w ↦ absurd (none_waits w.0 w.1) ])
                (settled-Inv v o g fresh there d.buffered_inserts nobody (λ k n. refl)
                  v.waiting_entries);
          keeps = keeps_elements v o fresh there;
          no_more = omega arith;
        })

  -- The operations that waited for `o` are taken out, applied and checked.
  release_waiting :
      (ws : List InsertOperation)
      → lookup o.ident d.buffered_inserts ≡ some ws
      → Applied (Add o T) R (Without P o.ident) d (release (apply_insert fuel) o.ident (place o d))
  unfolding place release
  release_waiting ws found =
      let bs = erase o.ident d.buffered_inserts in
      let to_wait : (w : InsertOperation) → In w ws → In w (waiting_for d o.ident) =
        λ w m. rw found m in
      let of_wait : (w : InsertOperation) → In w (waiting_for d o.ident) → In w ws =
        λ w m. rw found at m in
      let split : (o' : InsertOperation) → T o' → AddAll ws (Rest o T) o' = λ o' t.
        elim (same_key o'.parent o.ident) [
          | yes e ↦ inl (
              of_wait o' (
                subst (λ k. In o' (waiting_for d k)) e
                  (v.waits o' t (subst (Lacks d) (sym e) fresh))))
          | no n ↦ inr (inr (t, n))
        ] in
      let join : (o' : InsertOperation) → AddAll ws (Rest o T) o' → Add o T o' = λ o'. elim [
        | inl m ↦ inr (v.waiting_own o.ident o' (to_wait o' m)).0
        | inr (inl e) ↦ inl e
        | inr (inr t) ↦ inr t.0
      ] in
      let size = waiting_count-erase o.ident d.buffered_inserts in
      let size' : waiting_count bs + length ws ≤ waiting_count d.buffered_inserts =
        rw found at size in
      let all =
        apply_each-Applied fuel nested ws (Rest o T) R (Loose o d P) (settled o d bs)
          (settled-Inv v o g fresh there bs (lookup-erase_self o.ident d.buffered_inserts)
            (λ k n. lookup-erase_ne o.ident k d.buffered_inserts n)
            (erase-IsFunctional o.ident d.buffered_inserts v.waiting_entries))
          (genuine_part join g)
          (λ w m.
            subst (Has (place o d)) (sym (v.waiting_own o.ident w (to_wait w m)).1)
              (Has-placed v o fresh there))
          (omega arith) in
      rw (found, release)
        (record {
          after = all.after;
          returns = rw all.returns (check_buffers-done all.inv (genuine_part join g));
          inv =
              Inv-change (λ o'. (join o', elim [ inl e ↦ inr (inl e) | inr t ↦ split o' t ]))
                (λ x l p. elim p.0 [ inl q ↦ q | inr w ↦ absurd (p.1 w.0 (of_wait w.0 w.1) w.2) ])
                all.inv;
          keeps = λ x h. all.keeps x (keeps_elements v o fresh there x h);
          no_more = omega (arith, all.no_more);
        })

  release-Applied :
      Applied (Add o T) R (Without P o.ident) d (release (apply_insert fuel) o.ident (place o d))
  release-Applied = elim (Option-cases (lookup o.ident d.buffered_inserts)) [
    | inl nobody ↦ release_nobody nobody
    | inr (ws, found) ↦ release_waiting ws found
  ]

pub apply_insert-Applied : (fuel : ℕ) → Nested fuel
unfolding apply_insert
apply_insert-Applied zero T R P d o v g there enough = absurd (omega arith)
apply_insert-Applied (suc fuel) T R P d o v g there enough =
    elim (Bool-cases (contains o.ident d.elements)) [
      | inl known ↦ rw known (record {
        after = d;
        returns = refl;
        inv =
            Inv-change (λ o'. (λ t. t, λ t. t))
              (λ x l p. (p, λ e. cc (l, subst (Has d) (sym e) known))) (known-Inv v o g known);
        keeps = λ x h. h;
        no_more = omega arith;
      })
      | inr fresh ↦
          rw (fresh, there)
            (release-Applied fuel (apply_insert-Applied fuel) T R P d o v g fresh there
              (omega arith))
    ]
