-- ===== src/Session/Steps.antt =====
-- One more operation at the end of a history: what the document holds afterwards, and what stays.
use crdt_networking_applicat.Prelude.{
  suc, ◌≡◌, refl, ap, fun_ext, ◌∙◌, ◌↔◌, ◌⊎◌, inl, inr, List, [], ◌∷◌, ◌++◌, In, arith, Bool-cases,
}
use crdt_networking_applicat.Prelude.Maps.{lookup_of_contains}
use crdt_networking_applicat.Ids.{ElementId, id_key}
use crdt_networking_applicat.Operation.{InsertOperation, Operation, insert, remove}
use crdt_networking_applicat.Outcome.{Outcome, done, threw, ◌then_do◌}
use crdt_networking_applicat.Document.{Document, apply, apply_history, apply_delete}
use crdt_networking_applicat.Document.Invariant.{IsGenuine, Has}
use crdt_networking_applicat.Document.Invariant.Apply.{genuine_part}
use crdt_networking_applicat.Document.Invariant.Delete.{apply_delete-Inv}
use crdt_networking_applicat.Document.History.{
  Inserted, Removed, Holds, Holds-change, apply-insert_Holds,
}
use crdt_networking_applicat.Document.Convergence.{Has-too}
use crdt_networking_applicat.Document.Visit.Members.{is_visible-Has}
use crdt_networking_applicat.Document.Positions.RoundTrip.{visible_element}
use crdt_networking_applicat.Document.Walk.Anchors.{IsAnchor, visible_of}

pub In-last :
    (op : Operation) (h : List Operation) (op' : Operation)
    → In op' (h ++ op ∷ []) ↔ ((op' ≡ op) ⊎ In op' h)
In-last op [] op' =
    (elim [ inl e ↦ inl e | inr m ↦ absurd m ], elim [ inl e ↦ inl e | inr m ↦ absurd m ])
In-last op (x ∷ h) op' = let ih = In-last op h op' in (ground (arith, ih), ground (arith, ih))

-- What one received, and what it received after one more operation.
abbrev pub After : List Operation → Document → Type 0
After h d = Holds (Inserted h) (Removed h) d

-- Each operation is applied without an exception.
pub apply-After :
    (h : List Operation) (op : Operation) (d : Document)
    → After h d
    → IsGenuine (Inserted (h ++ op ∷ []))
    → (d' : Document) × (apply d op ≡ done d') × After (h ++ op ∷ []) d'
unfolding apply
apply-After h (insert o) d v g =
    let last = In-last (insert o) h in
    let same = λ (o' : InsertOperation). last (insert o') in
    let (d', e, w) = apply-insert_Holds v o (
      genuine_part
        (λ o'. elim [ inl q ↦ (same o').1 (inl (ap insert q)) | inr m ↦ (same o').1 (inr m) ]) g) in
    (
      d',
      e,
      Holds-change
          (λ o'. (
            elim [ inl q ↦ (same o').1 (inl (ap insert q)) | inr m ↦ (same o').1 (inr m) ],
            λ m. elim ((same o').0 m) [ inl q ↦ inl (cc q) | inr k ↦ inr k ],
          ))
          (λ x. (
            λ m. (last (remove (record { the_target = x }))).1 (inr m),
            λ m. elim ((last (remove (record { the_target = x }))).0 m) [
              | inl q ↦ cc q
              | inr k ↦ k
            ],
          ))
          w,
    )
apply-After h (remove o) d v g =
    let last = In-last (remove o) h in
    (
      apply_delete d o,
      refl,
      Holds-change
          (λ o'. (
            λ m. (last (insert o')).1 (inr m),
            λ m. elim ((last (insert o')).0 m) [ inl q ↦ cc q | inr k ↦ k ],
          ))
          (λ x. (
            elim [
              | inl q ↦ (last (remove (record { the_target = x }))).1 (inl (ground arith))
              | inr m ↦ (last (remove (record { the_target = x }))).1 (inr m)
            ],
            λ m. elim ((last (remove (record { the_target = x }))).0 m) [
              | inl q ↦ inl (cc q)
              | inr k ↦ inr k
            ],
          ))
          (apply_delete-Inv o v),
    )

module _ (h h' : List Operation) {d d' : Document} (v : After h d) (v' : After h' d')
    (more : (op : Operation) → In op h → In op h') where
  pub Has-After : (x : ElementId) → Has d x → Has d' x
  Has-After x = Has-too v v' (λ o. more (insert o)) (suc (v.rank x)) x (omega arith)

  -- Where a cursor may stand it may stand later, unless that element is removed.
  pub IsAnchor-After :
      (x : ElementId) → IsAnchor d x → ((Removed h' x → Removed h x)) → IsAnchor d' x
  IsAnchor-After x (inl e) k = inl e
  IsAnchor-After x (inr s) k =
      let (c, e, alive, n) = visible_element v x s in
      let (c', e') = lookup_of_contains x d'.elements (Has-After x (is_visible-Has v x s)) in
      elim (Bool-cases c'.deleted) [
        | inr alive' ↦ inr (visible_of d' x c' n e' alive')
        | inl gone ↦ let was = (v.removed x c e).1 (k ((v'.removed x c' e').0 gone)) in absurd (cc)
      ]

then_assoc :
    (r : Outcome Document) (f g : Document → Outcome Document)
    → (r then_do (λ d. f d then_do g)) ≡ ((r then_do f) then_do g)
then_assoc (done d) f g = refl
then_assoc (threw e d) f g = refl

apply_history-append :
    (h k : List Operation) (d : Document)
    → apply_history (h ++ k) d ≡ (apply_history h d then_do apply_history k)
unfolding apply_history
apply_history-append [] k d = refl
apply_history-append (o ∷ h) k d =
    ap (λ f. apply d o then_do f) (fun_ext (apply_history-append h k))
    ∙ then_assoc (apply d o) (apply_history h) (apply_history k)

pub apply_history-last :
    (h : List Operation) (op : Operation) (d d' d'' : Document)
    → apply_history h d ≡ done d'
    → apply d' op ≡ done d''
    → apply_history (h ++ op ∷ []) d ≡ done d''
apply_history-last h op d d' d'' e f =
    apply_history-append h (op ∷ []) d
    ∙ ap (λ r. r then_do apply_history (op ∷ [])) e
    ∙ unfold apply_history in ap (λ r. r then_do λ x. done x) f
