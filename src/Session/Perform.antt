-- ===== src/Session/Perform.antt =====
-- The loop of EditorSession::handle_editor_command: local operations are applied and announced.
use crdt_networking_applicat.Prelude.{
  ◌≡◌, ◌≢◌, refl, sym, ap, ap₂, subst, ◌∙◌, ◌⊎◌, inl, inr, true, false, List, [], ◌∷◌, ◌++◌, map,
  if_neg, Bool-cases, ℕ,
}
use mathlib.Core.List.{append_assoc, append-nil}
use crdt_networking_applicat.Prelude.Maps.{contains, same_key, lookup_of_contains}
use crdt_networking_applicat.Ids.{ElementId, id_key, text_key, root_id}
use crdt_networking_applicat.Operation.{InsertOperation, Operation, insert}
use crdt_networking_applicat.Outcome.{Outcome, done, ◌then_do◌}
use crdt_networking_applicat.Text.{Bytes}
use crdt_networking_applicat.Codec.{serialize_operation}
use crdt_networking_applicat.Message.{Message, make_message, operation, of_operation}
use crdt_networking_applicat.IdGenerator.{IdGenerator}
use crdt_networking_applicat.Queue.{push}
use crdt_networking_applicat.Document.{Document}
use crdt_networking_applicat.Document.Invariant.{IsGenuine}
use crdt_networking_applicat.Document.Invariant.Apply.{genuine_part}
use crdt_networking_applicat.Document.History.{Inserted, Removed}
use crdt_networking_applicat.Document.Positions.RoundTrip.{visible_element}
use crdt_networking_applicat.Document.Walk.Anchors.{IsAnchor, IsAnchor-Has, visible_of}
use crdt_networking_applicat.Cursor.{Cursor, update, update_on_insert, update_on_remote}
use crdt_networking_applicat.Input.{removal}
use crdt_networking_applicat.Session.{
  EditorSession, apply_operation, queue_outgoing_message, perform,
}
use crdt_networking_applicat.Session.Steps.{After, In-last}
use crdt_networking_applicat.Session.Invariant.{
  history, Sound, SessionInv, Has-later, update_on_remote-IsAnchor,
}
use crdt_networking_applicat.Session.Apply.{apply_operation-new}
use crdt_networking_applicat.Session.Messages.{queued_inv}

-- The message of a local operation.
abbrev pub announce : Bytes → Operation → Message
announce client_id op = make_message operation client_id (of_operation op)

-- A call after which the operations are applied, and announced in this order.
pub record Performed (s : EditorSession) (ops : List Operation) (o : Outcome EditorSession)
    : Type 0 where
  pub after : EditorSession
  pub returns : o ≡ done after
  pub inv : SessionInv after
  pub same_client : after.client_id ≡ s.client_id
  pub sent : after.outgoing_queue ≡ s.outgoing_queue ++ map (announce s.client_id) ops
  pub genuine : IsGenuine (Inserted (history after))

pub perform_both :
    (s : EditorSession) (op : Operation) (ops : List Operation) (o : Outcome EditorSession)
    (f : EditorSession → Outcome EditorSession) (p : Performed s (op ∷ []) o)
    → Performed p.after ops (f p.after)
    → Performed s (op ∷ ops) (o then_do f)
perform_both s op ops o f p q = record {
  after = q.after;
  returns = ap (λ r. r then_do f) p.returns ∙ q.returns;
  inv = q.inv;
  same_client = q.same_client ∙ p.same_client;
  sent =
      q.sent
      ∙ ap (λ id. p.after.outgoing_queue ++ map (announce id) ops) p.same_client
      ∙ ap (λ l. l ++ map (announce s.client_id) ops) p.sent
      ∙ append_assoc s.outgoing_queue (announce s.client_id op ∷ [])
          (map (announce s.client_id) ops);
  genuine = q.genuine;
}

-- apply_operation and the message behind it
abbrev announced : Operation → Outcome EditorSession → Outcome EditorSession
announced op o = o then_do λ t. done (queue_outgoing_message (announce t.client_id op) t)

announced-Performed :
    (s t : EditorSession) (op : Operation) (o : Outcome EditorSession)
    → o ≡ done t
    → SessionInv t
    → t.client_id ≡ s.client_id
    → t.outgoing_queue ≡ s.outgoing_queue
    → IsGenuine (Inserted (history t))
    → Performed s (op ∷ []) (announced op o)
unfolding queue_outgoing_message push
announced-Performed s t op o e i c q g = record {
  after = queue_outgoing_message (announce t.client_id op) t;
  returns = ap (announced op) e;
  inv = queued_inv (announce t.client_id op) t i;
  same_client = c;
  sent = ap₂ (λ l id. l ++ announce id op ∷ []) q c;
  genuine = g;
}

one_removal :
    (x : ElementId) (s : EditorSession)
    → SessionInv s
    → IsGenuine (Inserted (history s))
    → Performed s (removal x ∷ []) (announced (removal x) (apply_operation (removal x) true s))
unfolding apply_operation update update_on_remote
one_removal x s i g =
    elim (Bool-cases (contains (serialize_operation (removal x)) s.applied_operations)) [
      | inl old ↦ announced-Performed s s (removal x) _ (rw (apply_operation, old)) i refl refl g
      | inr new ↦
          let g' : IsGenuine (Inserted (history s ++ removal x ∷ [])) =
            genuine_part
              (λ o m. elim ((In-last (removal x) (history s) (insert o)).0 m) [
                | inl e ↦ cc e
                | inr k ↦ k
              ])
              g in
          let p = apply_operation-new (removal x) true s i.sound new g' λ d v.
            update_on_remote-IsAnchor (history s) (removal x) i.sound.holds v s.cursor i.stands in
          announced-Performed s p.after (removal x) _ p.returns p.inv p.client p.unsent
            (subst (λ h. IsGenuine (Inserted h)) (sym p.logged) g')
    ]

pub perform_nothing :
    (s : EditorSession) → SessionInv s → IsGenuine (Inserted (history s)) → Performed s [] (done s)
perform_nothing s i g = record {
  after = s;
  returns = refl;
  inv = i;
  same_client = refl;
  sent = sym (append-nil s.outgoing_queue);
  genuine = g;
}

pub perform-removals :
    (xs : List ElementId) (s : EditorSession)
    → SessionInv s
    → IsGenuine (Inserted (history s))
    → Performed s (map removal xs) (perform (map removal xs) s)
unfolding perform
perform-removals [] s i g = perform_nothing s i g
perform-removals (x ∷ xs) s i g =
    let one = one_removal x s i g in
    perform_both s (removal x) (map removal xs) _ (perform (map removal xs)) one
      (perform-removals xs one.after one.inv one.genuine)

-- An id that no operation which the session knows speaks of.
pub record IsFresh (s : EditorSession) (x : ElementId) : Type 0 where
  pub not_root : x ≢ root_id
  pub not_inserted : (o : InsertOperation) → Inserted (history s) o → o.ident ≢ x
  pub not_removed : ¬ Removed (history s) x
  pub no_text :
      (parent : ElementId) (ch : ℕ)
      → contains
          (serialize_operation (insert (record { parent = parent; ident = x; ch = ch })))
          s.applied_operations
        ≡ false

module _ (s : EditorSession) (i : Sound s) (a : IsAnchor s.doc s.cursor.anchor)
    (g : IsGenuine (Inserted (history s))) (x : ElementId) (ch : ℕ) (f : IsFresh s x) where
  abbrev typed : InsertOperation
  typed = record { parent = s.cursor.anchor; ident = x; ch = ch }

  typed-genuine : IsGenuine (Inserted (history s ++ insert typed ∷ []))
  typed-genuine = record {
    unique = λ o o' m m' e. elim (which o m) [
      | inl q ↦ elim (which o' m') [
        | inl q' ↦ q ∙ sym q'
        | inr k' ↦ absurd (f.not_inserted o' k' (sym e ∙ ap (λ z. z.ident) q))
      ]
      | inr k ↦ elim (which o' m') [
        | inl q' ↦ absurd (f.not_inserted o k (e ∙ ap (λ z. z.ident) q'))
        | inr k' ↦ g.unique o o' k k' e
      ]
    ];
    not_root = λ o m e. elim (which o m) [
      | inl q ↦ f.not_root (sym (ap (λ z. z.ident) q) ∙ e)
      | inr k ↦ g.not_root o k e
    ];
  }
    where
      which :
          (o : InsertOperation)
          → Inserted (history s ++ insert typed ∷ []) o
          → (o ≡ typed) ⊎ Inserted (history s) o
      which o m = elim ((In-last (insert typed) (history s) (insert o)).0 m) [
        | inl q ↦ inl (cc q)
        | inr k ↦ inr k
      ]

  parent_other : s.cursor.anchor ≢ x
  parent_other q = elim a [
    | inl r ↦ f.not_root (sym q ∙ r)
    | inr m ↦
        let (c, e, _, n) = visible_element i.holds s.cursor.anchor m in
        let from = i.holds.origin s.cursor.anchor c e n in
        f.not_inserted from.oper from.received (from.ident_eq ∙ q)
  ]

  typed-visible : (d : Document) → After (history s ++ insert typed ∷ []) d → IsAnchor d x
  typed-visible d v =
      let h = history s in
      let there =
        Has-later h (insert typed) i.holds v s.cursor.anchor
          (IsAnchor-Has i.holds s.cursor.anchor a) in
      let here = v.placed typed ((In-last (insert typed) h (insert typed)).1 (inl refl)) there in
      let (c, e) = lookup_of_contains x d.elements here in
      elim (Bool-cases c.deleted) [
        | inr alive ↦ inr (visible_of d x c f.not_root e alive)
        | inl gone ↦
            absurd (elim ((In-last (insert typed) h (removal x)).0 ((v.removed x c e).0 gone)) [
              | inl q ↦ cc q
              | inr k ↦ f.not_removed k
            ])
      ]

  -- The insertion, where the handler has set the cursor to the new id.
  pub type_one :
      (c : Cursor) (gen : IdGenerator)
      → c.anchor ≡ x
      → Performed s (insert typed ∷ []) (
          announced
            (insert typed)
            (apply_operation (insert typed) true (record s { cursor = c; gen = gen })))
  unfolding update update_on_insert
  type_one c gen q =
      let t : EditorSession = record s { cursor = c; gen = gen } in
      let j : Sound t = record {
        holds = i.holds;
        replay = i.replay;
        texts = i.texts;
        remotes = i.remotes;
      } in
      let p =
        apply_operation-new (insert typed) true t j (f.no_text s.cursor.anchor ch) typed-genuine
          λ d v. (
            c,
            ap done (if_neg (same_key s.cursor.anchor c.anchor) (λ e. parent_other (e ∙ q)) _ _),
            subst (IsAnchor d) (sym q) (typed-visible d v),
          ) in
      announced-Performed s p.after (insert typed) _ p.returns p.inv p.client p.unsent
        (subst (λ h. IsGenuine (Inserted h)) (sym p.logged) typed-genuine)
