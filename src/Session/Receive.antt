-- ===== src/Session/Receive.antt =====
-- EditorSession::apply and flush_incoming: what comes from the server is taken in without an
-- exception, whatever its order and however often it comes.
use crdt_networking_applicat.Prelude.{
  ℕ, ◌≡◌, refl, sym, ap, subst, ◌∙◌, ◌⊎◌, inl, inr, true, false, List, [], ◌∷◌, ◌++◌, In, if_pos,
  if_neg,
}
use crdt_networking_applicat.Prelude.Maps.{
  Map, Set, contains, emplace, same_key, contains-emplace, contains-emplace_self,
}
use crdt_networking_applicat.Ids.{ElementId, id_key, text_key}
use crdt_networking_applicat.Operation.{Operation, insert, remove}
use crdt_networking_applicat.Outcome.{Outcome, done, ◌then_do◌}
use crdt_networking_applicat.Text.{Bytes}
use crdt_networking_applicat.Codec.{serialize_operation}
use crdt_networking_applicat.IdGenerator.{IdGenerator, sync_clock}
use crdt_networking_applicat.Message.{Message}
use crdt_networking_applicat.Document.Invariant.{IsGenuine}
use crdt_networking_applicat.Document.Invariant.Apply.{genuine_part}
use crdt_networking_applicat.Document.History.{Inserted}
use crdt_networking_applicat.Document.Visit.Members.{mem-append}
use crdt_networking_applicat.Session.{EditorSession, apply_operation, see_clock, apply_operations}
use crdt_networking_applicat.Session.Invariant.{history, AllHere, SessionInv}
use crdt_networking_applicat.Session.Apply.{apply_operation-Applied}

-- What the invariant does not speak of may change, and the remote cursors among what is there.
pub around_inv :
    (s : EditorSession) (g : IdGenerator) (remote pending : Map Bytes ElementId)
    (incoming outgoing : List Message) (n : ℕ)
    → AllHere s.doc remote
    → SessionInv s
    → SessionInv (record s {
      gen = g;
      remote_cursors = remote;
      pending_cursor_updates = pending;
      incoming_queue = incoming;
      outgoing_queue = outgoing;
      notified = n;
    })
around_inv s g remote pending incoming outgoing n here i = record {
  sound = record {
    holds = i.sound.holds;
    replay = i.sound.replay;
    texts = i.sound.texts;
    remotes = here;
  };
  stands = i.stands;
}

kept_text :
    (t : Bytes) (op : Operation) (m : Set Bytes)
    → contains t m ≡ true
    → contains t (emplace (serialize_operation op) tt m) ≡ true
kept_text t op m c =
    contains-emplace (serialize_operation op) t tt m ∙ elim (same_key (serialize_operation op) t) [
      | yes q ↦ if_pos (same_key (serialize_operation op) t) q _ _
      | no n ↦ if_neg (same_key (serialize_operation op) t) n _ _ ∙ c
    ]

-- A call that took operations in: nothing is lost, nothing comes from elsewhere.
pub record Followed (s : EditorSession) (ops : List Operation) (o : Outcome EditorSession)
    : Type 0 where
  pub after : EditorSession
  pub returns : o ≡ done after
  pub inv : SessionInv after
  pub from : (op : Operation) → In op (history after) → In op (history s) ⊎ In op ops
  pub kept : (op : Operation) → In op (history s) → In op (history after)
  pub texts :
      (t : Bytes)
      → contains t s.applied_operations ≡ true
      → contains t after.applied_operations ≡ true
  pub arrived :
      (op : Operation)
      → In op ops
      → contains (serialize_operation op) after.applied_operations ≡ true

-- No operation, and a session that took in the same operations.
pub take_nothing :
    (s t : EditorSession) (o : Outcome EditorSession)
    → o ≡ done t
    → SessionInv t
    → history t ≡ history s
    → t.applied_operations ≡ s.applied_operations
    → Followed s [] o
take_nothing s t o e i h a = record {
  after = t;
  returns = e;
  inv = i;
  from = λ op m. inl (subst (In op) h m);
  kept = λ op m. subst (In op) (sym h) m;
  texts = λ u c. subst (λ x. contains u x ≡ true) (sym a) c;
  arrived = λ op m. absurd m;
}

pub take_both :
    (s : EditorSession) (ops ops' : List Operation) (o : Outcome EditorSession)
    (f : EditorSession → Outcome EditorSession) (p : Followed s ops o)
    → Followed p.after ops' (f p.after)
    → Followed s (ops ++ ops') (o then_do f)
take_both s ops ops' o f p q = record {
  after = q.after;
  returns = ap (λ r. r then_do f) p.returns ∙ q.returns;
  inv = q.inv;
  from = λ op m. elim (q.from op m) [
    | inl k ↦ elim (p.from op k) [
      | inl old ↦ inl old
      | inr new ↦ inr ((mem-append op ops ops').1 (inl new))
    ]
    | inr k ↦ inr ((mem-append op ops ops').1 (inr k))
  ];
  kept = λ op m. q.kept op (p.kept op m);
  texts = λ t c. q.texts t (p.texts t c);
  arrived = λ op m. elim ((mem-append op ops ops').0 m) [
    | inl k ↦ q.texts (serialize_operation op) (p.arrived op k)
    | inr k ↦ q.arrived op k
  ];
}

-- What see_clock leaves as it was.
record Clocked (s t : EditorSession) : Type 0 where
  clock : IdGenerator
  only : t ≡ record s { gen = clock }

see_clock-same : (op : Operation) (s : EditorSession) → Clocked s (see_clock op s)
unfolding see_clock
see_clock-same (insert o) s = record { clock = sync_clock o.ident.lamport s.gen; only = refl }
see_clock-same (remove o) s = record { clock = s.gen; only = refl }

one_of :
    (op : Operation) (s : EditorSession) {t : EditorSession}
    → Clocked s t
    → SessionInv s
    → IsGenuine (Inserted (history s ++ op ∷ []))
    → Followed s (op ∷ []) (apply_operation op false t)
one_of op s {t} k i g =
    let u : EditorSession = record s { gen = k.clock } in
    let j : SessionInv u =
      around_inv s k.clock s.remote_cursors s.pending_cursor_updates s.incoming_queue
        s.outgoing_queue s.notified i.sound.remotes i in
    subst (λ x. Followed s (op ∷ []) (apply_operation op false x)) (sym k.only)
      (elim (apply_operation-Applied op u j g) [
        | inl (old, e) ↦ record {
          after = u;
          returns = e;
          inv = j;
          from = λ o m. inl m;
          kept = λ o m. m;
          texts = λ x c. c;
          arrived = λ o. elim [
            | inl q ↦
                subst (λ z. contains (serialize_operation z) s.applied_operations ≡ true) (sym q)
                  old
            | inr z ↦ absurd z
          ];
        }
        | inr a ↦ record {
          after = a.after;
          returns = a.returns;
          inv = a.inv;
          from = λ o m. (mem-append o (history s) (op ∷ [])).0 (subst (In o) a.logged m);
          kept =
              λ o m. subst (In o) (sym a.logged) ((mem-append o (history s) (op ∷ [])).1 (inl m));
          texts = λ x c.
              subst (λ m. contains x m ≡ true) (sym a.seen) (kept_text x op s.applied_operations c);
          arrived = λ o. elim [
            | inl q ↦
                subst (λ z. contains (serialize_operation z) a.after.applied_operations ≡ true)
                  (sym q)
                  (subst (λ m. contains (serialize_operation op) m ≡ true) (sym a.seen)
                    (contains-emplace_self (serialize_operation op) tt s.applied_operations))
            | inr z ↦ absurd z
          ];
        }
      ])

-- One operation from elsewhere, and the clock that it brings.
pub follow_one :
    (op : Operation) (s : EditorSession)
    → SessionInv s
    → IsGenuine (Inserted (history s ++ op ∷ []))
    → Followed s (op ∷ []) (apply_operation op false (see_clock op s))
follow_one op s i g = one_of op s (see_clock-same op s) i g

pub follow_all :
    (ops : List Operation) (s : EditorSession)
    → SessionInv s
    → IsGenuine (Inserted (history s ++ ops))
    → Followed s ops (apply_operations ops s)
unfolding apply_operations
follow_all [] s i g = take_nothing s s (done s) refl i refl refl
follow_all (op ∷ ops) s i g =
    let one = follow_one op s i (
      genuine_part
        (λ o m.
          (mem-append (insert o) (history s) (op ∷ ops)).1
            (elim ((mem-append (insert o) (history s) (op ∷ [])).0 m) [
              | inl k ↦ inl k
              | inr k ↦ inr (elim k [ inl e ↦ inl e | inr z ↦ absurd z ])
            ]))
        g) in
    let rest = follow_all ops one.after one.inv (
      genuine_part
        (λ o m.
          (mem-append (insert o) (history s) (op ∷ ops)).1
            (elim ((mem-append (insert o) (history one.after) ops).0 m) [
              | inl k ↦ elim (one.from (insert o) k) [
                | inl old ↦ inl old
                | inr new ↦ inr (elim new [ inl e ↦ inl e | inr z ↦ absurd z ])
              ]
              | inr k ↦ inr (inr k)
            ]))
        g) in
    take_both s (op ∷ []) ops (apply_operation op false (see_clock op s)) (apply_operations ops) one
      rest
