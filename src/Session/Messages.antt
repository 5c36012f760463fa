-- ===== src/Session/Messages.antt =====
-- EditorSession::apply and flush_incoming: the messages of the server are taken in without an
-- exception, whatever their order and however often each comes.
use crdt_networking_applicat.Prelude.{
  ℕ, refl, subst, inl, inr, false, List, [], ◌∷◌, ◌++◌, if◌then◌else◌, suc,
}
use mathlib.Core.List.{append-nil}
use crdt_networking_applicat.Prelude.Maps.{Map, assign, erase, mem-erase}
use crdt_networking_applicat.Ids.{ElementId, id_key, text_key}
use crdt_networking_applicat.Operation.{Operation, insert}
use crdt_networking_applicat.Outcome.{Outcome, done, ◌then_do◌}
use crdt_networking_applicat.Text.{Bytes}
use crdt_networking_applicat.Message.{
  MessageType, hello, hello_ack, operation, sync_request, sync_response, sync_complete,
  cursor_update, open_document, MessagePayload, monostate, of_operation, of_operations, of_cursor,
  of_document, Message, make_message,
}
use crdt_networking_applicat.Queue.{push, take_all}
use crdt_networking_applicat.Document.{Document}
use crdt_networking_applicat.Document.Invariant.{IsGenuine, Has}
use crdt_networking_applicat.Document.Invariant.Apply.{genuine_part}
use crdt_networking_applicat.Document.History.{Inserted}
use crdt_networking_applicat.Document.Visit.Members.{mem-append}
use crdt_networking_applicat.Document.Walk.Anchors.{resolve_cursor_anchor-IsAnchor}
use crdt_networking_applicat.Session.{
  EditorSession, apply_operation, see_clock, apply_operations, resolve_each,
  update_pending_cursor_updates, apply_history, receive_cursor_update, queue_outgoing_message,
  queue_cursor_update, apply, apply_messages, flush_incoming,
}
use crdt_networking_applicat.Session.Invariant.{history, AllHere, SessionInv}
use crdt_networking_applicat.Session.Receive.{
  around_inv, Followed, take_nothing, take_both, follow_one, follow_all,
}

-- A remote cursor that stands at an element that is there.
assign-AllHere :
    (d : Document) (id : Bytes) (x : ElementId) (m : Map Bytes ElementId)
    → Has d x
    → AllHere d m
    → AllHere d (assign id x m)
unfolding assign
assign-AllHere d id x m h a k y (inl e) = subst (Has d) (cc e) h
assign-AllHere d id x m h a k y (inr n) = a k y (mem-erase id k y m n).0

around_cursors :
    (s : EditorSession) (remote pending : Map Bytes ElementId) (outgoing : List Message) (n : ℕ)
    → AllHere s.doc remote
    → SessionInv s
    → SessionInv (record s {
      remote_cursors = remote;
      pending_cursor_updates = pending;
      outgoing_queue = outgoing;
      notified = n;
    })
around_cursors s remote pending outgoing n here i =
    around_inv s s.gen remote pending s.incoming_queue outgoing n here i

resolve_each-Followed :
    (es : Map Bytes ElementId) (s : EditorSession)
    → SessionInv s
    → Followed s [] (resolve_each es s)
unfolding resolve_each
resolve_each-Followed [] s i = take_nothing s s (done s) refl i refl refl
resolve_each-Followed ((id, x) ∷ es) s i = elim (resolve_cursor_anchor-IsAnchor i.sound.holds x) [
  | inl (_, e) ↦ rw e (resolve_each-Followed es s i)
  | inr (r, here, e, _, _) ↦
      let t : EditorSession = record s {
        remote_cursors = assign id x s.remote_cursors;
        pending_cursor_updates = erase id s.pending_cursor_updates;
      } in
      let j : SessionInv t =
        around_cursors s t.remote_cursors t.pending_cursor_updates s.outgoing_queue s.notified
          (assign-AllHere s.doc id x s.remote_cursors here i.sound.remotes) i in
      let p = resolve_each-Followed es t j in
      rw e (record {
        after = p.after;
        returns = p.returns;
        inv = p.inv;
        from = p.from;
        kept = p.kept;
        texts = p.texts;
        arrived = p.arrived;
      })
]

receive_cursor_update-Followed :
    (id : Bytes) (x : ElementId) (s : EditorSession)
    → SessionInv s
    → Followed s [] (receive_cursor_update id x s)
unfolding receive_cursor_update
receive_cursor_update-Followed id x s i = elim (resolve_cursor_anchor-IsAnchor i.sound.holds x) [
  | inl (_, e) ↦
      let t : EditorSession = record s {
        pending_cursor_updates = assign id x s.pending_cursor_updates;
      } in
      take_nothing s t (receive_cursor_update id x s) (rw e)
        (around_cursors s s.remote_cursors t.pending_cursor_updates s.outgoing_queue s.notified
          i.sound.remotes i)
        refl refl
  | inr (r, here, e, _, _) ↦
      let t : EditorSession = record s {
        remote_cursors = assign id x s.remote_cursors;
        pending_cursor_updates = erase id s.pending_cursor_updates;
      } in
      take_nothing s t (receive_cursor_update id x s) (rw e)
        (around_cursors s t.remote_cursors t.pending_cursor_updates s.outgoing_queue s.notified
          (assign-AllHere s.doc id x s.remote_cursors here i.sound.remotes) i)
        refl refl
]

-- The operations that a message brings.
abbrev pub carried : MessageType → MessagePayload → List Operation
carried operation (of_operation o) = o ∷ []
carried sync_response (of_operations os) = os
carried _ _ = []

-- A message whose payload is the one of its type, as Message::deserialize makes them.
abbrev pub Fits : MessageType → MessagePayload → Type 0
Fits operation (of_operation o) = Unit
Fits operation _ = ⊥
Fits sync_response (of_operations os) = Unit
Fits sync_response _ = ⊥
Fits cursor_update (of_cursor x) = Unit
Fits cursor_update _ = ⊥
Fits _ _ = Unit

abbrev pub carried_by : Message → List Operation
carried_by m = carried m.message_type m.payload

-- A message in the queue changes nothing that the invariant speaks of.
pub queued_inv :
    (m : Message) (s : EditorSession) → SessionInv s → SessionInv (queue_outgoing_message m s)
unfolding queue_outgoing_message
queued_inv m s i =
    around_cursors s s.remote_cursors s.pending_cursor_updates (push m s.outgoing_queue)
      (if s.has_callback then suc s.notified else s.notified) i.sound.remotes i

-- No more operations behind some.
no_more :
    (s : EditorSession) (ops : List Operation) (o : Outcome EditorSession)
    (f : EditorSession → Outcome EditorSession) (p : Followed s ops o)
    → Followed p.after [] (f p.after)
    → Followed s ops (o then_do f)
no_more s ops o f p q =
    subst (λ l. Followed s l (o then_do f)) (append-nil ops) (take_both s ops [] o f p q)

apply_history-Followed :
    (ops : List Operation) (s : EditorSession)
    → SessionInv s
    → IsGenuine (Inserted (history s ++ ops))
    → Followed s ops (apply_history ops s)
unfolding apply_history update_pending_cursor_updates
apply_history-Followed ops s i g =
    let all = follow_all ops s i g in
    no_more s ops (apply_operations ops s) update_pending_cursor_updates all
      (resolve_each-Followed all.after.pending_cursor_updates all.after all.inv)

apply-parts :
    (t : MessageType) (sender : Bytes) (p : MessagePayload) (s : EditorSession)
    → SessionInv s
    → Fits t p
    → IsGenuine (Inserted (history s ++ carried t p))
    → Followed s (carried t p) (apply (make_message t sender p) s)
unfolding apply update_pending_cursor_updates queue_cursor_update queue_outgoing_message
apply-parts operation sender (of_operation o) s i f g =
    let one = follow_one o s i g in
    take_both s (o ∷ []) [] (apply_operation o false (see_clock o s)) update_pending_cursor_updates
      one (resolve_each-Followed one.after.pending_cursor_updates one.after one.inv)
apply-parts operation sender monostate s i f g = absurd f
apply-parts operation sender (of_operations os) s i f g = absurd f
apply-parts operation sender (of_cursor x) s i f g = absurd f
apply-parts operation sender (of_document x) s i f g = absurd f
apply-parts sync_response sender (of_operations os) s i f g =
    let all = apply_history-Followed os s i g in
    let complete = make_message sync_complete all.after.client_id monostate in
    let t = queue_outgoing_message complete all.after in
    let place = make_message cursor_update t.client_id (of_cursor t.cursor.anchor) in
    no_more s os (apply_history os s)
      (λ t. done (
        queue_cursor_update
          (queue_outgoing_message (make_message sync_complete t.client_id monostate) t)))
      all
      (take_nothing all.after (queue_outgoing_message place t) _ refl
        (queued_inv place t (queued_inv complete all.after all.inv)) refl refl)
apply-parts sync_response sender monostate s i f g = absurd f
apply-parts sync_response sender (of_operation o) s i f g = absurd f
apply-parts sync_response sender (of_cursor x) s i f g = absurd f
apply-parts sync_response sender (of_document x) s i f g = absurd f
apply-parts cursor_update sender (of_cursor x) s i f g = receive_cursor_update-Followed sender x s i
apply-parts cursor_update sender monostate s i f g = absurd f
apply-parts cursor_update sender (of_operation o) s i f g = absurd f
apply-parts cursor_update sender (of_operations os) s i f g = absurd f
apply-parts cursor_update sender (of_document x) s i f g = absurd f
apply-parts hello sender p s i f g = take_nothing s s (done s) refl i refl refl
apply-parts hello_ack sender p s i f g = take_nothing s s (done s) refl i refl refl
apply-parts sync_request sender p s i f g = take_nothing s s (done s) refl i refl refl
apply-parts sync_complete sender p s i f g = take_nothing s s (done s) refl i refl refl
apply-parts open_document sender p s i f g = take_nothing s s (done s) refl i refl refl

-- A message whose payload is the one of its type is taken in.
pub apply-Followed :
    (m : Message) (s : EditorSession)
    → SessionInv s
    → Fits m.message_type m.payload
    → IsGenuine (Inserted (history s ++ carried_by m))
    → Followed s (carried_by m) (apply m s)
apply-Followed m s i f g = apply-parts m.message_type m.sender m.payload s i f g

abbrev pub carried_by_all : List Message → List Operation
carried_by_all [] = []
carried_by_all (m ∷ ms) = carried_by m ++ carried_by_all ms

abbrev pub AllFit : List Message → Type 0
AllFit [] = Unit
AllFit (m ∷ ms) = Fits m.message_type m.payload × AllFit ms

apply_messages-Followed :
    (ms : List Message) (s : EditorSession)
    → SessionInv s
    → AllFit ms
    → IsGenuine (Inserted (history s ++ carried_by_all ms))
    → Followed s (carried_by_all ms) (apply_messages ms s)
unfolding apply_messages
apply_messages-Followed [] s i f g = take_nothing s s (done s) refl i refl refl
apply_messages-Followed (m ∷ ms) s i f g =
    let ops = carried_by m in
    let one = apply-Followed m s i f.0 (
      genuine_part
        (λ o k.
          (mem-append (insert o) (history s) (ops ++ carried_by_all ms)).1
            (elim ((mem-append (insert o) (history s) ops).0 k) [
              | inl old ↦ inl old
              | inr new ↦ inr ((mem-append (insert o) ops (carried_by_all ms)).1 (inl new))
            ]))
        g) in
    let rest = apply_messages-Followed ms one.after one.inv f.1 (
      genuine_part
        (λ o k.
          (mem-append (insert o) (history s) (ops ++ carried_by_all ms)).1
            (elim ((mem-append (insert o) (history one.after) (carried_by_all ms)).0 k) [
              | inl now ↦ elim (one.from (insert o) now) [
                | inl old ↦ inl old
                | inr new ↦ inr ((mem-append (insert o) ops (carried_by_all ms)).1 (inl new))
              ]
              | inr later ↦ inr ((mem-append (insert o) ops (carried_by_all ms)).1 (inr later))
            ]))
        g) in
    take_both s ops (carried_by_all ms) (apply m s) (apply_messages ms) one rest

-- A session in a state that its calls keep takes in the messages that wait, of any types and in any
-- order, if the payload of each is the one of its type and if every id has one insertion and the
-- root none, in its history and in the messages. No call throws, and the state afterwards is one
-- of those: its document is what its logged history builds from the new document, its cursor
-- stands at the start or behind a visible element, its remote cursors at elements that are
-- there. The history keeps what it had and gets only operations of the messages, and each of their
-- operations is among those that were applied.
pub flush_incoming-Followed :
    (s : EditorSession)
    → SessionInv s
    → AllFit s.incoming_queue
    → IsGenuine (Inserted (history s ++ carried_by_all s.incoming_queue))
    → Followed s (carried_by_all s.incoming_queue) (flush_incoming s)
unfolding flush_incoming take_all
flush_incoming-Followed s i f g =
    let t : EditorSession = record s { incoming_queue = [] } in
    let j : SessionInv t =
      around_inv s s.gen s.remote_cursors s.pending_cursor_updates [] s.outgoing_queue s.notified
        i.sound.remotes i in
    let p = apply_messages-Followed s.incoming_queue t j f g in
    record {
      after = p.after;
      returns = p.returns;
      inv = p.inv;
      from = p.from;
      kept = p.kept;
      texts = p.texts;
      arrived = p.arrived;
    }
