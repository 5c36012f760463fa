-- ===== src/Session/Apply.antt =====
-- EditorSession::apply_operation and what calls it: no exception, and the invariant is kept.
use crdt_networking_applicat.Prelude.{
  ◌≡◌, refl, sym, subst, ◌∙◌, ◌⊎◌, inl, inr, Bool, true, false, List, [], ◌∷◌, ◌++◌, Bool-cases,
  if◌then◌else◌,
}
use crdt_networking_applicat.Prelude.Maps.{Map, contains, emplace, contains-emplace}
use crdt_networking_applicat.Ids.{ElementId, id_key, text_key}
use crdt_networking_applicat.Operation.{Operation, insert, remove}
use crdt_networking_applicat.Outcome.{Outcome, done}
use crdt_networking_applicat.Text.{Bytes}
use crdt_networking_applicat.Codec.{serialize_operation}
use crdt_networking_applicat.OperationLog.{OperationLog, record_operation}
use crdt_networking_applicat.Document.{Document, new_document}
use crdt_networking_applicat.Document.Invariant.{IsGenuine}
use crdt_networking_applicat.Document.History.{Inserted}
use crdt_networking_applicat.Document.Walk.Anchors.{IsAnchor}
use crdt_networking_applicat.Cursor.{Cursor, update, update_on_remote}
use crdt_networking_applicat.Session.{
  EditorSession, apply_operation, apply_new, update_remote_cursors,
}
use crdt_networking_applicat.Session.Steps.{After, apply-After, apply_history-last}
use crdt_networking_applicat.Session.Invariant.{
  history, AllHere, Sound, SessionInv, Has-later, update_on_remote-IsAnchor, leave_target-AllHere,
}

-- The remote cursors after one more operation.
remotes_kept :
    (h : List Operation) (op : Operation) (d : Document) (t : EditorSession)
    → After h d
    → After (h ++ op ∷ []) t.doc
    → AllHere d t.remote_cursors
    → (m : Map Bytes ElementId) × (update_remote_cursors op t
        ≡ done (record t { remote_cursors = m }))
      × AllHere t.doc m
unfolding update_remote_cursors
remotes_kept h (insert o) d t v v' a =
    (t.remote_cursors, refl, λ id x m. Has-later h (insert o) v v' x (a id x m))
remotes_kept h (remove o) d t v v' a =
    let (m, e, good) =
      leave_target-AllHere (h ++ remove o ∷ []) o.the_target t.remote_cursors v'
        (λ id x n. Has-later h (remove o) v v' x (a id x n)) in
    (m, rw e, good)

-- The session after an operation that is new to it.
abbrev pub cursor_call : Bool → Document → Operation → Cursor → Outcome Cursor
cursor_call update_cursor d op c = if update_cursor then update d op c else update_on_remote d op c

record_new :
    (op : Operation) (l : OperationLog)
    → contains (serialize_operation op) l.recorded_operations ≡ false
    → ((record_operation op l).operation_history ≡ l.operation_history ++ op ∷ [])
      × ((record_operation op l).recorded_operations
          ≡ emplace (serialize_operation op) tt l.recorded_operations)
unfolding record_operation
record_new op l e = (rw e, rw e)

-- A call that took a new operation in.
pub record Applied (s : EditorSession) (op : Operation) (o : Outcome EditorSession) : Type 0 where
  pub after : EditorSession
  pub returns : o ≡ done after
  pub inv : SessionInv after
  pub logged : history after ≡ history s ++ op ∷ []
  pub seen : after.applied_operations ≡ emplace (serialize_operation op) tt s.applied_operations
  pub client : after.client_id ≡ s.client_id
  pub unsent : after.outgoing_queue ≡ s.outgoing_queue

-- An operation that is new to the session.
pub apply_operation-new :
    (op : Operation) (update_cursor : Bool) (s : EditorSession)
    → Sound s
    → contains (serialize_operation op) s.applied_operations ≡ false
    → IsGenuine (Inserted (history s ++ op ∷ []))
    → ((d : Document)
        → After (history s ++ op ∷ []) d
        → (c : Cursor) × (cursor_call update_cursor d op s.cursor ≡ done c) × IsAnchor d c.anchor)
    → Applied s op (apply_operation op update_cursor s)
unfolding apply_operation apply_new
apply_operation-new op b s i fresh g cursor_done =
    let h = history s in
    let (d, applied, v) = apply-After h op s.doc i.holds g in
    let (c, moved, stands) = cursor_done d v in
    let text = serialize_operation op in
    let (hist, texts) = record_new op s.log (sym (i.texts text) ∙ fresh) in
    let t : EditorSession = record s {
      applied_operations = emplace text tt s.applied_operations;
      log = record_operation op s.log;
      doc = d;
      cursor = c;
    } in
    let (m, left, here) = remotes_kept h op s.doc t i.holds v i.remotes in
    record {
      after = record t { remote_cursors = m };
      returns = rw (fresh, applied, moved) left;
      inv = record {
        sound = record {
          holds = subst (λ k. After k d) (sym hist) v;
          replay = rw hist (apply_history-last h op new_document s.doc d i.replay applied);
          texts = λ u. rw texts (
              contains-emplace text u tt s.applied_operations
              ∙ rw (i.texts u) (sym (contains-emplace text u tt s.log.recorded_operations)));
          remotes = here;
        };
        stands = stands;
      };
      logged = hist;
      seen = refl;
      client = refl;
      unsent = refl;
    }

-- A remote operation, new or not.
pub apply_operation-Applied :
    (op : Operation) (s : EditorSession)
    → SessionInv s
    → IsGenuine (Inserted (history s ++ op ∷ []))
    → (((contains (serialize_operation op) s.applied_operations ≡ true)
          × (apply_operation op false s ≡ done s))
        ⊎ Applied s op (apply_operation op false s))
unfolding apply_operation
apply_operation-Applied op s i g =
    elim (Bool-cases (contains (serialize_operation op) s.applied_operations)) [
      | inl old ↦ inl (old, rw old)
      | inr new ↦ inr (
          apply_operation-new op false s i.sound new g
            λ d v. update_on_remote-IsAnchor (history s) op i.sound.holds v s.cursor i.stands)
    ]
