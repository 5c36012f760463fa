-- ===== src/Session/Agree.antt =====
-- Editor sessions from their start, and sessions that know the same operations.
use crdt_networking_applicat.Prelude.{refl, subst, inl, Bool, []}
use crdt_networking_applicat.Ids.{root_id}
use crdt_networking_applicat.Operation.{Operation}
use crdt_networking_applicat.Text.{Bytes}
use crdt_networking_applicat.OperationLog.{new_log}
use crdt_networking_applicat.IdGenerator.{IdGenerator}
use crdt_networking_applicat.Document.{new_document, apply_history}
use crdt_networking_applicat.Document.History.{apply_history-Holds}
use crdt_networking_applicat.Cursor.{new_cursor}
use crdt_networking_applicat.Session.{new_session}
use crdt_networking_applicat.Session.Steps.{After}
use crdt_networking_applicat.Session.Invariant.{SessionInv}

new_document-After : After [] new_document
unfolding apply_history
new_document-After =
    let (d, e, v) =
      apply_history-Holds [] (record { unique = λ o o' m. absurd m; not_root = λ o m. absurd m }) in
    subst (After []) (cc e) v

-- A session that starts with a new document, an empty log and the cursor behind the root.
pub new_session-SessionInv :
    (g : IdGenerator) (id : Bytes) (callback : Bool)
    → SessionInv (new_session new_document new_log (new_cursor root_id) g id callback)
unfolding new_session new_log new_cursor apply_history
new_session-SessionInv g id callback = record {
  sound = record {
    holds = new_document-After;
    replay = refl;
    texts = λ t. refl;
    remotes = λ k x m. absurd m;
  };
  stands = inl refl;
}
