-- ===== src/Server/Receive.antt =====
-- crdt_editor/network/server.cpp: routing, opening documents, and what the server does with a
-- message.
pub mod Store
pub mod Isolation
use crdt_networking_applicat.Prelude.{
  ℕ, ℕ_discrete, Bool, true, false, Option, none, some, List, [], ◌∷◌, ◌++◌, not, ◌||◌,
  if◌then◌else◌, ite,
}
use crdt_networking_applicat.Prelude.Maps.{
  Key, Map, lookup, contains, erase, assign, emplace, same_key,
}
use crdt_networking_applicat.Ids.{ElementId, root_id, text_key}
use crdt_networking_applicat.Operation.{Operation}
use crdt_networking_applicat.Outcome.{
  Fault, Result, ok, err, Outcome, done, threw, ◌then_do◌, out_of_range, invalid_argument,
  no_current_document, empty_client_id, client_id_taken, empty_document_id, not_registered,
}
use crdt_networking_applicat.Text.{Bytes, codes}
use crdt_networking_applicat.Message.{
  MessageType, hello, hello_ack, operation, sync_response, sync_complete, cursor_update,
  open_document, MessagePayload, monostate, of_operation, of_operations, of_cursor, of_document,
  DocumentId, Message, serialize, deserialize, make_message,
}
use crdt_networking_applicat.Framing.{frame_message}
use crdt_networking_applicat.Document.{Document}
use crdt_networking_applicat.Storage.{
  Database, DocumentStore, PersistentDocument, exists, create_document, get_document, load_log,
  apply_operation,
}
use crdt_networking_applicat.Server.{
  Connection, Server, connection_at, change, send, same_document, pending_at, is_registered,
  is_syncing, is_live, registered, syncing, live, server_name, is_empty, name_key, disconnect,
  register_client, finish_sync,
}

module _ {S : Type 0} where
  -- one round of the loop of route_message
  unfoldable pub route_one : ℕ → Operation → Bytes → Bytes → ℕ → Server S → Outcome (Server S)
  unfolding send
  route_one k o text id j s = ite (same_key j k) (done s) (
      let other = connection_at j s in
      if not (same_document other.current_document (connection_at k s).current_document)
      then done s
      else if is_syncing other.state
      then done (record s {
        pending_sync_operations =
            assign id (pending_at (lookup id s.pending_sync_operations) ++ o ∷ [])
              s.pending_sync_operations;
      })
      else if is_live other.state
      then send j text s
      else done s)

  unfoldable pub route_each : ℕ → Operation → Bytes → Map Bytes ℕ → Server S → Outcome (Server S)
  unfolding route_one
  route_each k o text [] s = done s
  route_each k o text ((id, j) ∷ m) s = route_one k o text id j s then_do route_each k o text m

  -- Server::route_message
  unfoldable pub route_message : ℕ → Operation → Message → Server S → Outcome (Server S)
  unfolding route_each
  route_message k o message s = elim (connection_at k s).current_document [
    | none ↦ threw no_current_document s
    | some d ↦ route_each k o (serialize message) s.clients s
  ]

  unfoldable pub route_cursor_one : ℕ → Bytes → ℕ → Server S → Outcome (Server S)
  unfolding send
  route_cursor_one k text j s = ite (same_key j k) (done s) (
      let other = connection_at j s in
      if not (same_document other.current_document (connection_at k s).current_document)
        || not (is_live other.state)
      then done s
      else send j text s)

  unfoldable pub route_cursor_each : ℕ → Bytes → Map Bytes ℕ → Server S → Outcome (Server S)
  unfolding route_cursor_one
  route_cursor_each k text [] s = done s
  route_cursor_each k text ((id, j) ∷ m) s =
      route_cursor_one k text j s then_do route_cursor_each k text m

  -- Server::route_cursor_update
  unfoldable pub route_cursor_update : ℕ → ElementId → Message → Server S → Outcome (Server S)
  unfolding route_cursor_each
  route_cursor_update k position message s =
      let id = (connection_at k s).client_id in
      elim (connection_at k s).current_document [
        | none ↦ threw no_current_document s
        | some d ↦
            if contains id s.presence
            then route_cursor_each k (serialize message) s.clients
                (record s { presence = assign id position s.presence })
            else threw out_of_range s
      ]

  -- An exception of a handler is caught, and the client is disconnected.
  abbrev pub or_disconnect : ℕ → Outcome (Server S) → Server S
  or_disconnect k (done s) = s
  or_disconnect k (threw e s) = disconnect k s

module _ {S : Type 0} (db : Database S) (sha256 : Bytes → Bytes) where
  abbrev answer_history : ℕ → DocumentId → Server S → Result (List Operation) → Outcome (Server S)
  answer_history k d s (err e) = threw e s
  answer_history k d s (ok history) =
      send k (serialize (make_message sync_response server_name (of_operations history)))
        (change k (λ c. record c { current_document = some d; state = syncing }) s)

  -- the document is found, its history is sent
  unfoldable pub open_stored : ℕ → DocumentId → Server S → Outcome (Server S)
  unfolding send change
  open_stored k d s = elim (get_document db sha256 d s.document_store) [
    | err e ↦ threw e s
    | ok document ↦ answer_history k d s (load_log db sha256 d s.document_store.tables)
  ]

  abbrev with_store : Server S → Outcome (DocumentStore S) → Outcome (Server S)
  with_store s (done store) = done (record s { document_store = store })
  with_store s (threw e store) = threw e (record s { document_store = store })

  -- Server::open_document
  unfoldable pub open_document_for : ℕ → DocumentId → Server S → Outcome (Server S)
  unfolding open_stored
  open_document_for k d s =
      if is_empty d
      then threw empty_document_id s
      else if not (is_registered (connection_at k s).state)
      then threw not_registered s
      else if exists db sha256 d s.document_store
      then open_stored k d s
      else (with_store s (create_document db sha256 d s.document_store) then_do open_stored k d)

  abbrev stored_again : Server S → Outcome (PersistentDocument S) → Outcome (Server S)
  stored_again s (done p) = done (record s {
    document_store = record {
      documents = assign p.document_id p.document s.document_store.documents;
      tables = p.database;
    };
  })
  stored_again s (threw e p) = threw e (record s {
    document_store = record {
      documents = assign p.document_id p.document s.document_store.documents;
      tables = p.database;
    };
  })

  -- document_store.get_document(document_id).apply_operation(op)
  unfoldable pub apply_to_stored : DocumentId → Operation → Server S → Outcome (Server S)
  apply_to_stored d o s = elim (get_document db sha256 d s.document_store) [
    | err e ↦ threw e s
    | ok document ↦ stored_again s (
        apply_operation db sha256 o
          (record { document = document; document_id = d; database = s.document_store.tables }))
  ]

  -- the switch of receive_message
  unfoldable pub handle : ℕ → Message → MessageType → MessagePayload → Server S → Outcome (Server S)
  unfolding apply_to_stored open_document_for
  handle k m hello p s =
      if is_registered (connection_at k s).state
      then done (disconnect k s)
      else done (or_disconnect k (register_client k m.sender s))
  handle k m operation (of_operation o) s =
      if not (is_live (connection_at k s).state)
      then done (disconnect k s)
      else elim (connection_at k s).current_document [
        | none ↦ done (disconnect k s)
        | some d ↦ apply_to_stored d o s then_do route_message k o m
      ]
  handle k m sync_complete p s =
      if not (is_syncing (connection_at k s).state) then done (disconnect k s) else finish_sync k s
  handle k m cursor_update (of_cursor position) s =
      if not (is_live (connection_at k s).state)
      then done (disconnect k s)
      else route_cursor_update k position m s
  handle k m open_document (of_document d) s =
      if not (is_registered (connection_at k s).state)
      then done (disconnect k s)
      else elim (connection_at k s).current_document [
        | none ↦ done (or_disconnect k (open_document_for k d s))
        | some e ↦ done (disconnect k s)
      ]
  handle k m t p s = done (disconnect k s)

  abbrev pub handled : ℕ → Server S → Result Message → Server S
  handled k s (err e) = disconnect k s
  handled k s (ok m) = or_disconnect k (handle k m m.message_type m.payload s)

  -- Server::receive_message
  unfoldable pub receive_message : ℕ → Bytes → Server S → Server S
  unfolding handle
  receive_message k text s = handled k s (deserialize text)
