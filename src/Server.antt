-- ===== src/Server.antt =====
-- crdt_editor/network/server.* and client_connection.*: the server, its connections, and what it
-- does with each message. Connections are shared objects, so the state maps their names to them.
pub mod Receive
pub mod Writing
use crdt_networking_applicat.Prelude.{
  ℕ, ℕ_discrete, Bool, true, false, Option, none, some, List, [], ◌∷◌, ◌++◌, not, ◌||◌,
  if◌then◌else◌, ite,
}
use crdt_networking_applicat.Prelude.Maps.{
  Key, Map, lookup, contains, erase, assign, emplace, same_key,
}
use crdt_networking_applicat.Ids.{ElementId, root_id, text_key}
use crdt_networking_applicat.Operation.{Operation}
use crdt_networking_applicat.Outcome.{
  Fault, Result, ok, err, Outcome, done, threw, ◌then_do◌, out_of_range, invalid_argument,
  no_current_document, empty_client_id, client_id_taken, empty_document_id, not_registered,
}
use crdt_networking_applicat.Text.{Bytes, codes}
use crdt_networking_applicat.Message.{
  MessageType, hello, hello_ack, operation, sync_response, sync_complete, cursor_update,
  open_document, MessagePayload, monostate, of_operation, of_operations, of_cursor, of_document,
  DocumentId, Message, serialize, deserialize, make_message,
}
use crdt_networking_applicat.Framing.{frame_message}
use crdt_networking_applicat.Document.{Document}
use crdt_networking_applicat.Storage.{
  Database, DocumentStore, PersistentDocument, exists, create_document, get_document, load_log,
  apply_operation,
}

pub data ClientState : Type 0 where
  unregistered registered syncing live disconnected : ClientState

pub record Connection : Type 0 where
  pub client_id : Bytes
  pub state : ClientState
  pub current_document : Option DocumentId
  pub write_queue : List Bytes

abbrev pub new_connection : Connection
new_connection = record {
  client_id = [];
  state = unregistered;
  current_document = none;
  write_queue = [];
}

abbrev pub is_registered : ClientState → Bool
is_registered registered = true
is_registered syncing = true
is_registered live = true
is_registered _ = false

abbrev pub is_syncing : ClientState → Bool
is_syncing syncing = true
is_syncing _ = false

abbrev pub is_live : ClientState → Bool
is_live live = true
is_live _ = false

abbrev pub is_disconnected : ClientState → Bool
is_disconnected disconnected = true
is_disconnected _ = false

-- the states in which send drops the message
abbrev pub is_silent : ClientState → Bool
is_silent unregistered = true
is_silent disconnected = true
is_silent _ = false

instance abbrev pub name_key : Key ℕ
name_key = record { key_eq = ℕ_discrete }

-- The names of connections are the shared pointers.
pub record Server (S : Type 0) : Type 0 where
  pub clients : Map Bytes ℕ
  pub pending_sync_operations : Map Bytes (List Operation)
  pub presence : Map Bytes ElementId
  pub document_store : DocumentStore S
  pub connections : Map ℕ Connection

abbrev found_connection : Option Connection → Connection
found_connection none = new_connection
found_connection (some c) = c

abbrev pub server_name : Bytes
server_name = codes "server"

abbrev pub is_empty : Bytes → Bool
is_empty [] = true
is_empty (c ∷ s) = false

abbrev pub same_document : Option DocumentId → Option DocumentId → Bool
same_document none other = false
same_document (some d) none = false
same_document (some d) (some e) = ite (same_key d e) true false

abbrev pub pending_at : Option (List Operation) → List Operation
pending_at none = []
pending_at (some os) = os

module _ {S : Type 0} where
  unfoldable pub connection_at : ℕ → Server S → Connection
  connection_at k s = found_connection (lookup k s.connections)

  unfoldable pub change : ℕ → (Connection → Connection) → Server S → Server S
  unfolding connection_at
  change k f s = record s { connections = assign k (f (connection_at k s)) s.connections }

  abbrev pub queued : ℕ → Server S → Result Bytes → Outcome (Server S)
  queued k s (err e) = threw e s
  queued k s (ok frame) =
      done (change k (λ c. record c { write_queue = c.write_queue ++ frame ∷ [] }) s)

  -- ClientConnection::send
  unfoldable pub send : ℕ → Bytes → Server S → Outcome (Server S)
  send k message s =
      if is_silent (connection_at k s).state then done s else queued k s (frame_message message)

  -- the client is forgotten if the connection under its id is this one
  abbrev pub forget : ℕ → Bytes → Server S → Option ℕ → Server S
  forget k id s none = s
  forget k id s (some j) =
      ite (same_key j k)
        (record s {
          clients = erase id s.clients;
          pending_sync_operations = erase id s.pending_sync_operations;
          presence = erase id s.presence;
        })
        s

  -- Server::unregister_client
  unfoldable pub unregister_client : ℕ → Server S → Server S
  unregister_client k s =
      let id = (connection_at k s).client_id in forget k id s (lookup id s.clients)

  -- ClientConnection::disconnect
  unfoldable pub disconnect : ℕ → Server S → Server S
  unfolding change unregister_client
  disconnect k s =
      if is_disconnected (connection_at k s).state
      then s
      else (let marked = change k (λ c. record c { state = disconnected }) s in
          change k (λ c. record c { write_queue = [] })
            (if is_empty (connection_at k s).client_id then marked else unregister_client k marked))

  -- Server::register_client
  unfoldable pub register_client : ℕ → Bytes → Server S → Outcome (Server S)
  unfolding send change
  register_client k id s =
      if is_empty id
      then threw empty_client_id s
      else if contains id s.clients
      then threw client_id_taken s
      else send k (serialize (make_message hello_ack server_name monostate)) (
          change k (λ c. record c { client_id = id; state = registered })
            (record s {
              clients = emplace id k s.clients;
              pending_sync_operations = emplace id [] s.pending_sync_operations;
              presence = emplace id root_id s.presence;
            }))

  -- the loop over the operations that came while the client was syncing
  unfoldable pub send_operations : ℕ → List Operation → Server S → Outcome (Server S)
  unfolding send
  send_operations k [] s = done s
  send_operations k (o ∷ os) s =
      send k (serialize (make_message operation server_name (of_operation o))) s
      then_do send_operations k os

  -- the presence of one client, for another
  unfoldable pub send_one_presence : ℕ → Bytes → ElementId → Server S → Outcome (Server S)
  unfolding send
  send_one_presence k id cursor s =
      ite (same_key id (connection_at k s).client_id) (done s) (elim (lookup id s.clients) [
        | none ↦ done s
        | some j ↦
            let other = connection_at j s in
            if not (is_live other.state)
              || not (same_document other.current_document (connection_at k s).current_document)
            then done s
            else send k (serialize (make_message cursor_update id (of_cursor cursor))) s
      ])

  unfoldable pub send_each_presence : ℕ → Map Bytes ElementId → Server S → Outcome (Server S)
  unfolding send_one_presence
  send_each_presence k [] s = done s
  send_each_presence k ((id, cursor) ∷ m) s =
      send_one_presence k id cursor s then_do send_each_presence k m

  -- Server::send_presence
  unfoldable pub send_presence : ℕ → Server S → Outcome (Server S)
  unfolding send_each_presence
  send_presence k s = elim (connection_at k s).current_document [
    | none ↦ threw no_current_document s
    | some d ↦ send_each_presence k s.presence s
  ]

  -- Server::finish_sync
  unfoldable pub finish_sync : ℕ → Server S → Outcome (Server S)
  unfolding send_operations send_presence change
  finish_sync k s =
      let c = connection_at k s in
      if not (is_syncing c.state) then done s else elim c.current_document [
        | none ↦ threw no_current_document s
        | some d ↦ elim (lookup c.client_id s.pending_sync_operations) [
          | none ↦ done s
          | some operations ↦ send_operations k operations s then_do λ t. send_presence k (
              change k (λ c'. record c' { state = live })
                (record t {
                  pending_sync_operations = erase c.client_id t.pending_sync_operations;
                }))
        ]
      ]
