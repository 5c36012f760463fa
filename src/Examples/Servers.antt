-- ===== src/Examples/Servers.antt =====
-- A server of crdt_editor/network/server.cpp with three connections.
use crdt_networking_applicat.Prelude.{ℕ_discrete, ◌≡◌, refl, false, some, [], ◌∷◌}
use crdt_networking_applicat.Prelude.Maps.{lookup}
use crdt_networking_applicat.Ids.{root_id, List-discrete}
use crdt_networking_applicat.Operation.{insert}
use crdt_networking_applicat.Outcome.{object, threw, empty_deque}
use crdt_networking_applicat.Text.{Bytes, codes}
use crdt_networking_applicat.Message.{Message, operation, of_operation}
use crdt_networking_applicat.Server.{
  Connection, Server, live, disconnect, connection_at, name_key, is_registered, same_document,
}
use crdt_networking_applicat.Server.Receive.{route_message, receive_message}
use crdt_networking_applicat.Server.Receive.Store.{receive_message-store}
use crdt_networking_applicat.Server.Receive.Isolation.{connection_at-route_message}
use crdt_networking_applicat.Server.Writing.{write_handler, write_handler-disconnect}
use crdt_networking_applicat.Examples.DocumentRuns.{insert_h}
use crdt_networking_applicat.Examples.Stores.{Rows, rows_database}

abbrev connected : Bytes → Bytes → Connection
connected id d = record {
  client_id = id;
  state = live;
  current_document = some d;
  write_queue = [];
}

-- two clients of two documents, and a connection that has said nothing yet
abbrev three : Server Rows
three = record {
  clients = (codes "A", 1) ∷ (codes "B", 2) ∷ [];
  pending_sync_operations = (codes "A", []) ∷ (codes "B", []) ∷ [];
  presence = (codes "A", root_id) ∷ (codes "B", root_id) ∷ [];
  document_store = record { documents = []; tables = [] };
  connections =
      (1, connected (codes "A") (codes "notes")) ∷ (2, connected (codes "B") (codes "plan")) ∷ [];
}

abbrev an_operation : Message
an_operation = record {
  message_type = operation;
  sender = codes "A";
  payload = of_operation (insert insert_h);
}

silent_stranger : is_registered (connection_at 3 three).state ≡ false
unfolding connection_at lookup ℕ_discrete
silent_stranger = refl

other_documents :
    same_document (connection_at 2 three).current_document (connection_at 1 three).current_document
    ≡ false
unfolding connection_at lookup ℕ_discrete List-discrete
other_documents = refl

receive_message-store_example :
    (receive_message rows_database (λ s. s) 3 (codes "OPERATION") three).document_store
    ≡ three.document_store
receive_message-store_example =
    receive_message-store rows_database (λ s. s) 3 three silent_stranger (codes "OPERATION")

connection_at-route_message_example :
    connection_at 2 (object (route_message 1 (insert insert_h) an_operation three))
    ≡ connection_at 2 three
connection_at-route_message_example =
    connection_at-route_message 1 2 (insert insert_h) an_operation three other_documents

write_handler-disconnect_example :
    write_handler 1 false (disconnect 1 three) ≡ threw empty_deque (disconnect 1 three)
unfolding connection_at lookup ℕ_discrete
write_handler-disconnect_example = write_handler-disconnect 1 three refl
