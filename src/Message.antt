-- ===== src/Message.antt =====
-- crdt_editor/network/message.hpp and message.cpp: the messages of the protocol and their texts.
pub mod RoundTrip
use crdt_networking_applicat.Prelude.{
  ℕ, Bool, true, false, List, [], ◌∷◌, ◌++◌, map, ite, if◌then◌else◌,
}
use crdt_networking_applicat.Prelude.Maps.{same_key}
use crdt_networking_applicat.Ids.{ElementId, text_key}
use crdt_networking_applicat.Operation.{Operation}
use crdt_networking_applicat.Outcome.{Result, ok, err, ◌>>=◌, invalid_argument, out_of_range}
use crdt_networking_applicat.Text.{Bytes, codes, split}
use crdt_networking_applicat.Codec.{
  serialize_id, deserialize_id, serialize_operation, deserialize_operation,
}

pub data MessageType : Type 0 where
  hello hello_ack operation sync_request sync_response sync_complete : MessageType
  cursor_update open_document : MessageType

-- DocumentID
abbrev pub DocumentId : Type 0
DocumentId = Bytes

-- the alternatives of std::variant; CursorUpdate and OpenDocument are their only fields
pub data MessagePayload : Type 0 where
  monostate : MessagePayload
  of_operation : Operation → MessagePayload
  of_operations : List Operation → MessagePayload
  of_cursor : ElementId → MessagePayload
  of_document : DocumentId → MessagePayload

pub record Message : Type 0 where
  pub message_type : MessageType
  pub sender : Bytes
  pub payload : MessagePayload

abbrev pub newline : ℕ
newline = 10

-- message_serializer::serialize_type
unfoldable pub serialize_type : MessageType → Bytes
serialize_type hello = codes "HELLO"
serialize_type operation = codes "OPERATION"
serialize_type sync_request = codes "SYNC_REQUEST"
serialize_type sync_response = codes "SYNC_RESPONSE"
serialize_type sync_complete = codes "SYNC_COMPLETE"
serialize_type cursor_update = codes "CURSOR_UPDATE"
serialize_type open_document = codes "OPEN_DOCUMENT"
serialize_type hello_ack = codes "HELLO_ACK"

-- message_serializer::deserialize_type
unfoldable pub deserialize_type : Bytes → Result MessageType
deserialize_type s = ite (same_key s (codes "HELLO")) (ok hello) (
    ite (same_key s (codes "OPERATION")) (ok operation) (
      ite (same_key s (codes "SYNC_REQUEST")) (ok sync_request) (
        ite (same_key s (codes "SYNC_RESPONSE")) (ok sync_response) (
          ite (same_key s (codes "SYNC_COMPLETE")) (ok sync_complete) (
            ite (same_key s (codes "CURSOR_UPDATE")) (ok cursor_update) (
              ite (same_key s (codes "OPEN_DOCUMENT")) (ok open_document)
                (ite (same_key s (codes "HELLO_ACK")) (ok hello_ack) (err invalid_argument))))))))

-- each operation and a newline
unfoldable pub serialize_operations : List Operation → Bytes
serialize_operations [] = []
serialize_operations (o ∷ os) = serialize_operation o ++ newline ∷ serialize_operations os

unfoldable pub serialize_payload : MessagePayload → Bytes
unfolding serialize_operations
serialize_payload monostate = []
serialize_payload (of_operation o) = serialize_operation o
serialize_payload (of_cursor position) = serialize_id position
serialize_payload (of_operations os) = serialize_operations os
serialize_payload (of_document document_id) = document_id

-- Message::serialize
unfoldable pub serialize : Message → Bytes
unfolding serialize_type serialize_payload
serialize m =
    serialize_type m.message_type ++ newline ∷ (m.sender ++ newline ∷ serialize_payload m.payload)

-- the loop of SYNC_RESPONSE over the tokens from the third on
unfoldable pub deserialize_operations : List Bytes → Result (List Operation)
deserialize_operations [] = ok []
deserialize_operations ([] ∷ ts) = deserialize_operations ts
deserialize_operations ((c ∷ t) ∷ ts) =
    deserialize_operation (c ∷ t) >>= λ o. deserialize_operations ts >>= λ os. ok (o ∷ os)

-- tokens.size() < 3 || tokens[2].empty(), and else what reads tokens[2]
abbrev pub third_token {ℓ} : {A : Type ℓ} → (Bytes → Result A) → List Bytes → Result A
third_token f [] = err invalid_argument
third_token f ([] ∷ _) = err invalid_argument
third_token f ((c ∷ t) ∷ _) = f (c ∷ t)

-- the switch on the type, given the tokens from the third on
unfoldable pub deserialize_payload : MessageType → List Bytes → Result MessagePayload
unfolding deserialize_operations
deserialize_payload hello rest = ok monostate
deserialize_payload hello_ack rest = ok monostate
deserialize_payload operation rest =
    third_token deserialize_operation rest >>= λ o. ok (of_operation o)
deserialize_payload sync_response rest = deserialize_operations rest >>= λ os. ok (of_operations os)
deserialize_payload sync_complete rest = ok monostate
deserialize_payload cursor_update rest =
    third_token deserialize_id rest >>= λ position. ok (of_cursor position)
deserialize_payload open_document rest = third_token (λ t. ok t) rest >>= λ t. ok (of_document t)
deserialize_payload sync_request rest = err invalid_argument

abbrev pub make_message : MessageType → Bytes → MessagePayload → Message
make_message t s p = record { message_type = t; sender = s; payload = p }

abbrev pub message_of_tokens : List Bytes → Result Message
message_of_tokens [] = err out_of_range
message_of_tokens (t ∷ []) = deserialize_type t >>= λ _. err out_of_range
message_of_tokens (t ∷ s ∷ rest) = deserialize_type t >>= λ type_read.
    deserialize_payload type_read rest >>= λ p. ok (make_message type_read s p)

-- Message::deserialize
unfoldable pub deserialize : Bytes → Result Message
unfolding deserialize_type deserialize_payload
deserialize s = message_of_tokens (split newline s)
