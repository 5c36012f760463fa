-- ===== src/Examples/Texts.antt =====
-- Ids, operations, messages and frames of crdt_editor that are written and read back.
use crdt_networking_applicat.Prelude.{◌≡◌, refl, [], ◌∷◌, ◌++◌, arith}
use crdt_networking_applicat.Ids.{ElementId, root_id}
use crdt_networking_applicat.Operation.{Operation, insert, remove}
use crdt_networking_applicat.Outcome.{ok, err, invalid_argument}
use crdt_networking_applicat.Text.{Bytes, codes, to_string, stoull}
use crdt_networking_applicat.Text.Decimal.{stoull-to_string}
use crdt_networking_applicat.Codec.{serialize_operation, deserialize_operation}
use crdt_networking_applicat.Codec.RoundTrip.{
  IsPlain, IsWritable, deserialize_operation-serialize_operation,
}
use crdt_networking_applicat.Message.{
  sync_request, sync_response, monostate, of_operations, Message, newline, serialize, deserialize,
  serialize_type, deserialize_type,
}
use crdt_networking_applicat.Message.RoundTrip.{
  AreLines, IsReadable, of_lines, deserialize-serialize, deserialize-serialize-sync_request,
  deserialize_type-serialize_type,
}
use crdt_networking_applicat.Framing.{
  frame_message, message_read, read_frame, read_frame-frame_message,
}

abbrev an_id : ElementId
an_id = record { lamport = 12; site_id = codes "A,B" }

abbrev an_insert : Operation
an_insert = insert (record { parent = root_id; ident = an_id; ch = b'x' })

abbrev a_removal : Operation
a_removal = remove (record { the_target = an_id })

abbrev a_response : Message
a_response = record {
  message_type = sync_response;
  sender = codes "server";
  payload = of_operations (an_insert ∷ a_removal ∷ []);
}

abbrev a_request : Message
a_request = record { message_type = sync_request; sender = codes "A"; payload = monostate }

an_id-IsPlain :
    (IsPlain b'|' an_id × IsPlain b'|' root_id) × IsPlain newline an_id × IsPlain newline root_id
an_id-IsPlain = ground arith

an_insert-IsWritable : IsWritable an_insert
an_insert-IsWritable = ground arith

a_response-AreLines : AreLines (an_insert ∷ a_removal ∷ [])
a_response-AreLines = ground arith

a_response-IsReadable : IsReadable a_response
a_response-IsReadable = (ground arith, of_lines (an_insert ∷ a_removal ∷ []) a_response-AreLines)

stoull-to_string_example : stoull (to_string 2024 ++ codes "!") ≡ ok 2024
stoull-to_string_example = stoull-to_string 2024 (codes "!") (ground arith) refl

deserialize_operation-serialize_operation_example :
    deserialize_operation (serialize_operation an_insert) ≡ ok an_insert
deserialize_operation-serialize_operation_example =
    deserialize_operation-serialize_operation an_insert an_insert-IsWritable

deserialize_type-serialize_type_example :
    deserialize_type (serialize_type sync_request) ≡ ok sync_request
deserialize_type-serialize_type_example = deserialize_type-serialize_type sync_request

deserialize-serialize_example : deserialize (serialize a_response) ≡ ok a_response
deserialize-serialize_example = deserialize-serialize a_response a_response-IsReadable

deserialize-serialize-sync_request_example :
    deserialize (serialize a_request) ≡ err invalid_argument
deserialize-serialize-sync_request_example =
    deserialize-serialize-sync_request a_request (ground arith) refl

read_frame-frame_message_example :
    (framed : Bytes) × (frame_message (codes "hello") ≡ ok framed)
    × (read_frame (framed ++ codes "next") ≡ message_read (codes "hello") (codes "next"))
read_frame-frame_message_example =
    read_frame-frame_message (codes "hello") (codes "next") (ground arith)
