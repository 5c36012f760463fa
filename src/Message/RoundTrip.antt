-- ===== src/Message/RoundTrip.antt =====
-- Reading the text of a message gives it back.
use crdt_networking_applicat.Prelude.{
  ℕ, ℕ_discrete, ◌≡◌, ◌≢◌, refl, sym, ap, ◌∙◌, List, [], ◌∷◌, ◌++◌, In, inl, inr, arith,
}
use crdt_networking_applicat.Ids.{ElementId, List-discrete}
use crdt_networking_applicat.Operation.{Operation, insert, remove}
use crdt_networking_applicat.Outcome.{Result, ok, err, ◌>>=◌, invalid_argument}
use crdt_networking_applicat.Text.{Bytes, split, fields, to_string}
use crdt_networking_applicat.Text.Fields.{fields-append, fields_single, mem-bytes_append}
use crdt_networking_applicat.Text.Decimal.{to_string-lacks}
use crdt_networking_applicat.Codec.{
  serialize_id, deserialize_id, serialize_operation, deserialize_operation, serialize_insert,
  serialize_remove, insert_tag, remove_tag,
}
use crdt_networking_applicat.Codec.RoundTrip.{
  IsPlain, IsWritable, deserialize_id-serialize_id, serialize_id-lacks,
  deserialize_operation-serialize_operation,
}
use crdt_networking_applicat.Message.{
  MessageType, hello, hello_ack, operation, sync_request, sync_response, sync_complete,
  cursor_update, open_document, MessagePayload, monostate, of_operation, of_operations, of_cursor,
  of_document, Message, newline, serialize_type, deserialize_type, serialize_operations,
  serialize_payload, serialize, deserialize_operations, deserialize_payload, make_message,
  message_of_tokens, deserialize, third_token, DocumentId,
}

-- An operation whose text is one line and can be read.
abbrev pub IsLine : Operation → Type 0
IsLine (insert o) = IsWritable (insert o) × IsPlain newline o.parent × IsPlain newline o.ident
IsLine (remove o) = IsWritable (remove o) × IsPlain newline o.the_target

abbrev pub AreLines : List Operation → Type 0
AreLines [] = Unit
AreLines (o ∷ os) = IsLine o × AreLines os

-- What each type of message carries; a SYNC_REQUEST is not read by the program.
pub data IsPayloadOf : MessageType → MessagePayload → Type 0 where
  of_hello : IsPayloadOf hello monostate
  of_hello_ack : IsPayloadOf hello_ack monostate
  of_complete : IsPayloadOf sync_complete monostate
  of_line : (o : Operation) → IsLine o → IsPayloadOf operation (of_operation o)
  of_lines : (os : List Operation) → AreLines os → IsPayloadOf sync_response (of_operations os)
  of_position : (i : ElementId) → IsPlain newline i → IsPayloadOf cursor_update (of_cursor i)
  of_name : (d : DocumentId) → d ≢ [] → ¬ In newline d → IsPayloadOf open_document (of_document d)

-- A message that the peer reads as it was.
abbrev pub IsReadable : Message → Type 0
IsReadable m = (¬ In newline m.sender) × IsPayloadOf m.message_type m.payload

-- Reading the name of a message type gives the type back.
pub deserialize_type-serialize_type : (t : MessageType) → deserialize_type (serialize_type t) ≡ ok t
unfolding deserialize_type serialize_type List-discrete ℕ_discrete
deserialize_type-serialize_type hello = refl
deserialize_type-serialize_type hello_ack = refl
deserialize_type-serialize_type operation = refl
deserialize_type-serialize_type sync_request = refl
deserialize_type-serialize_type sync_response = refl
deserialize_type-serialize_type sync_complete = refl
deserialize_type-serialize_type cursor_update = refl
deserialize_type-serialize_type open_document = refl

serialize_type-lacks : (t : MessageType) → ¬ In newline (serialize_type t)
unfolding serialize_type
serialize_type-lacks hello m = ground arith
serialize_type-lacks hello_ack m = ground arith
serialize_type-lacks operation m = ground arith
serialize_type-lacks sync_request m = ground arith
serialize_type-lacks sync_response m = ground arith
serialize_type-lacks sync_complete m = ground arith
serialize_type-lacks cursor_update m = ground arith
serialize_type-lacks open_document m = ground arith

id_line : (i : ElementId) → IsPlain newline i → ¬ In newline (serialize_id i)
id_line i h = serialize_id-lacks newline i refl (λ e. omega arith) h.1

bar_line : (a b : Bytes) → ¬ In newline a → ¬ In newline b → ¬ In newline (a ++ b'|' ∷ b)
bar_line a b h k =
    mem-bytes_append newline a (b'|' ∷ b) h (λ m. elim m [ inl e ↦ omega arith | inr n ↦ k n ])

operation_line : (o : Operation) → IsLine o → ¬ In newline (serialize_operation o)
unfolding serialize_operation serialize_insert serialize_remove
operation_line (insert o) (w, p, i) =
    bar_line insert_tag _ (λ m. ground arith)
      (bar_line (serialize_id o.parent) _ (id_line o.parent p) (
        bar_line (serialize_id o.ident) (to_string o.ch) (id_line o.ident i)
          (to_string-lacks o.ch newline refl)))
operation_line (remove o) (w, t) =
    bar_line remove_tag (serialize_id o.the_target) (λ m. ground arith) (id_line o.the_target t)

IsLine-IsWritable : (o : Operation) → IsLine o → IsWritable o
IsLine-IsWritable (insert o) h = h.0
IsLine-IsWritable (remove o) h = h.0

read_line : (o : Operation) → IsLine o → deserialize_operation (serialize_operation o) ≡ ok o
read_line o h = deserialize_operation-serialize_operation o (IsLine-IsWritable o h)

-- The text of an operation is not empty.
operation_cons : (o : Operation) → (c : ℕ) × (t : Bytes) × (serialize_operation o ≡ c ∷ t)
unfolding serialize_operation serialize_insert serialize_remove
operation_cons (insert o) = (_, _, refl)
operation_cons (remove o) = (_, _, refl)

-- The lines of a SYNC_RESPONSE are read one by one, and the empty one at the end is skipped.
deserialize_operations-fields :
    (os : List Operation)
    → AreLines os
    → deserialize_operations (fields newline (serialize_operations os)) ≡ ok os
unfolding deserialize_operations serialize_operations fields
deserialize_operations-fields [] h = refl
deserialize_operations-fields (o ∷ os) (h, hs) =
    let (c, t, e) = operation_cons o in
    let read_first = sym (ap deserialize_operation e) ∙ read_line o h in
    ap deserialize_operations (
      fields-append newline (serialize_operation o) (serialize_operations os) (operation_line o h)
      ∙ ap (λ x. x ∷ fields newline (serialize_operations os)) e)
    ∙ rw (read_first, deserialize_operations-fields os hs)

third_token-line :
    {A : Type 0} (f : Bytes → Result A) (s : Bytes)
    → s ≢ []
    → ¬ In newline s
    → third_token f (fields newline s) ≡ f s
third_token-line f [] n h = absurd (n refl)
third_token-line f (c ∷ s) n h = ap (third_token f) (fields_single newline (c ∷ s) h)

id_ne-nil : (i : ElementId) → serialize_id i ≢ []
unfolding serialize_id
id_ne-nil i e = ne (to_string i.lamport) e
  where
    ne : (a : Bytes) → a ++ b',' ∷ i.site_id ≢ []
    ne [] e = cc
    ne (x ∷ a) e = cc

read_payload :
    (t : MessageType) (p : MessagePayload)
    → IsPayloadOf t p
    → deserialize_payload t (fields newline (serialize_payload p)) ≡ ok p
unfolding deserialize_payload serialize_payload
read_payload _ _ of_hello = refl
read_payload _ _ of_hello_ack = refl
read_payload _ _ of_complete = refl
read_payload _ _ (of_line o h) =
    let (c, t, e) = operation_cons o in
    rw (
      third_token-line deserialize_operation (serialize_operation o) (λ n. cc) (operation_line o h),
      read_line o h,
    )
read_payload _ _ (of_lines os h) = rw (deserialize_operations-fields os h)
read_payload _ _ (of_position i h) = rw (
  third_token-line deserialize_id (serialize_id i) (id_ne-nil i) (id_line i h),
  deserialize_id-serialize_id i h.0,
)
read_payload _ _ (of_name d n h) = rw (third_token-line (λ t. ok t) d n h)

-- What is read of a message's text, up to the payload.
deserialize-head :
    (m : Message)
    → ¬ In newline m.sender
    → deserialize (serialize m) ≡ (
        deserialize_payload m.message_type (fields newline (serialize_payload m.payload)) >>= λ p.
        ok (make_message m.message_type m.sender p))
unfolding deserialize serialize split
deserialize-head m s =
    ap message_of_tokens (
      split_type (serialize_type m.message_type) (serialize_type-lacks m.message_type)
        (m.sender ++ newline ∷ serialize_payload m.payload)
      ∙ ap (λ r. serialize_type m.message_type ∷ r)
          (fields-append newline m.sender (serialize_payload m.payload) s))
    ∙ rw (deserialize_type-serialize_type m.message_type)
  where
    split_type :
        (a : Bytes)
        → ¬ In newline a
        → (rest : Bytes) → split newline (a ++ newline ∷ rest) ≡ a ∷ fields newline rest
    split_type [] h rest = fields-append newline [] rest h
    split_type (x ∷ a) h rest = fields-append newline (x ∷ a) rest h

-- Reading the text of a readable message gives the message back: its sender is one line, and it
-- carries what its type asks for, with 64-bit clocks and sites without separators.
pub deserialize-serialize : (m : Message) → IsReadable m → deserialize (serialize m) ≡ ok m
deserialize-serialize m (s, p) = deserialize-head m s ∙ rw (read_payload m.message_type m.payload p)

-- A SYNC_REQUEST whose sender is one line is written, whatever it carries, but reading its text
-- throws std::invalid_argument.
pub deserialize-serialize-sync_request :
    (m : Message)
    → ¬ In newline m.sender
    → m.message_type ≡ sync_request
    → deserialize (serialize m) ≡ err invalid_argument
unfolding deserialize_payload
deserialize-serialize-sync_request m s e = deserialize-head m s ∙ rw e
