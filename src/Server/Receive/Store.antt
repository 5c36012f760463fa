-- ===== src/Server/Receive/Store.antt =====
-- Who can change the documents of crdt_editor/network/server.cpp.
use crdt_networking_applicat.Prelude.{
  ℕ, ◌≡◌, refl, ap, ◌∙◌, inl, inr, false, Option, none, some, if_pos, if_neg, Bool-cases,
}
use crdt_networking_applicat.Prelude.Maps.{lookup, contains, same_key}
use crdt_networking_applicat.Ids.{text_key}
use crdt_networking_applicat.Outcome.{Result, ok, err, Outcome, done, threw, object}
use crdt_networking_applicat.Text.{Bytes}
use crdt_networking_applicat.Message.{
  MessageType, hello, hello_ack, operation, sync_request, sync_response, sync_complete,
  cursor_update, open_document, MessagePayload, monostate, of_operation, of_operations, of_cursor,
  of_document, Message, deserialize,
}
use crdt_networking_applicat.Framing.{frame_message}
use crdt_networking_applicat.Storage.{Database}
use crdt_networking_applicat.Server.{
  ClientState, unregistered, registered, syncing, live, disconnected, Server, connection_at, change,
  send, queued, is_silent, is_registered, is_live, is_syncing, is_disconnected, unregister_client,
  forget, disconnect, register_client, is_empty, name_key,
}
use crdt_networking_applicat.Server.Receive.{receive_message, handle, handled, or_disconnect}

module _ {S : Type 0} where
  send-store :
      (k : ℕ) (text : Bytes) (s : Server S)
      → (object (send k text s)).document_store ≡ s.document_store
  unfolding send change
  send-store k text s = elim (Bool-cases (is_silent (connection_at k s).state)) [
    | inl q ↦ rw q
    | inr q ↦ rw q (sent (frame_message text))
  ]
    where
      sent : (r : Result Bytes) → (object (queued k s r)).document_store ≡ s.document_store
      sent (err e) = refl
      sent (ok f) = refl

  unregister_client-store :
      (k : ℕ) (s : Server S) → (unregister_client k s).document_store ≡ s.document_store
  unfolding unregister_client
  unregister_client-store k s = forgotten (lookup (connection_at k s).client_id s.clients)
    where
      forgotten :
          (o : Option ℕ)
          → (forget k (connection_at k s).client_id s o).document_store ≡ s.document_store
      forgotten none = refl
      forgotten (some j) = elim (same_key j k) [
        | yes q ↦ ap (λ (t : Server S). t.document_store) (if_pos (same_key j k) q _ _)
        | no n ↦ ap (λ (t : Server S). t.document_store) (if_neg (same_key j k) n _ _)
      ]

  disconnect-store : (k : ℕ) (s : Server S) → (disconnect k s).document_store ≡ s.document_store
  unfolding disconnect change
  disconnect-store k s = elim (Bool-cases (is_disconnected (connection_at k s).state)) [
    | inl q ↦ rw q
    | inr q ↦ rw q (elim (Bool-cases (is_empty (connection_at k s).client_id)) [
      | inl e ↦ rw e
      | inr e ↦ rw e (unregister_client-store k _)
    ])
  ]

  register_client-store :
      (k : ℕ) (id : Bytes) (s : Server S)
      → (object (register_client k id s)).document_store ≡ s.document_store
  unfolding register_client change
  register_client-store k id s = elim (Bool-cases (is_empty id)) [
    | inl e ↦ rw e
    | inr e ↦ elim (Bool-cases (contains id s.clients)) [
      | inl q ↦ rw (e, q)
      | inr q ↦ rw (e, q) (send-store k _ _)
    ]
  ]

  or_disconnect-store :
      (k : ℕ) (r : Outcome (Server S))
      → (or_disconnect k r).document_store ≡ (object r).document_store
  or_disconnect-store k (done s) = refl
  or_disconnect-store k (threw e s) = disconnect-store k s

not_live :
    (c : ClientState) → is_registered c ≡ false → (is_live c ≡ false) × (is_syncing c ≡ false)
not_live unregistered h = (refl, refl)
not_live registered h = cc
not_live syncing h = cc
not_live live h = cc
not_live disconnected h = (refl, refl)

module _ {S : Type 0} (db : Database S) (sha256 : Bytes → Bytes) (k : ℕ) (s : Server S)
    (h : is_registered (connection_at k s).state ≡ false) where
  handle-store :
      (m : Message) (t : MessageType) (p : MessagePayload)
      → (object (handle db sha256 k m t p s)).document_store ≡ s.document_store
  unfolding handle
  handle-store m hello p =
      rw h
        (or_disconnect-store k (register_client k m.sender s) ∙ register_client-store k m.sender s)
  handle-store m hello_ack p = disconnect-store k s
  handle-store m sync_request p = disconnect-store k s
  handle-store m sync_response p = disconnect-store k s
  handle-store m sync_complete p = rw (not_live _ h).1 (disconnect-store k s)
  handle-store m operation (of_operation o) = rw (not_live _ h).0 (disconnect-store k s)
  handle-store m operation monostate = disconnect-store k s
  handle-store m operation (of_operations os) = disconnect-store k s
  handle-store m operation (of_cursor i) = disconnect-store k s
  handle-store m operation (of_document d) = disconnect-store k s
  handle-store m cursor_update (of_cursor i) = rw (not_live _ h).0 (disconnect-store k s)
  handle-store m cursor_update monostate = disconnect-store k s
  handle-store m cursor_update (of_operation o) = disconnect-store k s
  handle-store m cursor_update (of_operations os) = disconnect-store k s
  handle-store m cursor_update (of_document d) = disconnect-store k s
  handle-store m open_document (of_document d) = rw h (disconnect-store k s)
  handle-store m open_document monostate = disconnect-store k s
  handle-store m open_document (of_operation o) = disconnect-store k s
  handle-store m open_document (of_operations os) = disconnect-store k s
  handle-store m open_document (of_cursor i) = disconnect-store k s

  -- Whatever a connection that is not registered sends, the documents and the database stay as
  -- they are.
  pub receive_message-store :
      (text : Bytes) → (receive_message db sha256 k text s).document_store ≡ s.document_store
  unfolding receive_message
  receive_message-store text = with_message (deserialize text)
    where
      with_message :
          (r : Result Message) → (handled db sha256 k s r).document_store ≡ s.document_store
      with_message (err e) = disconnect-store k s
      with_message (ok m) =
          or_disconnect-store k (handle db sha256 k m m.message_type m.payload s)
          ∙ handle-store m m.message_type m.payload
