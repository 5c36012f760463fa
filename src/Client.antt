-- ===== src/Client.antt =====
-- crdt_editor/network/network_client.*: the states of a client's connection, what it sends and
-- which messages of the server it takes. What is posted to the io_context happens later.
pub mod Writing
use crdt_networking_applicat.Prelude.{
  ℕ, suc, ◌+◌, ◌%◌, ◌<◌, ◌≡◌, ◌≢◌, inl, inr, refl, sym, ◌∙◌, Bool, true, false, not, ◌||◌, List, [],
  ◌∷◌, ◌++◌, ◌==◌, if◌then◌else◌, arith, Bool-cases,
}
use crdt_networking_applicat.Outcome.{Result, ok, err, Outcome, done, threw, object}
use crdt_networking_applicat.Text.{Bytes, word}
use crdt_networking_applicat.Message.{
  MessageType, hello, hello_ack, operation, sync_request, sync_response, sync_complete,
  cursor_update, open_document, monostate, of_document, DocumentId, Message, serialize, deserialize,
  make_message,
}
use crdt_networking_applicat.Framing.{frame_message}

pub data NetworkClientState : Type 0 where
  disconnected connecting registering registered syncing live : NetworkClientState

pub record NetworkClient : Type 0 where
  pub client_id : Bytes
  pub state : NetworkClientState
  pub connection_generation : ℕ
  pub write_queue : List Bytes
  pub incoming_queue : List Message
  pub posted_disconnects : ℕ

unfoldable pub new_client : Bytes → NetworkClient
new_client id = record {
  client_id = id;
  state = disconnected;
  connection_generation = 0;
  write_queue = [];
  incoming_queue = [];
  posted_disconnects = 0;
}

abbrev pub is_disconnected : NetworkClientState → Bool
is_disconnected disconnected = true
is_disconnected _ = false

abbrev pub can_send : NetworkClientState → Bool
can_send disconnected = false
can_send connecting = false
can_send _ = true

abbrev pub is_registering : NetworkClientState → Bool
is_registering registering = true
is_registering _ = false

abbrev pub is_registered : NetworkClientState → Bool
is_registered registered = true
is_registered _ = false

abbrev pub is_syncing : NetworkClientState → Bool
is_syncing syncing = true
is_syncing _ = false

-- SYNCING or LIVE
abbrev pub takes_operations : NetworkClientState → Bool
takes_operations syncing = true
takes_operations live = true
takes_operations _ = false

abbrev next_generation : NetworkClient → ℕ
next_generation c = (c.connection_generation + 1) % word

abbrev enqueued : NetworkClient → Result Bytes → Outcome NetworkClient
enqueued c (err e) = threw e c
enqueued c (ok frame) = done (record c { write_queue = c.write_queue ++ frame ∷ [] })

-- NetworkClient::send_message_impl
unfoldable pub send_message_impl : Bytes → NetworkClient → Outcome NetworkClient
send_message_impl message c =
    if can_send c.state then enqueued c (frame_message message) else done c

-- NetworkClient::disconnect_impl
unfoldable pub disconnect_impl : NetworkClient → NetworkClient
disconnect_impl c = if is_disconnected c.state then c else record c {
  state = disconnected;
  connection_generation = next_generation c;
  write_queue = [];
}

-- NetworkClient::disconnect
abbrev post_disconnect : NetworkClient → NetworkClient
post_disconnect c = record c { posted_disconnects = suc c.posted_disconnects }

-- NetworkClient::connect_impl, where the socket could be opened or not
unfoldable pub connect_impl : Bool → NetworkClient → NetworkClient
connect_impl opened c =
    if not (is_disconnected c.state)
    then c
    else if opened
    then record c { state = connecting; connection_generation = next_generation c }
    else record c { state = disconnected }

-- the handler of async_resolve, which failed or goes on to async_connect
unfoldable pub resolved : ℕ → Bool → NetworkClient → NetworkClient
resolved generation failed c =
    if not (generation == c.connection_generation)
    then c
    else if failed
    then record c { state = disconnected }
    else c

-- the handler of async_connect; it ends with send_hello
unfoldable pub connected : ℕ → Bool → NetworkClient → Outcome NetworkClient
unfolding send_message_impl
connected generation failed c =
    if not (generation == c.connection_generation)
    then done c
    else if failed
    then done (record c { state = disconnected; connection_generation = next_generation c })
    else send_message_impl (serialize (make_message hello c.client_id monostate))
        (record c { state = registering })

abbrev is_empty : Bytes → Bool
is_empty [] = true
is_empty (b ∷ s) = false

-- NetworkClient::send_open_document_impl
unfoldable pub send_open_document_impl : DocumentId → NetworkClient → Outcome NetworkClient
unfolding send_message_impl
send_open_document_impl d c =
    if not (is_registered c.state) || is_empty d
    then done c
    else send_message_impl (serialize (make_message open_document c.client_id (of_document d)))
        (record c { state = syncing })

abbrev take_in : Message → NetworkClient → NetworkClient
take_in m c = record c { incoming_queue = c.incoming_queue ++ m ∷ [] }

-- the switch of handle_message
unfoldable pub handle_type : MessageType → Message → NetworkClient → NetworkClient
handle_type operation m c = if takes_operations c.state then take_in m c else post_disconnect c
handle_type sync_response m c = if is_syncing c.state then take_in m c else post_disconnect c
handle_type hello_ack m c =
    if is_registering c.state then record c { state = registered } else post_disconnect c
handle_type cursor_update m c = if takes_operations c.state then take_in m c else post_disconnect c
handle_type _ m c = post_disconnect c

abbrev handled : NetworkClient → Result Message → NetworkClient
handled c (err e) = post_disconnect c
handled c (ok m) = handle_type m.message_type m c

-- NetworkClient::handle_message
unfoldable pub handle_message : Bytes → NetworkClient → NetworkClient
unfolding handle_type
handle_message text c = handled c (deserialize text)

-- What happens to a client, in the order in which the io_context runs it.
pub data Event : Type 0 where
  connect_called : Bool → Event
  resolve_ended connect_ended : ℕ → Bool → Event
  message_came : Bytes → Event
  send_called : Bytes → Event
  open_called : DocumentId → Event
  disconnect_ran : Event

unfoldable pub step : Event → NetworkClient → NetworkClient
unfolding connect_impl resolved connected handle_message send_message_impl send_open_document_impl
    disconnect_impl
step (connect_called opened) c = connect_impl opened c
step (resolve_ended generation failed) c = resolved generation failed c
step (connect_ended generation failed) c = object (connected generation failed c)
step (message_came text) c = handle_message text c
step (send_called text) c = object (send_message_impl text c)
step (open_called d) c = object (send_open_document_impl d c)
step disconnect_ran c = disconnect_impl c

unfoldable pub run : List Event → NetworkClient → NetworkClient
unfolding step
run [] c = c
run (e ∷ es) c = run es (step e c)

abbrev Quiet : NetworkClient → Type 0
Quiet c = c.state ≢ live

send_message_impl-state :
    (text : Bytes) (c : NetworkClient) → (object (send_message_impl text c)).state ≡ c.state
unfolding send_message_impl
send_message_impl-state text c = elim (Bool-cases (can_send c.state)) [
  | inl q ↦ rw q (sent (frame_message text))
  | inr q ↦ rw q
]
  where
    sent : (r : Result Bytes) → (object (enqueued c r)).state ≡ c.state
    sent (err e) = refl
    sent (ok f) = refl

handle_type-Quiet :
    (t : MessageType) (m : Message) (c : NetworkClient) → Quiet c → Quiet (handle_type t m c)
unfolding handle_type
handle_type-Quiet operation m c q = ground arith
handle_type-Quiet sync_response m c q = ground arith
handle_type-Quiet hello_ack m c q = ground arith
handle_type-Quiet cursor_update m c q = ground arith
handle_type-Quiet hello m c q = q
handle_type-Quiet sync_request m c q = q
handle_type-Quiet sync_complete m c q = q
handle_type-Quiet open_document m c q = q

handled-Quiet : (c : NetworkClient) (r : Result Message) → Quiet c → Quiet (handled c r)
handled-Quiet c (err e) q = q
handled-Quiet c (ok m) q = handle_type-Quiet m.message_type m c q

step-Quiet : (e : Event) (c : NetworkClient) → Quiet c → Quiet (step e c)
unfolding step connect_impl resolved connected handle_message send_open_document_impl
    disconnect_impl
step-Quiet (connect_called opened) c q = ground arith
step-Quiet (resolve_ended generation failed) c q = ground arith
step-Quiet (connect_ended generation failed) c q =
    let hello_text = serialize (make_message hello c.client_id monostate) in
    ground (arith, send_message_impl-state hello_text (record c { state = registering }))
step-Quiet (message_came text) c q = handled-Quiet c (deserialize text) q
step-Quiet (send_called text) c q = λ e. q (sym (send_message_impl-state text c) ∙ e)
step-Quiet (open_called d) c q =
    let request = serialize (make_message open_document c.client_id (of_document d)) in
    ground (arith, send_message_impl-state request (record c { state = syncing }))
step-Quiet disconnect_ran c q = ground arith

run-Quiet : (es : List Event) (c : NetworkClient) → Quiet c → Quiet (run es c)
unfolding run
run-Quiet [] c q = q
run-Quiet (e ∷ es) c q = run-Quiet es (step e c) (step-Quiet e c q)

-- Whatever happens to a new client, it is never in the state LIVE.
pub run-never_live : (id : Bytes) (es : List Event) → (run es (new_client id)).state ≢ live
unfolding new_client
run-never_live id es = run-Quiet es (new_client id) (λ e. cc)

-- The handlers of a connection attempt, which carry the number that the connection had, do
-- nothing once the client was disconnected, if the client was not disconnected before and the
-- number has 64 bits.
pub connected-disconnect_impl :
    (c : NetworkClient) (failed : Bool)
    → is_disconnected c.state ≡ false
    → c.connection_generation < word
    → (resolved c.connection_generation failed (disconnect_impl c) ≡ disconnect_impl c)
      × (connected c.connection_generation failed (disconnect_impl c) ≡ done (disconnect_impl c))
unfolding resolved connected disconnect_impl
connected-disconnect_impl c failed h small =
    let stale : (c.connection_generation == (c.connection_generation + 1) % word) ≡ false =
      ground arith in
    (rw h (rw stale), rw h (rw stale))
