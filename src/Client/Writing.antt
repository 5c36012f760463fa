-- ===== src/Client/Writing.antt =====
-- NetworkClient::start_write of crdt_editor/network/network_client.cpp: the frames of the queue go
-- to the socket one after the other, while the handlers of earlier writes may still come.
pub mod Flight
pub mod Ordered
pub mod Handlers
pub mod Run
pub mod Drain
use crdt_networking_applicat.Prelude.{
  ℕ, zero, suc, Option, none, some, ◌+◌, ◌%◌, ◌<◌, ◌≡◌, ◌≢◌, ◌⊎◌, inl, inr, refl, sym, ap, ◌∙◌,
  Bool, true, false, not, ◌==◌, List, [], ◌∷◌, ◌++◌, if◌then◌else◌, arith, Bool-cases,
}
use mathlib.Core.List.{append_assoc}
use crdt_networking_applicat.Outcome.{
  Result, ok, err, Outcome, done, threw, ◌then_do◌, length_error, empty_deque,
}
use crdt_networking_applicat.Text.{Bytes, word}
use crdt_networking_applicat.Framing.{frame_message}
use crdt_networking_applicat.Client.{
  NetworkClient, registering, new_client, is_disconnected, can_send, disconnect_impl, connect_impl,
}

-- `in_flight`: the calls of async_write whose handler has not run, with the connection number and
-- the frame. `written` and `accepted` are records of the model: what the handlers reported as
-- written, and what was put into the queue, since the client was last disconnected.
pub record Writing : Type 0 where
  pub client : NetworkClient
  pub in_flight : List (ℕ × Bytes)
  pub written : List Bytes
  pub accepted : List Bytes

abbrev pub with_queue : List Bytes → NetworkClient → NetworkClient
with_queue q c = record c { write_queue = q }

-- NetworkClient::start_write
unfoldable pub start_write : Writing → Outcome Writing
start_write w = elim w.client.write_queue [
  | [] ↦ threw empty_deque w
  | f ∷ q ↦ done (record w { in_flight = w.in_flight ++ (w.client.connection_generation, f) ∷ [] })
]

abbrev pub is_idle : List Bytes → Bool
is_idle [] = true
is_idle (f ∷ q) = false

abbrev pub push_frame : Writing → Bytes → Outcome Writing
push_frame w frame =
    let t : Writing = record w {
      client = with_queue (w.client.write_queue ++ frame ∷ []) w.client;
      accepted = w.accepted ++ frame ∷ [];
    } in
    if is_idle w.client.write_queue then start_write t else done t

abbrev framed : Writing → Result Bytes → Outcome Writing
framed w (err e) = threw e w
framed w (ok frame) = push_frame w frame

-- NetworkClient::send_message_impl, with its call of start_write
unfoldable pub send_and_start : Bytes → Writing → Outcome Writing
unfolding start_write
send_and_start message w =
    if can_send w.client.state then framed w (frame_message message) else done w

-- The handler behind the two tests: the front was written.
unfoldable pub pop_written : Writing → Outcome Writing
unfolding start_write
pop_written w = elim w.client.write_queue [
  | [] ↦ threw empty_deque w
  | f ∷ q ↦
      let t : Writing = record w {
        client = with_queue q w.client;
        written = w.written ++ f ∷ [];
      } in
      if not (is_idle q)
      then (if not (is_disconnected w.client.state) then start_write t else done t)
      else done t
]

-- The handler that start_write leaves with async_write.
unfoldable pub write_ended : ℕ → Bool → Writing → Outcome Writing
unfolding pop_written
write_ended generation failed w =
    if not (generation == w.client.connection_generation)
    then done w
    else if failed
    then (if not (is_disconnected w.client.state)
        then done (record w {
          client = record w.client { posted_disconnects = suc w.client.posted_disconnects };
        })
        else done w)
    else pop_written w

abbrev behind :
    ℕ × Bytes → Option ((ℕ × Bytes) × List (ℕ × Bytes)) → Option ((ℕ × Bytes) × List (ℕ × Bytes))
behind x none = none
behind x (some (y, ys)) = some (y, x ∷ ys)

-- the handler that runs next, and the others
unfoldable pub pick : ℕ → List (ℕ × Bytes) → Option ((ℕ × Bytes) × List (ℕ × Bytes))
pick n [] = none
pick zero (x ∷ xs) = some (x, xs)
pick (suc n) (x ∷ xs) = behind x (pick n xs)

-- What concerns the writing: a message is sent, the handler of that number runs, disconnect_impl
-- runs, a new connection was made.
pub data WriteEvent : Type 0 where
  message_sent : Bytes → WriteEvent
  handler_ran : ℕ → Bool → WriteEvent
  disconnect_ended : WriteEvent
  connection_made : WriteEvent

abbrev pub end_picked : Bool → Writing → Option ((ℕ × Bytes) × List (ℕ × Bytes)) → Outcome Writing
end_picked failed w none = done w
end_picked failed w (some ((generation, f), others)) =
    write_ended generation failed (record w { in_flight = others })

-- disconnect_impl clears the queue, and the records with it.
abbrev pub cleared : Writing → Writing
cleared w =
    if is_disconnected w.client.state
    then w
    else record w { client = disconnect_impl w.client; written = []; accepted = [] }

-- connect_impl and the handlers behind it, up to set_state(REGISTERING)
abbrev pub reconnected : Writing → Writing
reconnected w =
    if is_disconnected w.client.state
    then record w { client = record (connect_impl true w.client) { state = registering } }
    else w

unfoldable pub write_step : WriteEvent → Writing → Outcome Writing
unfolding send_and_start write_ended pick disconnect_impl connect_impl
write_step (message_sent message) w = send_and_start message w
write_step (handler_ran n failed) w = end_picked failed w (pick n w.in_flight)
write_step disconnect_ended w = done (cleared w)
write_step connection_made w = done (reconnected w)

unfoldable pub run_writing : List WriteEvent → Writing → Outcome Writing
unfolding write_step
run_writing [] w = done w
run_writing (e ∷ es) w = write_step e w then_do run_writing es

unfoldable pub new_writing : Bytes → Writing
unfolding new_client
new_writing id = record { client = new_client id; in_flight = []; written = []; accepted = [] }
