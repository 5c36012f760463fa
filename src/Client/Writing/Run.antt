-- ===== src/Client/Writing/Run.antt =====
-- A client from its creation on: connections, messages, and handlers in any order.
use crdt_networking_applicat.Prelude.{
  ℕ, ◌+◌, ◌%◌, ◌<◌, ◌≡◌, ◌⊎◌, inl, inr, refl, sym, ap, subst, ◌∙◌, Bool, ◌==◌, some, List, [], ◌∷◌,
  ◌++◌, length, ltb, arith, Bool-cases, Option-cases,
}
use crdt_networking_applicat.Outcome.{Outcome, done, threw, length_error}
use crdt_networking_applicat.Text.{Bytes, word}
use crdt_networking_applicat.Framing.{frame_message}
use crdt_networking_applicat.Client.{
  disconnected, registering, new_client, is_disconnected, can_send, disconnect_impl, connect_impl,
}
use crdt_networking_applicat.Client.Writing.{
  Writing, send_and_start, write_ended, pick, WriteEvent, message_sent, handler_ran,
  disconnect_ended, connection_made, end_picked, cleared, reconnected, write_step, run_writing,
  new_writing,
}
use crdt_networking_applicat.Client.Writing.Flight.{current, current-new, pick-split}
use crdt_networking_applicat.Client.Writing.Ordered.{
  IsOrdered, Stepped, sends_while_connected, push_frame-Stepped,
}
use crdt_networking_applicat.Client.Writing.Handlers.{stale-Stepped, own-Stepped}
use crdt_networking_applicat.Framing.{encode_length}

module _ (w : Writing) (i : IsOrdered w) where
  unchanged : (o : Outcome Writing) → (o ≡ done w) ⊎ (o ≡ threw length_error w) → Stepped w o
  unchanged o e = record { after = w; returns = e; ordered = i; numbers = omega arith }

  send_and_start-Stepped : (message : Bytes) → Stepped w (send_and_start message w)
  unfolding send_and_start frame_message
  send_and_start-Stepped message = elim (Bool-cases (can_send w.client.state)) [
    | inr off ↦ unchanged _ (inl (rw (send_and_start, off) refl))
    | inl on ↦ elim (Bool-cases (ltb 4294967295 (length message))) [
      | inl big ↦ unchanged _ (inr (rw (send_and_start, on, big) refl))
      | inr fits ↦
          let frame = encode_length (length message) ++ message in
          let p =
            push_frame-Stepped w.client w.in_flight w.written w.accepted w.client.write_queue frame
              (sends_while_connected w.client.state on) i in
          record {
            after = p.after;
            returns = rw (send_and_start, on, fits) p.returns;
            ordered = p.ordered;
            numbers = p.numbers;
          }
    ]
  ]

  write_ended-Stepped :
      (a b : List (ℕ × Bytes)) (g : ℕ) (f : Bytes) (failed : Bool)
      → w.in_flight ≡ a ++ (g, f) ∷ b
      → Stepped w (write_ended g failed (record w { in_flight = a ++ b }))
  write_ended-Stepped a b g f failed e =
      let c = w.client in
      let j = subst (λ l. IsOrdered (record w { in_flight = l })) e i in
      let p : Stepped (record w { in_flight = a ++ (g, f) ∷ b })
          (write_ended g failed (record w { in_flight = a ++ b })) =
        elim (Bool-cases (g == c.connection_generation)) [
          | inl s ↦ own-Stepped c w.written w.accepted a b g f c.write_queue failed s j
          | inr s ↦ stale-Stepped c w.written w.accepted a b g f c.write_queue failed s j
        ] in
      record { after = p.after; returns = p.returns; ordered = p.ordered; numbers = p.numbers }

  picked-Stepped : (failed : Bool) (n : ℕ) → Stepped w (end_picked failed w (pick n w.in_flight))
  picked-Stepped failed n = elim (Option-cases (pick n w.in_flight)) [
    | inl e ↦ unchanged _ (inl (ap (end_picked failed w) e))
    | inr (((g, f), ys), e) ↦
        let (a, b, p, q) = pick-split n w.in_flight ys (g, f) e in
        let s = write_ended-Stepped a b g f failed p in
        record {
          after = s.after;
          returns =
              subst
                (λ r.
                  (end_picked failed w r ≡ done s.after)
                  ⊎ (end_picked failed w r ≡ threw length_error s.after))
                (sym (e ∙ ap (λ l. some ((g, f), l)) q)) s.returns;
          ordered = s.ordered;
          numbers = s.numbers;
        }
  ]

  cleared-Stepped : w.client.connection_generation + 1 < word → Stepped w (done (cleared w))
  unfolding disconnect_impl
  cleared-Stepped small = elim (Bool-cases (is_disconnected w.client.state)) [
    | inl down ↦ unchanged _ (inl (rw down refl))
    | inr up ↦
        let g = w.client.connection_generation in
        let plain : (g + 1) % word ≡ g + 1 = omega (arith, small) in
        record {
          after = record w {
            client = record w.client {
              state = disconnected;
              connection_generation = g + 1;
              write_queue = [];
            };
            written = [];
            accepted = [];
          };
          returns = inl (rw (up, plain) refl);
          ordered = record {
            stopped = λ e. refl;
            past = λ h f m. omega (arith, i.past h f m);
            one = inl (current-new g (g + 1) w.in_flight i.past (omega arith), inl refl);
            in_order = refl;
          };
          numbers = omega arith;
        }
  ]

  reconnected-Stepped : w.client.connection_generation + 1 < word → Stepped w (done (reconnected w))
  unfolding connect_impl
  reconnected-Stepped small = elim (Bool-cases (is_disconnected w.client.state)) [
    | inr up ↦ unchanged _ (inl (rw up refl))
    | inl down ↦
        let g = w.client.connection_generation in
        let plain : (g + 1) % word ≡ g + 1 = omega (arith, small) in
        record {
          after = record w {
            client = record w.client { state = registering; connection_generation = g + 1 };
          };
          returns = inl (rw (down, plain) refl);
          ordered = record {
            stopped = λ e. absurd (cc e);
            past = λ h f m. omega (arith, i.past h f m);
            one =
                inl (current-new g (g + 1) w.in_flight i.past (omega arith), inl (i.stopped down));
            in_order = i.in_order;
          };
          numbers = omega arith;
        }
  ]

write_step-Stepped :
    (e : WriteEvent) (w : Writing)
    → IsOrdered w
    → w.client.connection_generation + 1 < word
    → Stepped w (write_step e w)
unfolding write_step
write_step-Stepped (message_sent message) w i small = send_and_start-Stepped w i message
write_step-Stepped (handler_ran n failed) w i small = picked-Stepped w i failed n
write_step-Stepped disconnect_ended w i small = cleared-Stepped w i small
write_step-Stepped connection_made w i small = reconnected-Stepped w i small

run_writing-IsOrdered_from :
    (es : List WriteEvent) (w : Writing)
    → IsOrdered w
    → w.client.connection_generation + length es < word
    → (w' : Writing) × ((run_writing es w ≡ done w') ⊎ (run_writing es w ≡ threw length_error w'))
      × IsOrdered w'
unfolding run_writing
run_writing-IsOrdered_from [] w i small = (w, inl refl, i)
run_writing-IsOrdered_from (e ∷ es) w i small =
    let s = write_step-Stepped e w i (omega arith) in
    elim s.returns [
      | inl q ↦
          let (w', r, j) =
            run_writing-IsOrdered_from es s.after s.ordered (omega (arith, small, s.numbers)) in
          (w', rw (run_writing, q) r, j)
      | inr q ↦ (s.after, inr (rw (run_writing, q) refl), s.ordered)
    ]

-- A client from its creation on, with fewer than 2 ^ 64 events of its writing: messages that are
-- sent, handlers of writes in any order, failed or not, ends of connections and new connections.
-- No handler and no start of a write meets an empty queue: the run ends, or stops at a message that
-- is too long for its header. Afterwards at most one frame of the present connection is in flight,
-- which is the front of the queue; it is missing only where the queue is empty or a write failed;
-- and the frames that were written, with those in the queue behind them, are those that were put
-- into the queue since the client was last disconnected, in order and each once.
pub run_writing-IsOrdered :
    (id : Bytes) (es : List WriteEvent)
    → length es < word
    → (w : Writing) × ((run_writing es (new_writing id) ≡ done w)
        ⊎ (run_writing es (new_writing id) ≡ threw length_error w))
      × IsOrdered w
unfolding new_writing new_client current
run_writing-IsOrdered id es small =
    run_writing-IsOrdered_from es (new_writing id)
      (record {
        stopped = λ e. refl;
        past = λ g f m. absurd m;
        one = inl (refl, inl refl);
        in_order = refl;
      })
      (omega (arith, small))
