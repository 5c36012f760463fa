-- ===== src/Client/Writing/Drain.antt =====
-- The queue of a client empties, if its writes succeed.
use crdt_networking_applicat.Prelude.{
  ◌≡◌, refl, sym, ap, ◌∙◌, ◌==◌, true, false, List, [], ◌∷◌, ◌++◌, map, arith,
}
use mathlib.Core.List.{append_assoc}
use crdt_networking_applicat.Outcome.{done, ◌then_do◌}
use crdt_networking_applicat.Text.{Bytes}
use crdt_networking_applicat.Client.{NetworkClient, is_disconnected}
use crdt_networking_applicat.Client.Writing.{
  Writing, start_write, pop_written, write_ended, pick, WriteEvent, handler_ran, write_step,
  run_writing,
}
use crdt_networking_applicat.Client.Writing.Ordered.{IsOrdered, writing_of}

-- for each frame, its handler without an error
abbrev pub each_written : List Bytes → List WriteEvent
each_written q = map (λ f. handler_ran 0 false) q

module _ (c : NetworkClient) (accepted : List Bytes) (up : is_disconnected c.state ≡ false) where
  own_number : (c.connection_generation == c.connection_generation) ≡ true
  own_number = ground arith

  last_written :
      (f : Bytes) (written : List Bytes)
      → write_step
          (handler_ran 0 false)
          (writing_of c (f ∷ []) ((c.connection_generation, f) ∷ []) written accepted)
        ≡ done (writing_of c [] [] (written ++ f ∷ []) accepted)
  unfolding write_step pick write_ended pop_written
  last_written f written = rw (write_ended, own_number) refl

  next_written :
      (f x : Bytes) (q written : List Bytes)
      → write_step
          (handler_ran 0 false)
          (writing_of c (f ∷ x ∷ q) ((c.connection_generation, f) ∷ []) written accepted)
        ≡ done
            (writing_of c (x ∷ q) ((c.connection_generation, x) ∷ []) (written ++ f ∷ []) accepted)
  unfolding write_step pick write_ended pop_written start_write
  next_written f x q written = rw (write_ended, own_number, up) refl

  all_written :
      (f : Bytes) (q written : List Bytes)
      → written ++ f ∷ q ≡ accepted
      → run_writing
          (each_written (f ∷ q))
          (writing_of c (f ∷ q) ((c.connection_generation, f) ∷ []) written accepted)
        ≡ done (writing_of c [] [] accepted accepted)
  unfolding run_writing
  all_written f [] written e =
      ap (λ o. o then_do run_writing []) (last_written f written)
      ∙ ap (λ l. done (writing_of c [] [] l accepted)) e
  all_written f (x ∷ q) written e =
      ap (λ o. o then_do run_writing (each_written (x ∷ q))) (next_written f x q written)
      ∙ all_written x q (written ++ f ∷ []) (append_assoc written (f ∷ []) (x ∷ q) ∙ e)

-- A client whose writing is in order, that is connected, and of whose writes only that of the front
-- is still in flight: when as many handlers run as there are frames in the queue, none with an
-- error, all that was accepted is written, the queue is empty, and nothing is in flight.
pub run_writing-drains :
    (w : Writing) (f : Bytes) (q : List Bytes)
    → IsOrdered w
    → is_disconnected w.client.state ≡ false
    → w.client.write_queue ≡ f ∷ q
    → w.in_flight ≡ (w.client.connection_generation, f) ∷ []
    → run_writing (each_written w.client.write_queue) w
      ≡ done (writing_of w.client [] [] w.accepted w.accepted)
run_writing-drains w f q i up e flight =
    ap (λ l. run_writing (each_written l) (writing_of w.client l w.in_flight w.written w.accepted))
      e
    ∙ ap
        (λ xs.
          run_writing (each_written (f ∷ q)) (writing_of w.client (f ∷ q) xs w.written w.accepted))
        flight
    ∙ all_written w.client w.accepted up f q w.written
        (ap (λ l. w.written ++ l) (sym e) ∙ i.in_order)
