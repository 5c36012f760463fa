-- ===== src/Examples/Clients.antt =====
-- A client of crdt_editor/network/network_client.cpp that connects and opens a document.
use crdt_networking_applicat.Prelude.{
  ◌≡◌, ◌≢◌, ◌⊎◌, inl, inr, refl, true, false, List, [], ◌∷◌, arith,
}
use crdt_networking_applicat.Outcome.{done, threw, length_error}
use crdt_networking_applicat.Text.{codes}
use crdt_networking_applicat.Client.{
  NetworkClient, live, registering, new_client, Event, connect_called, resolve_ended, connect_ended,
  message_came, open_called, run, resolved, connected, disconnect_impl, run-never_live,
  connected-disconnect_impl,
}
use crdt_networking_applicat.Client.Writing.{
  Writing, WriteEvent, message_sent, handler_ran, disconnect_ended, connection_made, run_writing,
  new_writing,
}
use crdt_networking_applicat.Client.Writing.Ordered.{IsOrdered, writing_of}
use crdt_networking_applicat.Client.Writing.Flight.{current}
use crdt_networking_applicat.Client.Writing.Drain.{each_written, run_writing-drains}
use crdt_networking_applicat.Client.Writing.Run.{run_writing-IsOrdered}

abbrev session : List Event
session =
    connect_called true
    ∷ resolve_ended 1 false
    ∷ connect_ended 1 false
    ∷ message_came (codes "HELLO_ACK\nserver\n")
    ∷ open_called (codes "notes")
    ∷ []

run-never_live_example : (run session (new_client (codes "A"))).state ≢ live
run-never_live_example = run-never_live (codes "A") session

abbrev waiting_client : NetworkClient
waiting_client = record {
  client_id = codes "A";
  state = registering;
  connection_generation = 1;
  write_queue = [];
  incoming_queue = [];
  posted_disconnects = 0;
}

connected-disconnect_impl_example :
    (resolved 1 false (disconnect_impl waiting_client) ≡ disconnect_impl waiting_client)
    × (connected 1 false (disconnect_impl waiting_client) ≡ done (disconnect_impl waiting_client))
connected-disconnect_impl_example =
    connected-disconnect_impl waiting_client false refl (ground arith)

-- the handler of the first connection comes after the second was made
abbrev writes : List WriteEvent
writes =
    connection_made
    ∷ message_sent (codes "a")
    ∷ message_sent (codes "b")
    ∷ disconnect_ended
    ∷ connection_made
    ∷ message_sent (codes "c")
    ∷ handler_ran 0 false
    ∷ handler_ran 0 false
    ∷ []

run_writing-IsOrdered_example :
    (w : Writing) × ((run_writing writes (new_writing (codes "A")) ≡ done w)
      ⊎ (run_writing writes (new_writing (codes "A")) ≡ threw length_error w))
    × IsOrdered w
run_writing-IsOrdered_example = run_writing-IsOrdered (codes "A") writes (ground arith)

-- two frames, of which the first is being written
abbrev half_way : Writing
half_way = record {
  client = record waiting_client { write_queue = (1 ∷ []) ∷ (2 ∷ []) ∷ [] };
  in_flight = (1, 1 ∷ []) ∷ [];
  written = [];
  accepted = (1 ∷ []) ∷ (2 ∷ []) ∷ [];
}

half_way-IsOrdered : IsOrdered half_way
unfolding current
half_way-IsOrdered = record {
  stopped = λ e. absurd (cc e);
  past = λ g f. elim [ inl e ↦ ground (arith, e) | inr m ↦ absurd m ];
  one = inr (1 ∷ [], (2 ∷ []) ∷ [], ground arith, refl);
  in_order = refl;
}

run_writing-drains_example :
    run_writing (each_written half_way.client.write_queue) half_way
    ≡ done (writing_of half_way.client [] [] half_way.accepted half_way.accepted)
run_writing-drains_example =
    run_writing-drains half_way (1 ∷ []) ((2 ∷ []) ∷ []) half_way-IsOrdered refl refl refl
