-- ===== src/Examples/Parts.antt =====
-- The small parts of crdt_editor on concrete values: the order of ids, the generator, the log,
-- the queue, the digest and the viewport.
use crdt_networking_applicat.Prelude.{List, [], ◌∷◌, arith}
use crdt_networking_applicat.Ids.{ElementId}
use crdt_networking_applicat.Operation.{Operation, remove}
use crdt_networking_applicat.Text.{codes}
use crdt_networking_applicat.IdGenerator.{
  IdGenerator, new_generator, next, sync_clock, Event, draw, see, drawn, Fits, IsIncreasing,
  drawn-IsIncreasing,
}
use crdt_networking_applicat.OperationLog.{
  new_log, run, call_record, call_clear, Call, IsValid, run-IsValid,
}
use crdt_networking_applicat.Viewport
use crdt_networking_applicat.Viewport.{
  pos, negsuc, scroll, clamp-Fits_columns, clamp-keeps_column, clamp-clamp, scroll-scroll,
}

abbrev first_id : ElementId
first_id = record { lamport = 1; site_id = codes "A" }

abbrev second_id : ElementId
second_id = record { lamport = 1; site_id = codes "B" }

abbrev third_id : ElementId
third_id = record { lamport = 2; site_id = codes "A" }

abbrev events : List Event
events = draw ∷ see 7 ∷ draw ∷ draw ∷ []

abbrev generator : IdGenerator
generator = new_generator (codes "A")

events-Fit : Fits events generator
unfolding next sync_clock new_generator
events-Fit = ground arith

drawn-IsIncreasing_example : IsIncreasing (drawn events generator)
drawn-IsIncreasing_example = drawn-IsIncreasing events generator events-Fit

abbrev removal : Operation
removal = remove (record { the_target = first_id })

abbrev calls : List Call
calls = call_record removal ∷ call_record removal ∷ call_clear ∷ call_record removal ∷ []

run-IsValid_example : IsValid (run calls new_log)
run-IsValid_example = run-IsValid calls

abbrev scrolled : Viewport.Viewport
scrolled = record { first_line = 90; first_column = 40 }
