-- ===== src/IdGenerator.antt =====
-- crdt_editor/crdt/id_generator.*: the Lamport clock of a client and the ids it gives out.
use crdt_networking_applicat.Prelude.{ℕ, ◌+◌, ◌%◌, ◌<◌, ◌≤◌, max, ◌≡◌, true, List, [], ◌∷◌, arith}
use crdt_networking_applicat.Ids.{ElementId, gt_ids, compare_ids}
use crdt_networking_applicat.Text.{Bytes, word}

pub record IdGenerator : Type 0 where
  pub client_id : Bytes
  pub lamport_clock : ℕ

-- Id_generator::Id_generator
unfoldable pub new_generator : Bytes → IdGenerator
new_generator c = record { client_id = c; lamport_clock = 0 }

-- Id_generator::next: the generator afterwards and the id
unfoldable pub next : IdGenerator → IdGenerator × ElementId
next g =
    let clock = (g.lamport_clock + 1) % word in
    (record g { lamport_clock = clock }, record { lamport = clock; site_id = g.client_id })

-- Id_generator::sync_clock
unfoldable pub sync_clock : ℕ → IdGenerator → IdGenerator
sync_clock remote_clock g = record g { lamport_clock = max g.lamport_clock remote_clock }

-- The calls of a client: it draws an id, or it sees the clock of a remote one.
pub data Event : Type 0 where
  draw : Event
  see : ℕ → Event

-- the ids that are drawn, in order
unfoldable pub drawn : List Event → IdGenerator → List ElementId
unfolding next sync_clock
drawn [] g = []
drawn (draw ∷ es) g = let (after, i) = next g in i ∷ drawn es after
drawn (see n ∷ es) g = drawn es (sync_clock n g)

-- The clock does not wrap around while the events happen.
abbrev pub Fits : List Event → IdGenerator → Type 0
unfolding next sync_clock
Fits [] g = Unit
Fits (draw ∷ es) g = (g.lamport_clock + 1 < word) × Fits es (next g).0
Fits (see n ∷ es) g = Fits es (sync_clock n g)

-- Every id of the list has a greater clock than `n`.
abbrev AllAfter : ℕ → List ElementId → Type 0
AllAfter n [] = Unit
AllAfter n (i ∷ is) = (n < i.lamport) × AllAfter n is

abbrev pub AllNewer : ElementId → List ElementId → Type 0
AllNewer i [] = Unit
AllNewer i (j ∷ js) = (gt_ids j i ≡ true) × AllNewer i js

-- Each id is greater than all before it.
abbrev pub IsIncreasing : List ElementId → Type 0
IsIncreasing [] = Unit
IsIncreasing (i ∷ is) = AllNewer i is × IsIncreasing is

AllAfter-le : (m n : ℕ) (is : List ElementId) → m ≤ n → AllAfter n is → AllAfter m is
AllAfter-le m n [] h a = tt
AllAfter-le m n (i ∷ is) h a = (omega (arith, h, a.0), AllAfter-le m n is h a.1)

-- A greater clock makes a greater id, whatever the sites.
pub gt_ids-lamport : (j i : ElementId) → i.lamport < j.lamport → gt_ids j i ≡ true
unfolding gt_ids compare_ids
gt_ids-lamport j i h = ground arith

AllAfter-AllNewer : (i : ElementId) (js : List ElementId) → AllAfter i.lamport js → AllNewer i js
AllAfter-AllNewer i [] h = tt
AllAfter-AllNewer i (j ∷ js) h = (gt_ids-lamport j i h.0, AllAfter-AllNewer i js h.1)

drawn-after :
    (es : List Event) (g : IdGenerator) → Fits es g → AllAfter g.lamport_clock (drawn es g)
unfolding drawn
drawn-after [] g h = tt
drawn-after (draw ∷ es) g h = (
  omega arith,
  AllAfter-le g.lamport_clock ((g.lamport_clock + 1) % word) _ (omega arith)
      (drawn-after es (next g).0 h.1),
)
drawn-after (see n ∷ es) g h =
    AllAfter-le g.lamport_clock (max g.lamport_clock n) _ (omega arith)
      (drawn-after es (sync_clock n g) h)

-- The ids that a client draws are greater than all it drew before, as long as its clock does not
-- wrap around, whichever remote clocks it sees in between.
pub drawn-IsIncreasing : (es : List Event) (g : IdGenerator) → Fits es g → IsIncreasing (drawn es g)
unfolding drawn
drawn-IsIncreasing [] g h = tt
drawn-IsIncreasing (draw ∷ es) g h =
    let after = (next g).0 in
    (
      AllAfter-AllNewer (next g).1 (drawn es after) (drawn-after es after h.1),
      drawn-IsIncreasing es after h.1,
    )
drawn-IsIncreasing (see n ∷ es) g h = drawn-IsIncreasing es (sync_clock n g) h

-- An id that is drawn after a remote clock was seen is greater than every id of that clock,
-- unless the clock wraps around.
pub next-sync_clock :
    (g : IdGenerator) (i : ElementId)
    → max g.lamport_clock i.lamport + 1 < word
    → gt_ids (next (sync_clock i.lamport g)).1 i ≡ true
unfolding next sync_clock
next-sync_clock g i h = gt_ids-lamport (next (sync_clock i.lamport g)).1 i (omega arith)
