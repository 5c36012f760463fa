-- ===== src/Examples/Typed.antt =====
-- A new character behind the cursor in the text of Examples/DocumentRuns.
use crdt_networking_applicat.Prelude.{◌≡◌, List, [], ◌++◌, ◌∷◌, inr, map, arith}
use crdt_networking_applicat.Ids.{ElementId, root_id, gt_ids}
use crdt_networking_applicat.Operation.{InsertOperation, insert}
use crdt_networking_applicat.Outcome.{ok, done}
use crdt_networking_applicat.Document.{Document, apply}
use crdt_networking_applicat.Document.History.{Inserted, Removed}
use crdt_networking_applicat.Document.Visit.{render}
use crdt_networking_applicat.Document.Visit.Fold.{visible}
use crdt_networking_applicat.Document.Visit.Render.{char_of}
use crdt_networking_applicat.Document.Walk.{last_of}
use crdt_networking_applicat.Document.Typing.{IsNewest}
use crdt_networking_applicat.Document.Typing.Shown.{apply-render}
use crdt_networking_applicat.Examples.DocumentRuns.{
  id_i, in_order, after, after-Holds, id_i_visible,
}

abbrev newest : InsertOperation
newest = record { parent = id_i; ident = record { lamport = 9; site_id = b'A' ∷ [] }; ch = b'x' }

newest-IsNewest : IsNewest (Inserted in_order) (Removed in_order) newest
unfolding gt_ids
newest-IsNewest = record {
  genuine = record { unique = λ o o' p q e. ground arith; not_root = λ o p e. ground arith };
  no_twin = λ p t e. ground arith;
  no_child = λ p t e. ground arith;
  not_removed = λ m. ground arith;
  greatest = λ p t. ground arith;
}

apply-render_example :
    (d' : Document) × (a b : List ElementId) × (apply after (insert newest) ≡ done d')
    × (visible after ≡ a ++ b)
    × (last_of root_id a ≡ id_i)
    × (render after ≡ ok (map (char_of after) a ++ map (char_of after) b))
    × (render d' ≡ ok (map (char_of after) a ++ b'x' ∷ map (char_of after) b))
apply-render_example = apply-render newest after-Holds newest-IsNewest (inr id_i_visible)
