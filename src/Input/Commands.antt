-- ===== src/Input/Commands.antt =====
-- crdt_editor/editor/input_handler.cpp: what a command may do.
use crdt_networking_applicat.Prelude.{ℕ, ◌≡◌, ◌⊎◌, List, [], ◌∷◌, map, In}
use crdt_networking_applicat.Ids.{ElementId, id_key}
use crdt_networking_applicat.Operation.{Operation, insert}
use crdt_networking_applicat.Outcome.{Outcome, Reply, replied}
use crdt_networking_applicat.IdGenerator.{next}
use crdt_networking_applicat.Document.{Document}
use crdt_networking_applicat.Document.Walk.Anchors.{IsAnchor}
use crdt_networking_applicat.Cursor.{Cursor}
use crdt_networking_applicat.Input.{InputHandler, removal}

-- One insertion behind the cursor, of the next id of the generator, which becomes the anchor.
pub record Typed (h : InputHandler) (ops : List Operation) (h' : InputHandler) : Type 0 where
  pub ch : ℕ
  pub oper :
      ops ≡ insert (record { parent = h.cursor.anchor; ident = (next h.gen).1; ch = ch }) ∷ []
  pub anchored : h'.cursor.anchor ≡ (next h.gen).1
  pub drawn : h'.gen ≡ (next h.gen).0

-- Removals of elements where a cursor may stand, or nothing; the cursor stands where it may.
pub record Removals (d : Document) (h : InputHandler) (ops : List Operation) (h' : InputHandler)
    : Type 0 where
  pub targets : List ElementId
  pub opers : ops ≡ map removal targets
  pub here : (x : ElementId) → In x targets → IsAnchor d x
  pub stands : IsAnchor d h'.cursor.anchor
  pub same_gen : h'.gen ≡ h.gen

-- A command that returns: its operations, and the handler afterwards.
pub record Edited (d : Document) (h : InputHandler) (r : Reply InputHandler (List Operation))
    : Type 0 where
  pub ops : List Operation
  pub after : InputHandler
  pub returns : r ≡ replied ops after
  pub effect : Typed h ops after ⊎ Removals d h ops after
