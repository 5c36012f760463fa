-- ===== src/Operation.antt =====
-- crdt_editor/src/character.*, operation.hpp: characters, and the two operations of the CRDT.
-- A char is its byte, below 256.
use crdt_networking_applicat.Prelude.{ℕ, Bool}
use crdt_networking_applicat.Ids.{ElementId}

pub record Character : Type 0 where
  pub actual_char : ℕ
  pub deleted : Bool

abbrev pub set_deleted : Bool → Character → Character
set_deleted is_del c = record c { deleted = is_del }

pub record InsertOperation : Type 0 where
  pub parent : ElementId
  pub ident : ElementId
  pub ch : ℕ

pub record RemoveOperation : Type 0 where
  pub the_target : ElementId

pub data Operation : Type 0 where
  insert : InsertOperation → Operation
  remove : RemoveOperation → Operation
