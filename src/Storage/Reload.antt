-- ===== src/Storage/Reload.antt =====
-- A document that is loaded from its log agrees with the document that the log was written for,
-- though the rows come in any order.
use crdt_networking_applicat.Prelude.{◌≡◌, ◌↔◌, some, List, In}
use crdt_networking_applicat.Ids.{text_key}
use crdt_networking_applicat.Operation.{Operation}
use crdt_networking_applicat.Outcome.{Outcome}
use crdt_networking_applicat.Text.{Bytes}
use crdt_networking_applicat.Codec.{serialize_operation}
use crdt_networking_applicat.Message.{DocumentId}
use crdt_networking_applicat.Hash.{hash}
use crdt_networking_applicat.Document.{Document}
use crdt_networking_applicat.Storage.{Database, IsDatabase, PersistentDocument}

-- The texts are those of the operations of the history.
abbrev Texts : List Operation → List Bytes → Type 0
Texts h texts =
    (text : Bytes) → In text texts ↔ ((o : Operation) × In o h × (text ≡ serialize_operation o))

module _ {S : Type 0} (db : Database S) (sha256 : Bytes → Bytes) (laws : IsDatabase db)
    (d : DocumentId) where
  abbrev key : Operation → Bytes
  key o = hash sha256 (serialize_operation o)

  -- The rows of the document are the texts of the operations of `U`, under their digests.
  record Logged (U : Operation → Type 0) (s : S) : Type 0 where
    there : laws.stored s d
    rows :
        (i text : Bytes)
        → (laws.row s d i ≡ some text)
          ↔ ((o : Operation) × U o × (i ≡ key o) × (text ≡ serialize_operation o))

  -- The digests of the operations of `V` tell their texts apart.
  abbrev pub TellsApart : (Operation → Type 0) → Type 0
  TellsApart V =
      (o o' : Operation)
      → V o
      → V o'
      → key o ≡ key o'
      → serialize_operation o ≡ serialize_operation o'

  abbrev at_state : Document → S → PersistentDocument S
  at_state document s = record { document = document; document_id = d; database = s }
