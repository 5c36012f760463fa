-- ===== src/Storage.antt =====
-- crdt_editor/persistance/: the persistent log of a document, the persistent document and the
-- document store. The SQL database is an interface.
pub mod Reload
use crdt_networking_applicat.Prelude.{
  ◌≡◌, ◌⊎◌, ◌↔◌, ◌≢◌, Bool, true, false, Option, none, some, List, [], ◌∷◌, In, map, if◌then◌else◌,
}
use crdt_networking_applicat.Prelude.Maps.{Map, lookup, contains, erase, emplace}
use crdt_networking_applicat.Ids.{text_key}
use crdt_networking_applicat.Operation.{Operation}
use crdt_networking_applicat.Outcome.{
  Result, ok, err, ◌>>=◌, Outcome, done, threw, ◌then_do◌, no_such_document, document_exists,
}
use crdt_networking_applicat.Text.{Bytes}
use crdt_networking_applicat.Codec.{serialize_operation, deserialize_operation}
use crdt_networking_applicat.Message.{DocumentId}
use crdt_networking_applicat.Hash.{hash}
use crdt_networking_applicat.Document.{Document, apply, apply_history, new_document}

-- SQLiteDatabase over the state of the tables. A statement that fails leaves them as they were.
pub record Database (S : Type 0) : Type 0 where
  pub insert_document : DocumentId → S → Result S
  pub delete_document : DocumentId → S → Result S
  pub get_document_ids : S → Result (List DocumentId)
  pub insert_operation : DocumentId → Bytes → Bytes → S → Result S
  pub get_operations : DocumentId → S → Result (List Bytes)

-- What the statements on operations promise of a document that is in the tables: INSERT OR IGNORE
-- writes a row where its key has none, and SELECT gives the rows of the document, in any order.
pub record IsDatabase {S : Type 0} (db : Database S) : Type 1 where
  pub stored : S → DocumentId → Type 0
  pub row : S → DocumentId → Bytes → Option Bytes
  pub insert_works :
      (d : DocumentId) (i text : Bytes) (s : S)
      → stored s d
      → (s' : S) × (db.insert_operation d i text s ≡ ok s')
        × stored s' d
        × ((row s d i ≡ none) → row s' d i ≡ some text)
        × ((y : Bytes) → row s d i ≡ some y → row s' d i ≡ some y)
        × ((j : Bytes) → j ≢ i → row s' d j ≡ row s d j)
  pub select_works :
      (d : DocumentId) (s : S)
      → stored s d
      → (texts : List Bytes) × (db.get_operations d s ≡ ok texts)
        × ((text : Bytes) → In text texts ↔ ((i : Bytes) × (row s d i ≡ some text)))

-- PersistentDocument: the document, its id in the log, and the database that it shares
pub record PersistentDocument (S : Type 0) : Type 0 where
  pub document : Document
  pub document_id : DocumentId
  pub database : S

-- the document store: the documents in memory, and the database
pub record DocumentStore (S : Type 0) : Type 0 where
  pub documents : Map DocumentId Document
  pub tables : S

-- the loop of PersistentOperationLog::load
unfoldable pub deserialize_all : List Bytes → Result (List Operation)
deserialize_all [] = ok []
deserialize_all (text ∷ texts) =
    deserialize_operation text >>= λ o. deserialize_all texts >>= λ os. ok (o ∷ os)

module _ {S : Type 0} (db : Database S) (sha256 : Bytes → Bytes) where
  -- PersistentOperationLog::record
  unfoldable pub record_in_log : DocumentId → Operation → S → Result S
  record_in_log d o s =
      db.insert_operation d (hash sha256 (serialize_operation o)) (serialize_operation o) s

  -- PersistentOperationLog::load, PersistentDocument::get_history
  unfoldable pub load_log : DocumentId → S → Result (List Operation)
  unfolding deserialize_all
  load_log d s = db.get_operations d s >>= deserialize_all

  abbrev with_document : PersistentDocument S → Outcome Document → Outcome (PersistentDocument S)
  with_document p (done d) = done (record p { document = d })
  with_document p (threw e d) = threw e (record p { document = d })

  abbrev apply_recorded :
      Operation → PersistentDocument S → Result S → Outcome (PersistentDocument S)
  apply_recorded o p (err e) = threw e p
  apply_recorded o p (ok s) = with_document (record p { database = s }) (apply p.document o)

  -- PersistentDocument::apply_operation: the log first, then the document
  unfoldable pub apply_operation : Operation → PersistentDocument S → Outcome (PersistentDocument S)
  unfolding record_in_log
  apply_operation o p = apply_recorded o p (record_in_log p.document_id o p.database)

  unfoldable pub apply_operations :
      List Operation → PersistentDocument S → Outcome (PersistentDocument S)
  unfolding apply_operation
  apply_operations [] p = done p
  apply_operations (o ∷ os) p = apply_operation o p then_do apply_operations os

  abbrev replay : PersistentDocument S → Result (List Operation) → Outcome (PersistentDocument S)
  replay p (err e) = threw e p
  replay p (ok history) = with_document p (apply_history history p.document)

  -- PersistentDocument::load
  unfoldable pub load : PersistentDocument S → Outcome (PersistentDocument S)
  unfolding load_log
  load p = replay p (load_log p.document_id p.database)

  -- PersistentDocument::PersistentDocument
  abbrev pub fresh : DocumentId → S → PersistentDocument S
  fresh d s = record { document = new_document; document_id = d; database = s }

  -- DocumentStore::exists
  unfoldable pub exists : DocumentId → DocumentStore S → Bool
  exists d store = contains d store.documents

  -- DocumentStore::get_document
  unfoldable pub get_document : DocumentId → DocumentStore S → Result Document
  get_document d store = elim (lookup d store.documents) [
    | none ↦ err no_such_document
    | some document ↦ ok document
  ]

  abbrev created : DocumentId → DocumentStore S → Result S → Outcome (DocumentStore S)
  created d store (err e) = threw e store
  created d store (ok s) =
      done (record { documents = emplace d new_document store.documents; tables = s })

  -- DocumentStore::create_document
  unfoldable pub create_document : DocumentId → DocumentStore S → Outcome (DocumentStore S)
  unfolding exists
  create_document d store =
      if exists d store
      then threw document_exists store
      else created d store (db.insert_document d store.tables)

  abbrev removed : DocumentId → DocumentStore S → Result S → Outcome (DocumentStore S)
  removed d store (err e) = threw e store
  removed d store (ok s) = done (record { documents = erase d store.documents; tables = s })

  -- DocumentStore::remove_document
  unfoldable pub remove_document : DocumentId → DocumentStore S → Outcome (DocumentStore S)
  remove_document d store =
      if contains d store.documents
      then removed d store (db.delete_document d store.tables)
      else threw no_such_document store

  -- DocumentStore::list_documents
  unfoldable pub list_documents : DocumentStore S → List DocumentId
  list_documents store = map (λ entry. entry.0) store.documents

  abbrev loaded :
      DocumentId → DocumentStore S → Outcome (PersistentDocument S) → Outcome (DocumentStore S)
  loaded d store (done p) = done (record store { documents = emplace d p.document store.documents })
  loaded d store (threw e p) =
      threw e (record store { documents = emplace d p.document store.documents })

  -- the loop of DocumentStore::load
  unfoldable pub load_each : List DocumentId → DocumentStore S → Outcome (DocumentStore S)
  unfolding load
  load_each [] store = done store
  load_each (d ∷ ds) store =
      if contains d store.documents
      then threw document_exists store
      else (loaded d store (load (fresh d store.tables)) then_do load_each ds)

  abbrev load_listed : DocumentStore S → Result (List DocumentId) → Outcome (DocumentStore S)
  load_listed store (err e) = threw e store
  load_listed store (ok ids) = load_each ids store

  -- DocumentStore::load, which the constructor calls on no documents
  unfoldable pub load_store : DocumentStore S → Outcome (DocumentStore S)
  unfolding load_each
  load_store store = load_listed store (db.get_document_ids store.tables)
