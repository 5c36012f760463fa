-- ===== src/Document/Invariant.antt =====
-- What holds of a document that has received the inserts `T` and the removals `R`, while the
-- inserts of the ids `P` are taken out of the buffer and not yet applied.
pub mod Buffer
pub mod Place
pub mod Kin
pub mod Settle
pub mod Check
pub mod Apply
pub mod Delete
use crdt_networking_applicat.Prelude.{
  ℕ, ◌<◌, ◌≡◌, ◌≢◌, ◌↔◌, ◌⊎◌, Bool, true, false, some, List, In, length,
}
use crdt_networking_applicat.Prelude.Maps.{Map, lookup, contains, IsFunctional}
use crdt_networking_applicat.Ids.{ElementId, id_key, root_id}
use crdt_networking_applicat.Operation.{Character, InsertOperation}
use crdt_networking_applicat.Document.{Document, list_at}
use crdt_networking_applicat.Document.Siblings.{IsDescending}

-- The inserts that an id comes from: one for each id, and none for the root.
pub record IsGenuine (U : InsertOperation → Type 0) : Type 0 where
  pub unique : (o o' : InsertOperation) → U o → U o' → o.ident ≡ o'.ident → o ≡ o'
  pub not_root : (o : InsertOperation) → U o → o.ident ≢ root_id

abbrev pub Add : InsertOperation → (InsertOperation → Type 0) → InsertOperation → Type 0
Add o T o' = (o' ≡ o) ⊎ T o'

abbrev pub Has : Document → ElementId → Type 0
Has d x = contains x d.elements ≡ true

abbrev pub Lacks : Document → ElementId → Type 0
Lacks d x = contains x d.elements ≡ false

-- the buffer of a missing parent
abbrev pub waiting_for : Document → ElementId → List InsertOperation
waiting_for d k = list_at (lookup k d.buffered_inserts)

-- The insert behind an element, whose parent was there before it.
pub record Origin (T : InsertOperation → Type 0) (rank : ElementId → ℕ)
    (elements : Map ElementId Character) (parent_of : Map ElementId ElementId) (x : ElementId)
    (c : Character) : Type 0 where
  pub oper : InsertOperation
  pub received : T oper
  pub ident_eq : oper.ident ≡ x
  pub char_eq : c.actual_char ≡ oper.ch
  pub parent_eq : lookup x parent_of ≡ some oper.parent
  pub parent_there : contains oper.parent elements ≡ true
  pub after_parent : rank oper.parent < rank x

pub record Inv (T : InsertOperation → Type 0) (R P : ElementId → Type 0) (d : Document)
    : Type 0 where
  pub rank : ElementId → ℕ
  pub rank_lt : (x : ElementId) → Has d x → rank x < length d.elements
  pub root_element :
      (b : Bool) × (lookup root_id d.elements ≡ some (record { actual_char = 0; deleted = b }))
  pub root_parent : lookup root_id d.parent_of ≡ some root_id
  pub placed : (o : InsertOperation) → T o → Has d o.parent → Has d o.ident
  pub origin :
      (x : ElementId) (c : Character)
      → lookup x d.elements ≡ some c
      → x ≢ root_id
      → Origin T rank d.elements d.parent_of x c
  pub removed :
      (x : ElementId) (c : Character) → lookup x d.elements ≡ some c → (c.deleted ≡ true) ↔ R x
  pub removed_later : (x : ElementId) → (contains x d.buffered_deletes ≡ true) ↔ (R x × Lacks d x)
  pub waits : (o : InsertOperation) → T o → Lacks d o.parent → In o (waiting_for d o.parent)
  pub waiting_own :
      (k : ElementId) (o : InsertOperation) → In o (waiting_for d k) → T o × (o.parent ≡ k)
  pub waiting_key : (k : ElementId) → contains k d.buffered_inserts ≡ true → Lacks d k
  pub waiting_entries : IsFunctional d.buffered_inserts
  pub waiting_ids :
      (x : ElementId)
      → contains x d.buffered_insert_ids ≡ true
      → Lacks d x × (((o : InsertOperation) × In o (waiting_for d o.parent) × (o.ident ≡ x)) ⊎ P x)
  pub children_keys : (x : ElementId) → contains x d.children ≡ contains x d.elements
  pub parent_keys : (x : ElementId) → contains x d.parent_of ≡ contains x d.elements
  pub descending : (p : ElementId) → IsDescending (list_at (lookup p d.children))
  pub kin :
      (p x : ElementId)
      → In x (list_at (lookup p d.children)) ↔ ((lookup x d.parent_of ≡ some p) × (x ≢ root_id))
