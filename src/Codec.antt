-- ===== src/Codec.antt =====
-- crdt_editor/src/elementID.cpp and operation.cpp: the texts of ids and operations.
pub mod RoundTrip
use crdt_networking_applicat.Prelude.{
  ℕ, ◌%◌, Bool, Option, none, some, List, [], ◌∷◌, ◌++◌, ltb, if◌then◌else◌,
}
use crdt_networking_applicat.Ids.{ElementId}
use crdt_networking_applicat.Operation.{InsertOperation, RemoveOperation, Operation, insert, remove}
use crdt_networking_applicat.Outcome.{Result, ok, err, ◌>>=◌, invalid_argument}
use crdt_networking_applicat.Text.{Bytes, codes, to_string, stoull, split, cut_at, starts_with}

-- ElementID::serialize
unfoldable pub serialize_id : ElementId → Bytes
serialize_id i = to_string i.lamport ++ b',' ∷ i.site_id

abbrev pub with_site : Bytes → ℕ → ElementId
with_site site n = record { lamport = n; site_id = site }

abbrev pub read_halves : Option (Bytes × Bytes) → Result ElementId
read_halves none = err invalid_argument
read_halves (some (clock, site)) = stoull clock >>= λ n. ok (with_site site n)

-- ElementID::deserialize
unfoldable pub deserialize_id : Bytes → Result ElementId
deserialize_id s = read_halves (cut_at b',' s)

abbrev pub insert_tag : Bytes
insert_tag = b'I' ∷ b'N' ∷ b'S' ∷ b'E' ∷ b'R' ∷ b'T' ∷ []

abbrev pub remove_tag : Bytes
remove_tag = b'R' ∷ b'E' ∷ b'M' ∷ b'O' ∷ b'V' ∷ b'E' ∷ []

-- InsertOperation::serialize
unfoldable pub serialize_insert : InsertOperation → Bytes
unfolding serialize_id
serialize_insert o =
    insert_tag
    ++ b'|' ∷ (serialize_id o.parent ++ b'|' ∷ (serialize_id o.ident ++ b'|' ∷ to_string o.ch))

-- RemoveOperation::serialize
unfoldable pub serialize_remove : RemoveOperation → Bytes
unfolding serialize_id
serialize_remove o = remove_tag ++ b'|' ∷ serialize_id o.the_target

abbrev pub checked_char : ElementId → ElementId → ℕ → Result Operation
checked_char p i value =
    if ltb 255 value
    then err invalid_argument
    else ok (insert (record { parent = p; ident = i; ch = value }))

-- An unsigned int keeps 32 bits of what std::stoul read.
abbrev pub insert_of_tokens : List Bytes → Result Operation
insert_of_tokens (_ ∷ p ∷ i ∷ c ∷ []) = deserialize_id p >>= λ parent. deserialize_id i >>= λ ident.
    stoull c >>= λ value. checked_char parent ident (value % 4294967296)
insert_of_tokens _ = err invalid_argument

-- InsertOperation::deserialize
unfoldable pub deserialize_insert : Bytes → Result Operation
unfolding deserialize_id
deserialize_insert s = insert_of_tokens (split b'|' s)

abbrev pub remove_of_tokens : List Bytes → Result Operation
remove_of_tokens (_ ∷ t ∷ []) =
    deserialize_id t >>= λ target. ok (remove (record { the_target = target }))
remove_of_tokens _ = err invalid_argument

-- RemoveOperation::deserialize
unfoldable pub deserialize_remove : Bytes → Result Operation
unfolding deserialize_id
deserialize_remove s = remove_of_tokens (split b'|' s)

-- operation_serializer::serialize
unfoldable pub serialize_operation : Operation → Bytes
unfolding serialize_insert serialize_remove
serialize_operation (insert o) = serialize_insert o
serialize_operation (remove o) = serialize_remove o

-- operation_serializer::deserialize
unfoldable pub deserialize_operation : Bytes → Result Operation
unfolding deserialize_insert deserialize_remove
deserialize_operation [] = err invalid_argument
deserialize_operation (c ∷ s) =
    if starts_with (insert_tag ++ b'|' ∷ []) (c ∷ s)
    then deserialize_insert (c ∷ s)
    else if starts_with (remove_tag ++ b'|' ∷ []) (c ∷ s)
    then deserialize_remove (c ∷ s)
    else err invalid_argument
