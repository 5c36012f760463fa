-- ===== src/Codec/RoundTrip.antt =====
-- Reading the text of an id or of an operation gives it back.
use crdt_networking_applicat.Prelude.{
  ℕ, ◌<◌, ◌≡◌, refl, sym, ap, ◌∙◌, false, [], ◌∷◌, ◌++◌, In, inl, inr, arith,
}
use mathlib.Core.List.{append-nil}
use crdt_networking_applicat.Ids.{ElementId}
use crdt_networking_applicat.Operation.{InsertOperation, RemoveOperation, Operation, insert, remove}
use crdt_networking_applicat.Outcome.{ok, ◌>>=◌}
use crdt_networking_applicat.Text.{to_string, stoull, split, starts_with, word, is_digit}
use crdt_networking_applicat.Text.Fields.{
  fields-append, fields_single, cut_at-append, mem-bytes_append,
}
use crdt_networking_applicat.Text.Decimal.{stoull-to_string, to_string-lacks}
use crdt_networking_applicat.Codec.{
  serialize_id, deserialize_id, serialize_insert, serialize_remove, deserialize_insert,
  deserialize_remove, serialize_operation, deserialize_operation, with_site, read_halves,
  insert_of_tokens, remove_of_tokens, insert_tag, remove_tag,
}

-- A 64-bit clock, and a site without the byte that separates the fields.
abbrev pub IsPlain : ℕ → ElementId → Type 0
IsPlain sep i = (i.lamport < word) × ¬ In sep i.site_id

abbrev pub IsWritable : Operation → Type 0
IsWritable (insert o) = IsPlain b'|' o.parent × IsPlain b'|' o.ident × (o.ch < 256)
IsWritable (remove o) = IsPlain b'|' o.the_target

stoull_printed : (n : ℕ) → n < word → stoull (to_string n) ≡ ok n
stoull_printed n h = ap stoull (sym (append-nil (to_string n))) ∙ stoull-to_string n [] h refl

-- Reading the text of an id whose clock has 64 bits gives the id back, whatever its site is.
pub deserialize_id-serialize_id :
    (i : ElementId) → i.lamport < word → deserialize_id (serialize_id i) ≡ ok i
unfolding deserialize_id serialize_id
deserialize_id-serialize_id i h =
    ap read_halves
      (cut_at-append b',' (to_string i.lamport) i.site_id (to_string-lacks i.lamport b',' refl))
    ∙ ap (λ r. r >>= λ n. ok (with_site i.site_id n)) (stoull_printed i.lamport h)

-- The text of an id holds a byte only where its site does.
pub serialize_id-lacks :
    (sep : ℕ) (i : ElementId)
    → is_digit sep ≡ false
    → ¬ (sep ≡ b',')
    → ¬ In sep i.site_id
    → ¬ In sep (serialize_id i)
unfolding serialize_id
serialize_id-lacks sep i d c h =
    mem-bytes_append sep (to_string i.lamport) (b',' ∷ i.site_id) (to_string-lacks i.lamport sep d)
      (λ m. elim m [ inl e ↦ c e | inr n ↦ h n ])

id_of_plain : (i : ElementId) → IsPlain b'|' i → deserialize_id (serialize_id i) ≡ ok i
id_of_plain i h = deserialize_id-serialize_id i h.0

id_lacks_bar : (i : ElementId) → IsPlain b'|' i → ¬ In b'|' (serialize_id i)
id_lacks_bar i h = serialize_id-lacks b'|' i refl (λ e. omega arith) h.1

tag_lacks_bar : ¬ In b'|' insert_tag × ¬ In b'|' remove_tag
tag_lacks_bar = ((λ m. ground arith), (λ m. ground arith))

-- the four tokens of a serialized insertion
split-serialize_insert :
    (o : InsertOperation)
    → IsWritable (insert o)
    → split b'|' (serialize_insert o)
      ≡ insert_tag ∷ serialize_id o.parent ∷ serialize_id o.ident ∷ to_string o.ch ∷ []
unfolding split serialize_insert
split-serialize_insert o (p, i, c) =
    let last = serialize_id o.ident ++ b'|' ∷ to_string o.ch in
    fields-append b'|' insert_tag (serialize_id o.parent ++ b'|' ∷ last) tag_lacks_bar.0
    ∙ ap (λ r. insert_tag ∷ r)
        (fields-append b'|' (serialize_id o.parent) last (id_lacks_bar o.parent p)
          ∙ ap (λ r. serialize_id o.parent ∷ r)
              (fields-append b'|' (serialize_id o.ident) (to_string o.ch) (id_lacks_bar o.ident i)
                ∙ ap (λ r. serialize_id o.ident ∷ r)
                    (fields_single b'|' (to_string o.ch) (to_string-lacks o.ch b'|' refl))))

read_insert :
    (o : InsertOperation)
    → IsWritable (insert o)
    → deserialize_insert (serialize_insert o) ≡ ok (insert o)
unfolding deserialize_insert
read_insert o (p, i, c) =
    ap insert_of_tokens (split-serialize_insert o (p, i, c))
    ∙ rw (id_of_plain o.parent p, id_of_plain o.ident i, stoull_printed o.ch (omega arith))
        (ground arith)

read_remove :
    (o : RemoveOperation)
    → IsWritable (remove o)
    → deserialize_remove (serialize_remove o) ≡ ok (remove o)
unfolding deserialize_remove serialize_remove split
read_remove o t =
    ap remove_of_tokens (
      fields-append b'|' remove_tag (serialize_id o.the_target) tag_lacks_bar.1
      ∙ ap (λ r. remove_tag ∷ r)
          (fields_single b'|' (serialize_id o.the_target) (id_lacks_bar o.the_target t)))
    ∙ rw (id_of_plain o.the_target t)

-- Reading the text of an operation gives the operation back, if its clocks have 64 bits, its
-- sites are without the separating byte and its character is a byte.
pub deserialize_operation-serialize_operation :
    (o : Operation) → IsWritable o → deserialize_operation (serialize_operation o) ≡ ok o
unfolding deserialize_operation serialize_operation
deserialize_operation-serialize_operation (insert o) w =
    unfold serialize_insert starts_with in read_insert o w
deserialize_operation-serialize_operation (remove o) w =
    unfold serialize_remove starts_with in read_remove o w
