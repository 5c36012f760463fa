-- ===== src/Outcome.antt =====
-- Exceptions. `Result` is the outcome of a call that reads, `Outcome` that of a call that changes
-- its object: what was written before the exception stays written, so the object comes back too.

pub data Fault : Type 0 where
  -- not an exception of the program: the fuel of a loop of the model ran out
  out_of_fuel : Fault
  -- std::out_of_range, std::invalid_argument, std::length_error, std::bad_optional_access
  out_of_range invalid_argument length_error bad_optional_access : Fault
  -- std::runtime_error of Document
  root_not_in_elements root_not_in_children root_not_in_parent_of : Fault
  no_children_entry no_parent child_not_in_elements child_without_parent parent_disagrees : Fault
  not_in_children not_among_siblings element_not_found : Fault
  buffered_for_present_parent buffered_under_wrong_key buffered_and_inserted : Fault
  -- undefined behaviour: * of an empty std::optional, a division by 0, front or
  -- pop_front of an empty std::deque
  empty_optional division_by_zero empty_deque : Fault
  -- std::bad_variant_access
  bad_variant_access : Fault
  -- std::runtime_error of Cursor, EditorCommand, the server and the document store
  no_selection no_character : Fault
  no_current_document empty_client_id client_id_taken empty_document_id not_registered : Fault
  no_such_document document_exists : Fault

pub data Result {ℓ} (A : Type ℓ) : Type ℓ where
  ok : A → Result A
  err : Fault → Result A

pub data Outcome {ℓ} (S : Type ℓ) : Type ℓ where
  done : S → Outcome S
  threw : Fault → S → Outcome S

infixl 5 ◌>>=◌ ◌>>◌
abbrev pub ◌>>=◌ {ℓ κ} : {A : Type ℓ} {B : Type κ} → Result A → (A → Result B) → Result B
ok a >>= f = f a
err e >>= f = err e

abbrev pub ◌>>◌ {ℓ κ} : {A : Type ℓ} {B : Type κ} → Result A → Result B → Result B
ok a >> r = r
err e >> r = err e

-- The next statement runs on the object that the first one left, unless that threw.
infixl 5 ◌then_do◌
abbrev pub ◌then_do◌ {ℓ} : {S : Type ℓ} → Outcome S → (S → Outcome S) → Outcome S
done s then_do f = f s
threw e s then_do f = threw e s

-- The object that a call leaves, also when it throws.
abbrev pub object {ℓ} : {S : Type ℓ} → Outcome S → S
object (done s) = s
object (threw e s) = s

-- A call that changes its object and gives an answer.
pub data Reply {ℓ κ} (S : Type ℓ) (A : Type κ) : Type (ℓ ⊔ κ) where
  replied : A → S → Reply S A
  failed : Fault → S → Reply S A

-- What a call that reads found goes into the next statement, unless that call threw.
abbrev pub on_result {ℓ κ} : {A : Type κ} {S : Type ℓ} → Result A → S → (A → Outcome S) → Outcome S
on_result (ok a) s f = f a
on_result (err e) s f = threw e s

abbrev pub reply_on {ℓ κ ι} :
    {A : Type κ} {S : Type ℓ} {B : Type ι} → Result A → S → (A → Reply S B) → Reply S B
reply_on (ok a) s f = f a
reply_on (err e) s f = failed e s

-- The object that a call leaves, also when it throws.
abbrev pub object_of {ℓ κ} : {S : Type ℓ} {A : Type κ} → Reply S A → S
object_of (replied a s) = s
object_of (failed e s) = s
