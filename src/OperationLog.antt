-- ===== src/OperationLog.antt =====
-- crdt_editor/src/operation_log.*: the operations in the order in which they were first recorded.
use crdt_networking_applicat.Prelude.{
  ℕ, ◌≡◌, ◌≢◌, ap, sym, ◌∙◌, true, false, List, [], ◌∷◌, ◌++◌, map, length, inl, inr, if◌then◌else◌,
  Bool-cases, arith,
}
use crdt_networking_applicat.Prelude.Maps.{
  Set, contains, emplace, contains-emplace, contains-emplace_self,
}
use crdt_networking_applicat.Ids.{text_key}
use crdt_networking_applicat.Operation.{Operation}
use crdt_networking_applicat.Text.{Bytes}
use crdt_networking_applicat.Codec.{serialize_operation}

pub record OperationLog : Type 0 where
  pub operation_history : List Operation
  pub recorded_operations : Set Bytes

unfoldable pub new_log : OperationLog
new_log = record { operation_history = []; recorded_operations = [] }

-- OperationLog(log): the texts are not recorded
unfoldable pub log_of : List Operation → OperationLog
log_of history = record { operation_history = history; recorded_operations = [] }

-- OperationLog::record
unfoldable pub record_operation : Operation → OperationLog → OperationLog
record_operation o l =
    if contains (serialize_operation o) l.recorded_operations then l else record l {
      operation_history = l.operation_history ++ o ∷ [];
      recorded_operations = emplace (serialize_operation o) tt l.recorded_operations;
    }

-- OperationLog::size, for a history that an int can count
unfoldable pub size : OperationLog → ℕ
size l = length l.operation_history

-- OperationLog::clear
unfoldable pub clear : OperationLog → OperationLog
clear l = record l { operation_history = [] }

unfoldable pub to_vector_of_serialized_operations : OperationLog → List Bytes
to_vector_of_serialized_operations l = map serialize_operation l.operation_history

abbrev join_texts : List Bytes → Bytes
join_texts [] = []
join_texts (s ∷ ss) = s ++ b',' ∷ b' ' ∷ join_texts ss

-- OperationLog::to_String
unfoldable pub log_to_string : OperationLog → Bytes
unfolding to_vector_of_serialized_operations
log_to_string l = join_texts (to_vector_of_serialized_operations l)

unfoldable pub record_all : List Operation → OperationLog → OperationLog
unfolding record_operation
record_all [] l = l
record_all (o ∷ os) l = record_all os (record_operation o l)

-- The calls that change a log.
pub data Call : Type 0 where
  call_record : Operation → Call
  call_clear : Call

unfoldable pub run : List Call → OperationLog → OperationLog
unfolding record_operation clear
run [] l = l
run (call_record o ∷ cs) l = run cs (record_operation o l)
run (call_clear ∷ cs) l = run cs (clear l)

-- Every operation of the history is recorded, and no two have the same text.
abbrev pub IsRecorded : Set Bytes → List Operation → Type 0
IsRecorded texts [] = Unit
IsRecorded texts (o ∷ os) = (contains (serialize_operation o) texts ≡ true) × IsRecorded texts os

abbrev pub AllOther : Bytes → List Operation → Type 0
AllOther s [] = Unit
AllOther s (o ∷ os) = (s ≢ serialize_operation o) × AllOther s os

abbrev pub HasNoRepeats : List Operation → Type 0
HasNoRepeats [] = Unit
HasNoRepeats (o ∷ os) = AllOther (serialize_operation o) os × HasNoRepeats os

abbrev pub IsValid : OperationLog → Type 0
IsValid l = IsRecorded l.recorded_operations l.operation_history × HasNoRepeats l.operation_history

IsRecorded-append :
    (texts : Set Bytes) (os : List Operation) (o : Operation)
    → IsRecorded texts os
    → contains (serialize_operation o) texts ≡ true
    → IsRecorded texts (os ++ o ∷ [])
IsRecorded-append texts [] o h c = (c, tt)
IsRecorded-append texts (x ∷ os) o h c = (h.0, IsRecorded-append texts os o h.1 c)

AllOther-append :
    (s : Bytes) (os : List Operation) (o : Operation)
    → AllOther s os
    → s ≢ serialize_operation o
    → AllOther s (os ++ o ∷ [])
AllOther-append s [] o h n = (n, tt)
AllOther-append s (x ∷ os) o h n = (h.0, AllOther-append s os o h.1 n)

-- A text that is not recorded is not among those of the history.
HasNoRepeats-append :
    (texts : Set Bytes) (os : List Operation) (o : Operation)
    → IsRecorded texts os
    → HasNoRepeats os
    → contains (serialize_operation o) texts ≡ false
    → HasNoRepeats (os ++ o ∷ [])
HasNoRepeats-append texts [] o r h c = (tt, tt)
HasNoRepeats-append texts (x ∷ os) o r h c = (
  AllOther-append (serialize_operation x) os o h.0
      (λ e. cc (sym r.0 ∙ ap (λ t. contains t texts) e ∙ c)),
  HasNoRepeats-append texts os o r.1 h.1 c,
)

IsRecorded-emplace :
    (texts : Set Bytes) (s : Bytes) (os : List Operation)
    → IsRecorded texts os
    → IsRecorded (emplace s tt texts) os
IsRecorded-emplace texts s [] h = tt
IsRecorded-emplace texts s (o ∷ os) h = (
  ground (arith, contains-emplace s (serialize_operation o) tt texts),
  IsRecorded-emplace texts s os h.1,
)

record_operation-IsValid :
    (o : Operation) (l : OperationLog) → IsValid l → IsValid (record_operation o l)
unfolding record_operation
record_operation-IsValid o l (r, n) =
    let text = serialize_operation o in
    let texts = l.recorded_operations in
    let history = l.operation_history in
    elim (Bool-cases (contains text texts)) [
      | inl old ↦ rw old (r, n)
      | inr new ↦ rw new (
        IsRecorded-append (emplace text tt texts) history o
            (IsRecorded-emplace texts text history r) (contains-emplace_self text tt texts),
        HasNoRepeats-append texts history o r n new,
      )
    ]

run-IsValid_from : (cs : List Call) (l : OperationLog) → IsValid l → IsValid (run cs l)
unfolding run
run-IsValid_from [] l h = h
run-IsValid_from (call_record o ∷ cs) l h =
    run-IsValid_from cs (record_operation o l) (record_operation-IsValid o l h)
run-IsValid_from (call_clear ∷ cs) l h = run-IsValid_from cs (clear l) (unfold clear in (tt, tt))

-- However a log that started empty was used, no two operations of its history have the same
-- text, and the texts of all of them are recorded.
pub run-IsValid : (cs : List Call) → IsValid (run cs new_log)
unfolding new_log
run-IsValid cs = run-IsValid_from cs new_log (tt, tt)

record-recorded :
    (o : Operation) (l : OperationLog)
    → contains (serialize_operation o) l.recorded_operations ≡ true
    → record_operation o l ≡ l
unfolding record_operation
record-recorded o l h = rw h

recorded_after :
    (o : Operation) (l : OperationLog)
    → contains (serialize_operation o) (record_operation o l).recorded_operations ≡ true
unfolding record_operation
recorded_after o l = elim (Bool-cases (contains (serialize_operation o) l.recorded_operations)) [
  | inl old ↦ rw old old
  | inr new ↦ rw new (contains-emplace_self (serialize_operation o) tt l.recorded_operations)
]

-- Recording an operation twice is recording it once.
pub record_operation-record_operation :
    (o : Operation) (l : OperationLog)
    → record_operation o (record_operation o l) ≡ record_operation o l
record_operation-record_operation o l =
    record-recorded o (record_operation o l) (recorded_after o l)

-- After `clear`, an operation that was recorded before is not put into the history again.
pub record_operation-clear :
    (o : Operation) (l : OperationLog)
    → (record_operation o (clear (record_operation o l))).operation_history ≡ []
unfolding clear
record_operation-clear o l =
    ap (λ m. m.operation_history)
      (record-recorded o (clear (record_operation o l)) (recorded_after o l))
