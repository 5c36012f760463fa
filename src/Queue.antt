-- ===== src/Queue.antt =====
-- crdt_editor/util/thread_safe_queue.hpp: the queue between the editor and the network thread.
-- The lock makes each call one step.
use crdt_networking_applicat.Prelude.{◌≡◌, ap, sym, ◌∙◌, List, [], ◌∷◌, ◌++◌}
use mathlib.Core.List.{append_assoc, append-nil}

module _ {ℓ} {A : Type ℓ} where
  unfoldable pub push : A → List A → List A
  push value queue = queue ++ value ∷ []

  -- the items, and the queue that is left
  unfoldable pub take_all : List A → List A × List A
  take_all queue = (queue, [])

-- The calls of the threads, in the order in which they get the lock.
pub data Call {ℓ} (A : Type ℓ) : Type ℓ where
  call_push : A → Call A
  call_take_all : Call A

module _ {ℓ} {A : Type ℓ} where
  -- all the items that were taken, and the queue that is left
  unfoldable pub run : List (Call A) → List A → List A × List A
  unfolding push take_all
  run [] queue = ([], queue)
  run (call_push a ∷ cs) queue = run cs (push a queue)
  run (call_take_all ∷ cs) queue =
      let (items, left) = take_all queue in
      let (later, last) = run cs left in (items ++ later, last)

  abbrev pub pushed : List (Call A) → List A
  pushed [] = []
  pushed (call_push a ∷ cs) = a ∷ pushed cs
  pushed (call_take_all ∷ cs) = pushed cs

  -- However the calls of the threads interleave, what was taken and what is left are together
  -- what was in the queue and what was pushed, in this order and each once.
  pub run-pushed :
      (cs : List (Call A)) (queue : List A)
      → (run cs queue).0 ++ (run cs queue).1 ≡ queue ++ pushed cs
  unfolding run push take_all
  run-pushed [] queue = sym (append-nil queue)
  run-pushed (call_push a ∷ cs) queue =
      run-pushed cs (queue ++ a ∷ []) ∙ append_assoc queue (a ∷ []) (pushed cs)
  run-pushed (call_take_all ∷ cs) queue =
      append_assoc queue (run cs []).0 (run cs []).1 ∙ ap (λ xs. queue ++ xs) (run-pushed cs [])
