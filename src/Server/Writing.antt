-- ===== src/Server/Writing.antt =====
-- ClientConnection::start_write of crdt_editor/network/client_connection.cpp: the handler that it
-- leaves with async_write. The write that it starts next changes no state.
use crdt_networking_applicat.Prelude.{
  ℕ, ◌≡◌, refl, ap, ◌∙◌, Bool, false, List, [], ◌∷◌, if◌then◌else◌,
}
use crdt_networking_applicat.Prelude.Maps.{lookup-assign_self}
use crdt_networking_applicat.Outcome.{Outcome, done, threw, empty_deque}
use crdt_networking_applicat.Text.{Bytes}
use crdt_networking_applicat.Server.{
  Server, disconnected, name_key, connection_at, change, is_disconnected, is_empty, disconnect,
  unregister_client,
}

module _ {S : Type 0} where
  unfoldable pub write_handler : ℕ → Bool → Server S → Outcome (Server S)
  unfolding disconnect change
  write_handler k failed s =
      if failed then done (disconnect k s) else elim (connection_at k s).write_queue [
        | [] ↦ threw empty_deque s
        | f ∷ q ↦ done (change k (λ c. record c { write_queue = q }) s)
      ]

  queue_cleared :
      (k : ℕ) (s : Server S)
      → (connection_at k (change k (λ c. record c { write_queue = [] }) s)).write_queue ≡ []
  unfolding connection_at change
  queue_cleared k s =
      rw (lookup-assign_self k (record (connection_at k s) { write_queue = [] }) s.connections) refl

  disconnect-queue :
      (k : ℕ) (s : Server S)
      → is_disconnected (connection_at k s).state ≡ false
      → (connection_at k (disconnect k s)).write_queue ≡ []
  unfolding disconnect change
  disconnect-queue k s up =
      let marked = change k (λ c. record c { state = disconnected }) s in
      let left =
        if is_empty (connection_at k s).client_id then marked else unregister_client k marked in
      ap
        (λ b.
          (connection_at k
            (if b then s else change k (λ c. record c { write_queue = [] }) left)).write_queue)
        up
      ∙ queue_cleared k left

  -- A write that succeeded, but whose handler runs only after its connection was disconnected,
  -- meets an empty queue: pop_front of an empty std::deque, which is undefined.
  pub write_handler-disconnect :
      (k : ℕ) (s : Server S)
      → is_disconnected (connection_at k s).state ≡ false
      → write_handler k false (disconnect k s) ≡ threw empty_deque (disconnect k s)
  unfolding write_handler disconnect
  write_handler-disconnect k s up =
      ap
        (λ (l : List Bytes). elim l [
          | [] ↦ threw empty_deque (disconnect k s)
          | f ∷ q ↦ done (change k (λ c. record c { write_queue = q }) (disconnect k s))
        ])
        (disconnect-queue k s up)
