-- ===== src/Server/Receive/Isolation.antt =====
-- Operations of crdt_editor/network/server.cpp stay within their document.
use crdt_networking_applicat.Prelude.{
  ℕ, ◌≡◌, ◌≢◌, refl, sym, subst, ◌∙◌, ◌⊎◌, inl, inr, false, [], ◌∷◌, ◌++◌, if_pos, if_neg,
  Bool-cases, Option-cases,
}
use crdt_networking_applicat.Prelude.Maps.{Map, same_key, lookup-assign_ne}
use crdt_networking_applicat.Ids.{text_key}
use crdt_networking_applicat.Operation.{Operation}
use crdt_networking_applicat.Outcome.{Result, ok, err, Outcome, done, threw, object, ◌then_do◌}
use crdt_networking_applicat.Text.{Bytes}
use crdt_networking_applicat.Message.{Message, serialize}
use crdt_networking_applicat.Framing.{frame_message}
use crdt_networking_applicat.Server.{
  Connection, Server, connection_at, change, send, queued, is_silent, is_live, is_syncing,
  same_document, name_key,
}
use crdt_networking_applicat.Server.Receive.{route_one, route_each, route_message}

module _ {S : Type 0} where
  connection_at-change :
      (j i : ℕ) (f : Connection → Connection) (s : Server S)
      → i ≢ j
      → connection_at j (change i f s) ≡ connection_at j s
  unfolding connection_at change
  connection_at-change j i f s n = rw (lookup-assign_ne i j (f (connection_at i s)) s.connections n)

  connection_at-send :
      (j i : ℕ) (text : Bytes) (s : Server S)
      → i ≢ j
      → connection_at j (object (send i text s)) ≡ connection_at j s
  unfolding send
  connection_at-send j i text s n = elim (Bool-cases (is_silent (connection_at i s).state)) [
    | inl q ↦ rw q
    | inr q ↦ rw q (sent (frame_message text))
  ]
    where
      sent : (r : Result Bytes) → connection_at j (object (queued i s r)) ≡ connection_at j s
      sent (err e) = refl
      sent (ok f) =
          connection_at-change j i (λ c. record c { write_queue = c.write_queue ++ f ∷ [] }) s n

  -- The connections that a round of the loop does not concern.
  abbrev Bystander : ℕ → ℕ → Server S → Type 0
  Bystander k j s =
      same_document (connection_at j s).current_document (connection_at k s).current_document
      ≡ false

  route_one-connection :
      (k j : ℕ) (o : Operation) (text id : Bytes) (i : ℕ) (s : Server S)
      → (j ≡ k) ⊎ Bystander k j s
      → connection_at j (object (route_one k o text id i s)) ≡ connection_at j s
  unfolding route_one
  route_one-connection k j o text id i s h = elim (same_key i k) [
    | yes q ↦ rw (if_pos (same_key i k) q)
    | no n ↦
        rw (if_neg (same_key i k) n)
          (elim (Bool-cases (
            same_document (connection_at i s).current_document
              (connection_at k s).current_document)) [
                | inr other ↦ rw other
                | inl same ↦ elim (Bool-cases (is_syncing (connection_at i s).state)) [
                  | inl waits ↦ rw (same, waits) (unfold connection_at in refl)
                  | inr ready ↦ elim (Bool-cases (is_live (connection_at i s).state)) [
                    | inl alive ↦
                        rw (same, ready, alive)
                          (connection_at-send j i text s (elim h [
                            | inl e ↦ (λ q. n (q ∙ e))
                            | inr b ↦ (λ q. cc (subst (λ x. Bystander k x s) (sym q) b, same))
                          ]))
                    | inr dull ↦ rw (same, ready, dull)
                  ]
                ]
              ])
  ]

  route_each-connection :
      (k j : ℕ) (o : Operation) (text : Bytes) (m : Map Bytes ℕ) (s : Server S)
      → (j ≡ k) ⊎ Bystander k j s
      → connection_at j (object (route_each k o text m s)) ≡ connection_at j s
  unfolding route_each
  route_each-connection k j o text [] s h = refl
  route_each-connection k j o text ((id, i) ∷ m) s h =
      after_one (route_each-connection k j o text m) (route_one k o text id i s)
        (route_one-connection k j o text id i s h)
        (route_one-connection k k o text id i s (inl refl))
    where
      after_one :
          ((t : Server S)
            → (j ≡ k) ⊎ Bystander k j t
            → connection_at j (object (route_each k o text m t)) ≡ connection_at j t)
          → (r : Outcome (Server S)) → connection_at j (object r) ≡ connection_at j s
          → connection_at k (object r) ≡ connection_at k s
          → connection_at j (object (r then_do route_each k o text m)) ≡ connection_at j s
      after_one rest (threw e t) a b = a
      after_one rest (done t) a b =
          rest t (elim h [ inl e ↦ inl e | inr y ↦ inr (rw (a, b) y) ]) ∙ a

  -- Routing an operation changes nothing of a connection that has another document, or none, than
  -- the sender: nothing is sent to it.
  pub connection_at-route_message :
      (k j : ℕ) (o : Operation) (m : Message) (s : Server S)
      → same_document (connection_at j s).current_document (connection_at k s).current_document
        ≡ false
      → connection_at j (object (route_message k o m s)) ≡ connection_at j s
  unfolding route_message
  connection_at-route_message k j o m s h =
      elim (Option-cases (connection_at k s).current_document) [
        | inl e ↦ rw (route_message, e)
        | inr (d, e) ↦
            rw (route_message, e) (route_each-connection k j o (serialize m) s.clients s (inr h))
      ]
