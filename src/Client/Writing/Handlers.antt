-- ===== src/Client/Writing/Handlers.antt =====
-- Any run of the writing keeps the order of the frames.
use crdt_networking_applicat.Prelude.{
  ℕ, suc, ◌≡◌, inl, inr, refl, ◌∙◌, Bool, true, false, ◌==◌, List, [], ◌∷◌, ◌++◌, In, arith,
  Bool-cases,
}
use crdt_networking_applicat.Text.{Bytes}
use crdt_networking_applicat.Client.{NetworkClient, is_disconnected}
use crdt_networking_applicat.Client.Writing.{write_ended}
use crdt_networking_applicat.Client.Writing.Flight.{
  In-drop, current-other, current-only, current-some,
}
use crdt_networking_applicat.Client.Writing.Ordered.{
  IsOrdered, Stepped, writing_of, pop_written-Stepped,
}

module _ (c : NetworkClient) (written accepted : List Bytes) (a b : List (ℕ × Bytes)) (g : ℕ)
    (f : Bytes) where
  -- The handler of a write of an earlier connection does nothing.
  pub stale-Stepped :
      (q : List Bytes) (failed : Bool)
      → (g == c.connection_generation) ≡ false
      → IsOrdered (writing_of c q (a ++ (g, f) ∷ b) written accepted)
      → Stepped
          (writing_of c q (a ++ (g, f) ∷ b) written accepted)
          (write_ended g failed (writing_of c q (a ++ b) written accepted))
  unfolding write_ended
  stale-Stepped q failed s i =
      let same = current-other c.connection_generation g f a b s in
      record {
        after = writing_of c q (a ++ b) written accepted;
        returns = inl (rw (write_ended, s) refl);
        ordered = record {
          stopped = i.stopped;
          past = λ h e m. i.past h e (In-drop (h, e) (g, f) a b m);
          one = elim i.one [
            | inl (e, k) ↦ inl (same ∙ e, k)
            | inr (x, r, e, k) ↦ inr (x, r, same ∙ e, k)
          ];
          in_order = i.in_order;
        };
        numbers = omega arith;
      }

  -- The handler of the write of this connection.
  pub own-Stepped :
      (q : List Bytes) (failed : Bool)
      → (g == c.connection_generation) ≡ true
      → IsOrdered (writing_of c q (a ++ (g, f) ∷ b) written accepted)
      → Stepped
          (writing_of c q (a ++ (g, f) ∷ b) written accepted)
          (write_ended g failed (writing_of c q (a ++ b) written accepted))
  unfolding write_ended
  own-Stepped [] failed s i = elim i.one [
    | inl (e, k) ↦ absurd (current-some c.connection_generation g f a b s e)
    | inr (x, r, e, k) ↦ absurd (cc k)
  ]
  own-Stepped (x ∷ q) failed s i = elim i.one [
    | inl (e, k) ↦ absurd (current-some c.connection_generation g f a b s e)
    | inr (y, r, e, k) ↦
        let none_left = current-only c.connection_generation g f y a b s e in
        let past = λ (h : ℕ) (e' : Bytes) (m : In (h, e') (a ++ b)).
          i.past h e' (In-drop (h, e') (g, f) a b m) in
        elim (Bool-cases (is_disconnected c.state)) [
          | inl down ↦ absurd (cc (i.stopped down))
          | inr up ↦ elim (Bool-cases failed) [
            | inl bad ↦ record {
              after =
                  writing_of (record c { posted_disconnects = suc c.posted_disconnects }) (x ∷ q)
                    (a ++ b) written accepted;
              returns = inl (rw (write_ended, s, bad, up) refl);
              ordered = record {
                stopped = i.stopped;
                past = past;
                one = inl (none_left, inr (omega arith));
                in_order = i.in_order;
              };
              numbers = omega arith;
            }
            | inr good ↦
                let p =
                  pop_written-Stepped c (a ++ b) written accepted x q up past none_left
                    i.in_order in
                record {
                  after = p.after;
                  returns = rw (write_ended, s, good) p.returns;
                  ordered = p.ordered;
                  numbers = p.numbers;
                }
          ]
        ]
  ]
