-- ===== src/Client/Writing/Ordered.antt =====
-- One write at a time, in the order of the queue, whatever handlers are still to run.
use crdt_networking_applicat.Prelude.{
  ℕ, ◌+◌, ◌<◌, ◌≤◌, ◌≡◌, ◌⊎◌, inl, inr, refl, sym, ap, ◌∙◌, true, false, not, List, [], ◌∷◌, ◌++◌,
  In, if◌then◌else◌, arith,
}
use mathlib.Core.List.{append_assoc, append-nil}
use crdt_networking_applicat.Outcome.{Outcome, done, threw, length_error}
use crdt_networking_applicat.Text.{Bytes}
use crdt_networking_applicat.Client.{NetworkClient, NetworkClientState, is_disconnected, can_send}
use crdt_networking_applicat.Client.Writing.{
  Writing, with_queue, start_write, push_frame, pop_written,
}
use crdt_networking_applicat.Client.Writing.Flight.{current, In-end, current-launched}

-- At most one frame of this connection is in flight: the front of the queue. None is only if the
-- queue is empty or a write failed. What was written and the queue are what was accepted.
pub record IsOrdered (w : Writing) : Type 0 where
  pub stopped : is_disconnected w.client.state ≡ true → w.client.write_queue ≡ []
  pub past : (g : ℕ) (f : Bytes) → In (g, f) w.in_flight → g ≤ w.client.connection_generation
  pub one :
      ((current w.client.connection_generation w.in_flight ≡ [])
        × ((w.client.write_queue ≡ []) ⊎ (0 < w.client.posted_disconnects)))
      ⊎ ((f : Bytes) × (q : List Bytes) × (current w.client.connection_generation w.in_flight
            ≡ f ∷ [])
          × (w.client.write_queue ≡ f ∷ q))
  pub in_order : w.written ++ w.client.write_queue ≡ w.accepted

pub sends_while_connected : (s : NetworkClientState) → can_send s ≡ true → is_disconnected s ≡ false
sends_while_connected s e = ground arith

-- A step that keeps the order, and uses at most one new connection number.
pub record Stepped (w : Writing) (o : Outcome Writing) : Type 0 where
  pub after : Writing
  pub returns : (o ≡ done after) ⊎ (o ≡ threw length_error after)
  pub ordered : IsOrdered after
  pub numbers : after.client.connection_generation ≤ w.client.connection_generation + 1

abbrev pub writing_of :
    NetworkClient → List Bytes → List (ℕ × Bytes) → List Bytes → List Bytes → Writing
writing_of c q flight written accepted = record {
  client = with_queue q c;
  in_flight = flight;
  written = written;
  accepted = accepted;
}

module _ (c : NetworkClient) (written accepted : List Bytes) where
  -- The first of the queue goes into flight.
  launched-IsOrdered :
      (f : Bytes) (q : List Bytes) (flight : List (ℕ × Bytes))
      → is_disconnected c.state ≡ false
      → ((g : ℕ) (e : Bytes) → In (g, e) flight → g ≤ c.connection_generation)
      → current c.connection_generation flight ≡ []
      → written ++ f ∷ q ≡ accepted
      → IsOrdered
          (writing_of c (f ∷ q) (flight ++ (c.connection_generation, f) ∷ []) written accepted)
  launched-IsOrdered f q flight up past none_here order = record {
    stopped = λ e. absurd (cc (up, e));
    past = λ g e m. elim (In-end (g, e) (c.connection_generation, f) flight m) [
      | inl k ↦ past g e k
      | inr same ↦
          let number : g ≡ c.connection_generation = ap (λ (x : ℕ × Bytes). x.0) same in
          omega (arith, number)
    ];
    one = inr (f, q, current-launched c.connection_generation flight f none_here, refl);
    in_order = order;
  }

module _ (c : NetworkClient) (flight : List (ℕ × Bytes)) (written accepted : List Bytes) where
  pub push_frame-Stepped :
      (q : List Bytes) (frame : Bytes)
      → is_disconnected c.state ≡ false
      → IsOrdered (writing_of c q flight written accepted)
      → Stepped
          (writing_of c q flight written accepted)
          (push_frame (writing_of c q flight written accepted) frame)
  unfolding start_write
  push_frame-Stepped [] frame up i = record {
    after =
        writing_of c (frame ∷ []) (flight ++ (c.connection_generation, frame) ∷ []) written
          (accepted ++ frame ∷ []);
    returns = inl refl;
    ordered =
        launched-IsOrdered c written (accepted ++ frame ∷ []) frame [] flight up i.past
          (elim i.one [ inl (e, k) ↦ e | inr (f, r, e, k) ↦ absurd (cc k) ])
          (ap (λ l. l ++ frame ∷ []) (sym (append-nil written) ∙ i.in_order));
    numbers = omega arith;
  }
  push_frame-Stepped (x ∷ q) frame up i = record {
    after = writing_of c (x ∷ q ++ frame ∷ []) flight written (accepted ++ frame ∷ []);
    returns = inl refl;
    ordered = record {
      stopped = λ e. absurd (cc (up, e));
      past = i.past;
      one = elim i.one [
        | inl (e, inl k) ↦ absurd (cc k)
        | inl (e, inr k) ↦ inl (e, inr k)
        | inr (f, r, e, k) ↦ inr (f, r ++ frame ∷ [], e, ap (λ l. l ++ frame ∷ []) k)
      ];
      in_order =
          sym (append_assoc written (x ∷ q) (frame ∷ [])) ∙ ap (λ l. l ++ frame ∷ []) i.in_order;
    };
    numbers = omega arith;
  }

  -- The front was written: the next frame goes into flight, if there is one.
  pub pop_written-Stepped :
      (f : Bytes) (q : List Bytes)
      → is_disconnected c.state ≡ false
      → ((g : ℕ) (e : Bytes) → In (g, e) flight → g ≤ c.connection_generation)
      → current c.connection_generation flight ≡ []
      → written ++ f ∷ q ≡ accepted
      → Stepped
          (writing_of c (f ∷ q) flight written accepted)
          (pop_written (writing_of c (f ∷ q) flight written accepted))
  unfolding pop_written start_write
  pop_written-Stepped f [] up past none_here order = record {
    after = writing_of c [] flight (written ++ f ∷ []) accepted;
    returns = inl refl;
    ordered = record {
      stopped = λ e. refl;
      past = past;
      one = inl (none_here, inl refl);
      in_order = append-nil (written ++ f ∷ []) ∙ order;
    };
    numbers = omega arith;
  }
  pop_written-Stepped f (x ∷ q) up past none_here order = record {
    after =
        writing_of c (x ∷ q) (flight ++ (c.connection_generation, x) ∷ []) (written ++ f ∷ [])
          accepted;
    returns = inl (
        ap
          (λ b.
            if not b
            then start_write (writing_of c (x ∷ q) flight (written ++ f ∷ []) accepted)
            else done (writing_of c (x ∷ q) flight (written ++ f ∷ []) accepted))
          up);
    ordered =
        launched-IsOrdered c (written ++ f ∷ []) accepted x q flight up past none_here
          (append_assoc written (f ∷ []) (x ∷ q) ∙ order);
    numbers = omega arith;
  }
