-- ===== src/Input/Moves.antt =====
-- crdt_editor/editor/input_handler.cpp: the moves of the cursor. Each returns, and leaves the cursor
-- where one may stand.
use crdt_networking_applicat.Prelude.{
  ℕ, ◌+◌, ◌-◌, ◌≤◌, min, ◌≡◌, refl, ◌⊎◌, inl, inr, none, some, arith, Bool-cases, Option-cases,
  ◌==◌,
}
use crdt_networking_applicat.Ids.{ElementId, id_key}
use crdt_networking_applicat.Operation.{InsertOperation}
use crdt_networking_applicat.Outcome.{ok, Outcome, done}
use crdt_networking_applicat.Document.{Document}
use crdt_networking_applicat.Document.History.{Holds}
use crdt_networking_applicat.Document.Visit.{Place}
use crdt_networking_applicat.Document.Queries.{get_cursor_position, get_line_length, value_or}
use crdt_networking_applicat.Document.Positions.Reach.{
  get_anchor_at-place, get_anchor_at-reached, get_cursor_position-line, get_line_length-ok,
}
use crdt_networking_applicat.Document.Walk.Anchors.{
  IsAnchor, IsAnchor-Has, visible_predecessor-IsAnchor, visible_successor-IsAnchor,
}
use crdt_networking_applicat.Cursor.{Cursor, set_anchor, get_line_column, set_desired_column}
use crdt_networking_applicat.Input.{
  check_place, move_left_impl, move_right_impl, keep_column, go_to_line, move_up_impl,
  move_down_impl,
}

-- A move that returns: the cursor stands where it may, and its selection still starts where it did.
pub record Moved (d : Document) (c : Cursor) (o : Outcome Cursor) : Type 0 where
  pub after : Cursor
  pub returns : o ≡ done after
  pub stands : IsAnchor d after.anchor
  pub selection : after.selection_anchor ≡ c.selection_anchor

module _ {T : InsertOperation → Type 0} {R : ElementId → Type 0} {d : Document}
    (v : Holds T R d) where
  pub check_place-done : (c : Cursor) → IsAnchor d c.anchor → check_place d c ≡ done c
  unfolding check_place get_line_column
  check_place-done c a = let (p, e, _) = get_cursor_position-line v c.anchor a in rw e

  pub move_left_impl-Moved : (c : Cursor) → IsAnchor d c.anchor → Moved d c (move_left_impl d c)
  unfolding move_left_impl
  move_left_impl-Moved c a =
      let (r, found, good) = visible_predecessor-IsAnchor v c.anchor (IsAnchor-Has v c.anchor a) in
      record {
        after = set_anchor r c;
        returns = rw found (check_place-done (set_anchor r c) good);
        stands = good;
        selection = refl;
      }

  pub move_right_impl-Moved : (c : Cursor) → IsAnchor d c.anchor → Moved d c (move_right_impl d c)
  unfolding move_right_impl
  move_right_impl-Moved c a =
      let (r, found, good) = visible_successor-IsAnchor v c.anchor (IsAnchor-Has v c.anchor a) in
      elim (Option-cases r) [
        | inl e ↦ record {
          after = c;
          returns = rw (found, e) (check_place-done c a);
          stands = a;
          selection = refl;
        }
        | inr (x, e) ↦ record {
          after = set_anchor x c;
          returns = rw (found, e) (check_place-done (set_anchor x c) (inr (good x e)));
          stands = inr (good x e);
          selection = refl;
        }
      ]

  -- To a line of the text: the cursor stands at the desired column, or at the end of the line.
  go_to_line-place :
      (line n column : ℕ) (c : Cursor)
      → get_line_length d line ≡ ok (some n)
      → (a : ElementId) × (go_to_line d line n (set_desired_column column c)
          ≡ done (set_anchor a (set_desired_column column c)))
        × IsAnchor d a
        × (get_cursor_position d a ≡ ok (record { line = line; column = min column n }))
  unfolding go_to_line
  go_to_line-place line n column c e =
      let q : Place = record { line = line; column = min column n } in
      let within : min column n ≤ n = omega arith in
      let (a, found) = get_anchor_at-reached v q n e within in
      let (good, place) = get_anchor_at-place v q a found in
      let there = check_place-done (set_anchor a (set_desired_column column c)) good in
      (a, rw found there, good, place)

  -- In a document that some history of operations leaves, with the cursor where it may stand:
  -- move_up_impl does nothing in line 0. From any other line it goes to the line above, to the
  -- desired column or to the end of that line if it is shorter; the desired column is the column
  -- where the cursor stood, if it had none, and is kept. It does not throw.
  pub move_up_impl-place :
      (c : Cursor)
      → IsAnchor d c.anchor
      → (p : Place) × (get_line_column d c ≡ ok p)
        × (((p.line ≡ 0) × (move_up_impl d c ≡ done c))
            ⊎ ((a : ElementId) × (n : ℕ) × (get_line_length d (p.line - 1) ≡ ok (some n))
                × (move_up_impl d c ≡ done (set_anchor a (keep_column p.column c)))
                × IsAnchor d a
                × (get_cursor_position d a
                    ≡ ok (record {
                      line = p.line - 1;
                      column = min (value_or c.desired_column p.column) n;
                    }))))
  unfolding move_up_impl get_line_column
  move_up_impl-place c a =
      let (p, e, lines) = get_cursor_position-line v c.anchor a in
      (
        p,
        e,
        elim (Bool-cases (p.line == 0)) [
          | inl top ↦ inl (ground arith, rw (e, top))
          | inr below ↦
              let (n, size) = lines (p.line - 1) (omega arith) in
              let (x, moved, good, place) =
                go_to_line-place (p.line - 1) n (value_or c.desired_column p.column) c size in
              inr (x, n, size, rw (e, below, size) moved, good, place)
        ],
      )

  -- In a document that some history of operations leaves, with the cursor where it may stand:
  -- move_down_impl does nothing in the last line. From any other line it goes to the line below, to
  -- the desired column or to the end of that line if it is shorter; the desired column is the
  -- column where the cursor stood, if it had none, and is kept. It does not throw.
  pub move_down_impl-place :
      (c : Cursor)
      → IsAnchor d c.anchor
      → (p : Place) × (get_line_column d c ≡ ok p)
        × (((get_line_length d (p.line + 1) ≡ ok none) × (move_down_impl d c ≡ done c))
            ⊎ ((a : ElementId) × (n : ℕ) × (get_line_length d (p.line + 1) ≡ ok (some n))
                × (move_down_impl d c ≡ done (set_anchor a (keep_column p.column c)))
                × IsAnchor d a
                × (get_cursor_position d a
                    ≡ ok (record {
                      line = p.line + 1;
                      column = min (value_or c.desired_column p.column) n;
                    }))))
  unfolding move_down_impl get_line_column
  move_down_impl-place c a =
      let (p, e, _) = get_cursor_position-line v c.anchor a in
      (
        p,
        e,
        elim (get_line_length-ok v (p.line + 1)) [
          | inl last ↦ inl (last, rw (e, last))
          | inr (n, size) ↦
              let (x, moved, good, place) =
                go_to_line-place (p.line + 1) n (value_or c.desired_column p.column) c size in
              inr (x, n, size, rw (e, size) moved, good, place)
        ],
      )

  pub move_up_impl-Moved : (c : Cursor) → IsAnchor d c.anchor → Moved d c (move_up_impl d c)
  move_up_impl-Moved c a = elim (move_up_impl-place c a).2 [
    | inl (_, e) ↦ record { after = c; returns = e; stands = a; selection = refl }
    | inr (x, _, _, e, good, _) ↦ record {
      after = set_anchor x (keep_column (move_up_impl-place c a).0.column c);
      returns = e;
      stands = good;
      selection = refl;
    }
  ]

  pub move_down_impl-Moved : (c : Cursor) → IsAnchor d c.anchor → Moved d c (move_down_impl d c)
  move_down_impl-Moved c a = elim (move_down_impl-place c a).2 [
    | inl (_, e) ↦ record { after = c; returns = e; stands = a; selection = refl }
    | inr (x, _, _, e, good, _) ↦ record {
      after = set_anchor x (keep_column (move_down_impl-place c a).0.column c);
      returns = e;
      stands = good;
      selection = refl;
    }
  ]
