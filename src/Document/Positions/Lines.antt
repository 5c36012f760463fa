-- ===== src/Document/Positions/Lines.antt =====
-- crdt_editor/src/document.cpp: lines, their lengths, and the places that clamp_position gives.
use crdt_networking_applicat.Prelude.{
  ℕ, suc, ◌+◌, ◌-◌, ◌<◌, ◌≤◌, min, ◌≡◌, refl, ap, ◌∙◌, ◌⊎◌, inl, inr, Bool, true, false, Option,
  none, some, List, [], ◌∷◌, In, arith, if◌then◌else◌, ◌==◌, ltb, leb, Bool-cases, Option-cases,
}
use crdt_networking_applicat.Prelude.Maps.{is_some}
use crdt_networking_applicat.Ids.{ElementId, root_id}
use crdt_networking_applicat.Operation.{InsertOperation}
use crdt_networking_applicat.Outcome.{ok, ◌>>=◌}
use crdt_networking_applicat.Document.{Document}
use crdt_networking_applicat.Document.History.{Holds}
use crdt_networking_applicat.Document.Visit.{newline, Place, start, past, at_place}
use crdt_networking_applicat.Document.Visit.Fold.{visible, fold_each, visit_document-fold}
use crdt_networking_applicat.Document.Visit.Render.{char_of, get_character-ok}
use crdt_networking_applicat.Document.Queries.{
  LineScan, line_length_step, line_length_result, get_line_length, line_count_step, get_line_count,
  clamp_position, get_anchor_at,
}
use crdt_networking_applicat.Document.Positions.{
  anchor, get_anchor_at-anchor, AllThere, visible-AllThere,
}

-- the newlines of the elements
unfoldable pub newlines : Document → List ElementId → ℕ
newlines d [] = 0
newlines d (y ∷ ys) = let rest = newlines d ys in if char_of d y == newline then suc rest else rest

-- the length of line `t`, where the first of the list stands in line `l`, `k` behind its start
unfoldable pub line_size : Document → ℕ → ℕ → ℕ → List ElementId → ℕ
line_size d t l k [] = k
line_size d t l k (y ∷ ys) =
    let below = line_size d t (l + 1) k ys in
    let same = line_size d t l k ys in
    let longer = line_size d t l (k + 1) ys in
    if l == t
    then (if char_of d y == newline then k else longer)
    else (if char_of d y == newline then below else same)

abbrev pub sized : Bool → ℕ → Option ℕ
sized true n = some n
sized false n = none

module _ (d : Document) where
  count_search :
      (xs : List ElementId) (n : ℕ)
      → AllThere d xs
      → fold_each (line_count_step d) xs n ≡ ok (n + newlines d xs)
  unfolding line_count_step newlines AllThere
  count_search [] n h = ap ok (omega arith)
  count_search (y ∷ ys) n h = elim (Bool-cases (char_of d y == newline)) [
    | inl e ↦
        rw (get_character-ok d y (h y (inl refl)), e)
          (count_search ys (n + 1) (λ z m. h z (inr m)) ∙ ap ok (omega arith))
    | inr e ↦ rw (get_character-ok d y (h y (inl refl)), e) (count_search ys n (λ z m. h z (inr m)))
  ]

  -- Behind the line nothing changes.
  behind_line :
      (t : ℕ) (xs : List ElementId) (s : LineScan)
      → AllThere d xs
      → t < s.current_line
      → (fold_each (line_length_step d t) xs s >>= λ r. ok (line_length_result t r))
        ≡ ok (some s.scanned)
  unfolding line_length_step line_length_result AllThere
  behind_line t [] s h b = ground arith
  behind_line t (y ∷ ys) s h b =
      let later : ltb t s.current_line ≡ true = ground arith in
      rw (get_character-ok d y (h y (inl refl)), later) (behind_line t ys s (λ z m. h z (inr m)) b)

  length_search :
      (t : ℕ) (xs : List ElementId) (l k : ℕ)
      → AllThere d xs
      → l ≤ t
      → (fold_each (line_length_step d t) xs (record { current_line = l; scanned = k }) >>= λ r.
          ok (line_length_result t r))
        ≡ ok (sized (leb t (l + newlines d xs)) (line_size d t l k xs))
  unfolding line_length_step line_length_result newlines line_size AllThere
  length_search t [] l k h b = ground arith
  length_search t (y ∷ ys) l k h b =
      let later : ltb t l ≡ false = ground arith in
      let rest = λ (z : ElementId) (m : In z ys). h z (inr m) in
      rw (get_character-ok d y (h y (inl refl)), later)
        (elim (Bool-cases (l == t)) [
          | inl here ↦ elim (Bool-cases (char_of d y == newline)) [
            | inl e ↦
                rw (here, e)
                  (behind_line t ys (record { current_line = l + 1; scanned = k }) rest
                      (ground arith)
                    ∙ ap ok (ground arith))
            | inr e ↦ rw (here, e) (length_search t ys l (k + 1) rest b)
          ]
          | inr there ↦ elim (Bool-cases (char_of d y == newline)) [
            | inl e ↦
                rw (there, e)
                  (length_search t ys (l + 1) k rest (ground arith) ∙ ap ok (ground arith))
            | inr e ↦ rw (there, e) (length_search t ys l k rest b)
          ]
        ])

  -- Every column up to the length of a line is a place of the cursor.
  pub line_reached :
      (q p : Place) (xs : List ElementId) (k : ℕ) (previous : ElementId)
      → (p.line < q.line × (k ≡ 0)) ⊎ ((p.line ≡ q.line) × (k ≡ p.column) × (p.column ≤ q.column))
      → q.line ≤ p.line + newlines d xs
      → q.column ≤ line_size d q.line p.line k xs
      → is_some (anchor d q p previous xs) ≡ true
  unfolding newlines line_size anchor past
  line_reached q p [] k previous w e f = ground arith
  line_reached q p (y ∷ ys) k previous w e f = elim (Bool-cases (at_place p q)) [
    | inl here ↦ rw here
    | inr there ↦ elim (Bool-cases (char_of d y == newline)) [
      | inl n ↦
          rw (there, n)
            (line_reached q (record { line = p.line + 1; column = 0 }) ys k y (ground arith)
              (ground arith) (ground arith))
      | inr n ↦
          let next : Place = record { line = p.line; column = p.column + 1 } in
          rw (there, n)
            (elim w [
              | inl above ↦ line_reached q next ys k y (inl above) (ground arith) (ground arith)
              | inr (same, at_end, within) ↦
                  line_reached q next ys (k + 1) y (inr (same, omega arith, ground arith))
                    (ground arith) (ground arith)
            ])
    ]
  ]

module _ {T : InsertOperation → Type 0} {R : ElementId → Type 0} {d : Document}
    (v : Holds T R d) where
  get_line_count-newlines : get_line_count d ≡ ok (1 + newlines d (visible d))
  unfolding get_line_count
  get_line_count-newlines =
      visit_document-fold v (line_count_step d) 1
      ∙ count_search d (visible d) 1 (visible-AllThere v)

  pub get_line_length-line_size :
      (t : ℕ)
      → get_line_length d t
        ≡ ok (sized (leb t (0 + newlines d (visible d))) (line_size d t 0 0 (visible d)))
  unfolding get_line_length
  get_line_length-line_size t =
      rw (visit_document-fold v (line_length_step d t) (record { current_line = 0; scanned = 0 }))
        (length_search d t (visible d) 0 0 (visible-AllThere v) (omega arith))

  -- In a document that some history of operations leaves, the lines are numbered from 0: a line
  -- has a length if its number is below get_line_count, and none otherwise.
  pub get_line_length-get_line_count :
      (t : ℕ)
      → (count : ℕ) × (size : ℕ) × (get_line_count d ≡ ok count)
        × (get_line_length d t ≡ ok (if ltb t count then some size else none))
  get_line_length-get_line_count t = (
    1 + newlines d (visible d),
    line_size d t 0 0 (visible d),
    get_line_count-newlines,
    get_line_length-line_size t ∙ ap ok (ground arith),
  )

  -- In a document that some history of operations leaves, clamp_position returns, for whatever
  -- place is asked for, a place where get_anchor_at finds an anchor, not behind the line or the
  -- column that was asked for.
  pub clamp_position-get_anchor_at :
      (requested : Place)
      → (p : Place) × (a : ElementId) × (clamp_position d requested ≡ ok p)
        × (get_anchor_at d p ≡ ok (some a))
        × (p.line ≤ requested.line)
        × (p.column ≤ requested.column)
  unfolding clamp_position
  clamp_position-get_anchor_at requested =
      let n = newlines d (visible d) in
      let line = min requested.line n in
      let size = line_size d line 0 0 (visible d) in
      let p : Place = record { line = line; column = min requested.column size } in
      let reached =
        line_reached d p start (visible d) 0 root_id (ground arith) (omega arith) (omega arith) in
      let below : 1 + n - 1 ≡ n = omega arith in
      let some_line : (1 + n == 0) ≡ false = ground arith in
      let there : leb line (0 + n) ≡ true = ground arith in
      elim (Option-cases (anchor d p start root_id (visible d))) [
        | inl e ↦ absurd (cc (rw e at reached))
        | inr (a, found) ↦ (
          p,
          a,
          rw (get_line_count-newlines, below, some_line, get_line_length-line_size line, there),
          get_anchor_at-anchor v p ∙ ap ok found,
          omega arith,
          omega arith,
        )
      ]
