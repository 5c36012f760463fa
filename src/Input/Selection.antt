-- ===== src/Input/Selection.antt =====
-- crdt_editor/editor/input_handler.cpp and cursor.cpp: what a selection holds, and that
-- delete_selection removes this and no more.
use crdt_networking_applicat.Prelude.{
  ◌≡◌, ◌≢◌, refl, sym, ap, ap₂, ◌∙◌, ◌⊎◌, inl, inr, true, none, some, List, [], ◌∷◌, ◌++◌, map, In,
  if_pos, if_neg, ite,
}
use crdt_networking_applicat.Prelude.Maps.{same_key}
use crdt_networking_applicat.Ids.{ElementId, id_key, root_id}
use crdt_networking_applicat.Operation.{InsertOperation}
use crdt_networking_applicat.Outcome.{ok, replied, reply_on}
use crdt_networking_applicat.Document.{Document}
use crdt_networking_applicat.Document.History.{Holds}
use crdt_networking_applicat.Document.Visit.{visit_document}
use crdt_networking_applicat.Document.Visit.Fold.{visible, fold_each, visit_document-fold}
use crdt_networking_applicat.Document.Visit.Members.{mem-visible}
use crdt_networking_applicat.Document.Queries.{DocumentRange}
use crdt_networking_applicat.Document.Walk.{visible_predecessor}
use crdt_networking_applicat.Document.Walk.Neighbours.{In-split}
use crdt_networking_applicat.Document.Walk.Anchors.{IsAnchor}
use crdt_networking_applicat.Document.Ranges.{get_visible_range-between, in_front}
use crdt_networking_applicat.Cursor.{
  Cursor, set_anchor, has_selection, get_selection_anchor, clear_selection, meet_ends,
  normalized_range,
}
use crdt_networking_applicat.Input.{InputHandler, removal, delete_selection}

module _ (from to : ElementId) where
  meet_done :
      (xs : List ElementId) (r : DocumentRange)
      → fold_each (meet_ends from to) xs (some r) ≡ ok (some r)
  unfolding meet_ends
  meet_done [] r = refl
  meet_done (x ∷ xs) r = meet_done xs r

  -- The visitor of normalized_range finds the two ends in the order in which they stand.
  meet_ends-order :
      (xs : List ElementId)
      → from ≢ to
      → In from xs
      → In to xs
      → (us ms ws : List ElementId) × (x y : ElementId) × (xs ≡ us ++ x ∷ (ms ++ y ∷ ws))
        × (((x ≡ from) × (y ≡ to)) ⊎ ((x ≡ to) × (y ≡ from)))
        × (fold_each (meet_ends from to) xs none ≡ ok (some (record { first = x; last = y })))
  unfolding meet_ends
  meet_ends-order [] n m k = absurd m
  meet_ends-order (z ∷ zs) n m k = elim (same_key z from) [
    | yes q ↦
        let (ms, ws, e) =
          In-split to zs (elim k [ inl t ↦ absurd (n (sym q ∙ sym t)) | inr t ↦ t ]) in
        (
          [],
          ms,
          ws,
          from,
          to,
          ap₂ (λ a l. a ∷ l) q e,
          inl (refl, refl),
          rw (if_pos (same_key z from) q) (meet_done zs (record { first = from; last = to })),
        )
    | no n₁ ↦ elim (same_key z to) [
      | yes q ↦
          let (ms, ws, e) = In-split from zs (elim m [ inl t ↦ absurd (n₁ (sym t)) | inr t ↦ t ]) in
          (
            [],
            ms,
            ws,
            to,
            from,
            ap₂ (λ a l. a ∷ l) q e,
            inr (refl, refl),
            rw (if_neg (same_key z from) n₁, if_pos (same_key z to) q)
                (meet_done zs (record { first = to; last = from })),
          )
      | no n₂ ↦
          let (us, ms, ws, x, y, e, which, found) =
            meet_ends-order zs n (elim m [ inl t ↦ absurd (n₁ (sym t)) | inr t ↦ t ])
              (elim k [ inl t ↦ absurd (n₂ (sym t)) | inr t ↦ t ]) in
          (
            z ∷ us,
            ms,
            ws,
            x,
            y,
            ap (λ l. z ∷ l) e,
            which,
            rw (if_neg (same_key z from) n₁, if_neg (same_key z to) n₂) found,
          )
    ]
  ]

selects :
    (c : Cursor) (s : ElementId)
    → c.selection_anchor ≡ some s
    → s ≢ c.anchor
    → has_selection c ≡ true
unfolding has_selection
selects c s e n = rw (has_selection, e) (if_neg (same_key s c.anchor) n _ _)

selected_from :
    (c : Cursor) (s : ElementId)
    → c.selection_anchor ≡ some s
    → s ≢ c.anchor
    → get_selection_anchor c ≡ ok s
unfolding get_selection_anchor
selected_from c s e n = rw (get_selection_anchor, e, selects c s e n)

module _ {T : InsertOperation → Type 0} {R : ElementId → Type 0} {d : Document}
    (v : Holds T R d) where
  is_there : (x : ElementId) → IsAnchor d x → x ≢ root_id → In x (visible d)
  is_there x (inl e) n = absurd (n e)
  is_there x (inr s) n = (mem-visible v x).1 s

  behind_root :
      (x : ElementId)
      → IsAnchor d x
      → x ≢ root_id
      → (ms ws : List ElementId) × (visible d ≡ ms ++ x ∷ ws)
  behind_root x a n = In-split x (visible d) (is_there x a n)

  -- The two ends of a selection, in the order in which they stand.
  normalized_range-between :
      (c : Cursor) (s : ElementId)
      → c.selection_anchor ≡ some s
      → s ≢ c.anchor
      → IsAnchor d s
      → IsAnchor d c.anchor
      → (us ms ws : List ElementId) × (x y : ElementId) × (root_id ∷ visible d
          ≡ us ++ x ∷ (ms ++ y ∷ ws))
        × (((x ≡ s) × (y ≡ c.anchor)) ⊎ ((x ≡ c.anchor) × (y ≡ s)))
        × (normalized_range d c ≡ ok (some (record { first = x; last = y })))
  unfolding normalized_range
  normalized_range-between c s e n p q =
      let step : normalized_range d c
          ≡ ite (same_key s root_id) (ok (some (record { first = s; last = c.anchor }))) (
              ite (same_key c.anchor root_id) (ok (some (record { first = c.anchor; last = s })))
                (visit_document d (meet_ends s c.anchor) none)) =
        rw (selects c s e n, selected_from c s e n) (if_neg (same_key s c.anchor) n _ _) in
      elim (same_key s root_id) [
        | yes r ↦
            let (ms, ws, split) = behind_root c.anchor q (λ k. n (r ∙ sym k)) in
            (
              [],
              ms,
              ws,
              s,
              c.anchor,
              ap₂ (λ z l. z ∷ l) (sym r) split,
              inl (refl, refl),
              step ∙ if_pos (same_key s root_id) r _ _,
            )
        | no ns ↦ elim (same_key c.anchor root_id) [
          | yes r ↦
              let (ms, ws, split) = behind_root s p ns in
              (
                [],
                ms,
                ws,
                c.anchor,
                s,
                ap₂ (λ z l. z ∷ l) (sym r) split,
                inr (refl, refl),
                step
                    ∙ if_neg (same_key s root_id) ns _ _
                    ∙ if_pos (same_key c.anchor root_id) r _ _,
              )
          | no nc ↦
              let (us, ms, ws, x, y, split, which, met) =
                meet_ends-order s c.anchor (visible d) n (is_there s p ns)
                  (is_there c.anchor q nc) in
              (
                root_id ∷ us,
                ms,
                ws,
                x,
                y,
                ap (λ l. root_id ∷ l) split,
                which,
                step
                    ∙ if_neg (same_key s root_id) ns _ _
                    ∙ if_neg (same_key c.anchor root_id) nc _ _
                    ∙ visit_document-fold v (meet_ends s c.anchor) none
                    ∙ met,
              )
        ]
      ]

  -- In a document that some history of operations leaves, with both ends of a selection where a
  -- cursor may stand: delete_selection returns one removal for each visible element between the
  -- ends, from the one behind the first end up to the last end, in the order of the text and
  -- nothing else. The selection is gone, and the cursor stands at the end that comes first.
  pub delete_selection-between :
      (h : InputHandler) (s : ElementId)
      → h.cursor.selection_anchor ≡ some s
      → s ≢ h.cursor.anchor
      → IsAnchor d s
      → IsAnchor d h.cursor.anchor
      → (us ms ws : List ElementId) × (x y : ElementId) × (root_id ∷ visible d
          ≡ us ++ x ∷ (ms ++ y ∷ ws))
        × (((x ≡ s) × (y ≡ h.cursor.anchor)) ⊎ ((x ≡ h.cursor.anchor) × (y ≡ s)))
        × (delete_selection d h
            ≡ replied
                (map removal (ms ++ y ∷ []))
                (record h { cursor = set_anchor x (clear_selection h.cursor) }))
  unfolding delete_selection
  delete_selection-between h s e n p q =
      let (us, ms, ws, x, y, split, which, range) = normalized_range-between h.cursor s e n p q in
      (
        us,
        ms,
        ws,
        x,
        y,
        split,
        which,
        rw (range, selects h.cursor s e n, get_visible_range-between v us ms ws x y split)
            (first_of us ms ws x y split),
      )
    where
      first_of :
          (us ms ws : List ElementId) (x y : ElementId)
          → root_id ∷ visible d ≡ us ++ x ∷ (ms ++ y ∷ ws)
          → (elim (ms ++ y ∷ []) [
            | [] ↦ replied [] (record h { cursor = clear_selection h.cursor })
            | z ∷ zs ↦ reply_on (visible_predecessor d z) h λ new_cursor.
                replied
                  (map removal (z ∷ zs))
                  (record h { cursor = set_anchor new_cursor (clear_selection h.cursor) })
          ])
            ≡ replied
                (map removal (ms ++ y ∷ []))
                (record h { cursor = set_anchor x (clear_selection h.cursor) })
      first_of us [] ws x y split = rw (in_front v us ws x y split)
      first_of us (m ∷ ms) ws x y split = rw (in_front v us (ms ++ y ∷ ws) x m split)
