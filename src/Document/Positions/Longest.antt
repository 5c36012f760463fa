-- ===== src/Document/Positions/Longest.antt =====
-- Document::get_max_line_length of crdt_editor/src/document.cpp.
use crdt_networking_applicat.Prelude.{
  ℕ, ◌+◌, max, ◌≡◌, refl, inl, inr, ◌==◌, List, [], ◌∷◌, In, Bool-cases,
}
use crdt_networking_applicat.Ids.{ElementId}
use crdt_networking_applicat.Operation.{InsertOperation}
use crdt_networking_applicat.Outcome.{ok}
use crdt_networking_applicat.Document.{Document}
use crdt_networking_applicat.Document.History.{Holds}
use crdt_networking_applicat.Document.Visit.{newline}
use crdt_networking_applicat.Document.Visit.Fold.{visible, fold_each, visit_document-fold}
use crdt_networking_applicat.Document.Visit.Render.{char_of, get_character-ok}
use crdt_networking_applicat.Document.Queries.{MaxScan, max_length_step, get_max_line_length}
use crdt_networking_applicat.Document.Positions.{AllThere, visible-AllThere}

max_search :
    (d : Document) (xs : List ElementId) (s : MaxScan)
    → AllThere d xs
    → (t : MaxScan) × (fold_each (max_length_step d) xs s ≡ ok t)
unfolding max_length_step AllThere
max_search d [] s h = (s, refl)
max_search d (y ∷ ys) s h =
    let rest = λ (z : ElementId) (m : In z ys). h z (inr m) in
    elim (Bool-cases (char_of d y == newline)) [
      | inl e ↦
          let (t, found) =
            max_search d ys
              (record { max_length = max s.max_length s.current_length; current_length = 0 })
              rest in
          (t, rw (get_character-ok d y (h y (inl refl)), e) found)
      | inr e ↦
          let (t, found) =
            max_search d ys (record s { current_length = s.current_length + 1 }) rest in
          (t, rw (get_character-ok d y (h y (inl refl)), e) found)
    ]

pub get_max_line_length-ok :
    {T : InsertOperation → Type 0} {R : ElementId → Type 0} {d : Document}
    → Holds T R d
    → (n : ℕ) × (get_max_line_length d ≡ ok n)
unfolding get_max_line_length
get_max_line_length-ok {d = d} v =
    let none_yet : MaxScan = record { max_length = 0; current_length = 0 } in
    let (t, longest) = max_search d (visible d) none_yet (visible-AllThere v) in
    (
      max t.max_length t.current_length,
      rw (visit_document-fold v (max_length_step d) none_yet, longest) refl,
    )
