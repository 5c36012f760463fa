-- ===== src/Widget/Paint.antt =====
-- Where the cursors are drawn in crdt_editor/UI/editor_widget.cpp: the line and the column that go
-- to document_to_screen. Only a std::runtime_error is caught.
use crdt_networking_applicat.Prelude.{
  ◌≡◌, refl, inl, inr, Bool, true, false, not, Option, none, some, List, [], ◌∷◌, ite,
  if◌then◌else◌, ◌==◌,
}
use crdt_networking_applicat.Prelude.Maps.{Map, contains, same_key}
use crdt_networking_applicat.Ids.{ElementId, id_key, root_id}
use crdt_networking_applicat.Text.{Bytes}
use crdt_networking_applicat.Outcome.{
  Fault, Result, ok, err, ◌>>=◌, out_of_fuel, out_of_range, invalid_argument, length_error,
  bad_optional_access, empty_optional, division_by_zero, empty_deque, bad_variant_access,
}
use crdt_networking_applicat.Operation.{InsertOperation}
use crdt_networking_applicat.Document.{Document}
use crdt_networking_applicat.Document.History.{Holds}
use crdt_networking_applicat.Document.Visit.{Place, newline, get_character}
use crdt_networking_applicat.Document.Queries.{get_cursor_position, get_visible_range}
use crdt_networking_applicat.Document.Walk.{visible_predecessor, resolve_cursor_anchor}
use crdt_networking_applicat.Document.Walk.Anchors.{IsAnchor, resolve_cursor_anchor-IsAnchor}
use crdt_networking_applicat.Document.Positions.Reach.{get_cursor_position-line}
use crdt_networking_applicat.Cursor.{normalized_range}
use crdt_networking_applicat.Session.{EditorSession}
use crdt_networking_applicat.Session.Invariant.{SessionInv, AllHere}
use crdt_networking_applicat.Widget.{EditorWidget}

-- Whether a catch of std::runtime_error takes it: std::bad_variant_access and the logic errors are
-- none, and what is undefined is no exception.
abbrev is_runtime_error : Fault → Bool
is_runtime_error out_of_fuel = false
is_runtime_error out_of_range = false
is_runtime_error invalid_argument = false
is_runtime_error length_error = false
is_runtime_error bad_optional_access = false
is_runtime_error empty_optional = false
is_runtime_error division_by_zero = false
is_runtime_error empty_deque = false
is_runtime_error bad_variant_access = false
is_runtime_error _ = true

-- the body of the try block of draw_remote_cursors
unfoldable pub remote_place : Document → ElementId → Result (Option Place)
remote_place d anchor = do
  resolved ← resolve_cursor_anchor d anchor
  elim resolved [ none ↦ ok none | some r ↦ do p ← get_cursor_position d r; ok (some p) ]

-- one remote cursor, in front of the others
abbrev pub draw_one :
    Bytes → Result (Option Place) → Result (List (Bytes × Place)) → Result (List (Bytes × Place))
draw_one id (ok none) rest = rest
draw_one id (ok (some p)) rest = do l ← rest; ok ((id, p) ∷ l)
draw_one id (err e) rest = if is_runtime_error e then rest else err e

-- EditorWidget::draw_remote_cursors
unfoldable pub draw_remote_cursors : Document → Map Bytes ElementId → Result (List (Bytes × Place))
unfolding remote_place
draw_remote_cursors d [] = ok []
draw_remote_cursors d ((id, anchor) ∷ m) =
    draw_one id (remote_place d anchor) (draw_remote_cursors d m)

-- EditorWidget::draw_local_cursor; the test in front of it only reads the character.
unfoldable pub draw_local_cursor : EditorWidget → Result (Option Place)
draw_local_cursor w =
    let d = w.session.doc in
    let anchor = w.session.cursor.anchor in
    if not w.cursor_visible then ok none else do
      read ←
          ite (same_key anchor root_id) (ok 0)
            (if contains anchor d.elements then get_character d anchor else ok 0)
      p ← get_cursor_position d anchor
      ok (some p)

-- The loop of draw_selection.
unfoldable pub draw_selected : Document → List ElementId → Result (List Place)
draw_selected d [] = ok []
draw_selected d (id ∷ ids) =
    let rest = draw_selected d ids in
    do
      c ← get_character d id
      if c == newline then rest else do
        before ← visible_predecessor d id
        p ← get_cursor_position d before
        l ← rest
        ok (p ∷ l)

-- EditorWidget::draw_selection
unfoldable pub draw_selection : EditorWidget → Result (List Place)
unfolding draw_selected
draw_selection w = do
  range ← normalized_range w.session.doc w.session.cursor
  elim range [
    | none ↦ ok []
    | some r ↦ get_visible_range w.session.doc r >>= draw_selected w.session.doc
  ]

-- Each remote cursor is drawn, in order, where its anchor resolves to.
unfoldable pub AreDrawn : Document → Map Bytes ElementId → List (Bytes × Place) → Type 0
AreDrawn d [] [] = Unit
AreDrawn d [] (q ∷ l) = ⊥
AreDrawn d (e ∷ m) [] = ⊥
AreDrawn d ((id, x) ∷ m) ((id', p) ∷ l) =
    (id' ≡ id)
    × ((r : ElementId) × (resolve_cursor_anchor d x ≡ ok (some r))
        × IsAnchor d r
        × (IsAnchor d x → r ≡ x)
        × (get_cursor_position d r ≡ ok p))
    × AreDrawn d m l

draw-each :
    {T : InsertOperation → Type 0} {R : ElementId → Type 0} {d : Document} (v : Holds T R d)
    (m : Map Bytes ElementId)
    → AllHere d m
    → (l : List (Bytes × Place)) × (draw_remote_cursors d m ≡ ok l) × AreDrawn d m l
unfolding draw_remote_cursors remote_place AreDrawn
draw-each v [] a = ([], refl, tt)
draw-each {d = d} v ((id, x) ∷ m) a =
    let (l, rest, drawn) = draw-each v m (λ k y n. a k y (inr n)) in
    elim (resolve_cursor_anchor-IsAnchor v x) [
      | inl (lacks, e) ↦ absurd (cc (lacks, a id x (inl refl)))
      | inr (r, there, e, good, same) ↦
          let (p, found, _) = get_cursor_position-line v r good in
          ((id, p) ∷ l, rw (e, found, rest) refl, (refl, (r, e, good, same, found), drawn))
    ]

-- In a session in a state that its calls keep, painting the remote cursors throws nothing, and
-- draws every one of them, in order: at the place of an anchor where a cursor may stand, which is
-- the one that was received if that may be.
pub draw_remote_cursors-AreDrawn :
    (s : EditorSession)
    → SessionInv s
    → (l : List (Bytes × Place)) × (draw_remote_cursors s.doc s.remote_cursors ≡ ok l)
      × AreDrawn s.doc s.remote_cursors l
draw_remote_cursors-AreDrawn s i = draw-each i.sound.holds s.remote_cursors i.sound.remotes
