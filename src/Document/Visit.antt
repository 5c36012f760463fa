-- ===== src/Document/Visit.antt =====
-- Document::visit_visible and what it is called for: render, and the questions about lines and
-- columns. A visitor that captures variables by reference is a function on those variables.
pub mod Fold
pub mod Members
pub mod Everyone
pub mod Once
pub mod Render
pub mod Collect
use crdt_networking_applicat.Prelude.{
  ℕ, zero, suc, ◌+◌, ◌-◌, Bool, true, false, Option, none, some, List, [], ◌∷◌, ◌++◌, ◌&&◌, ltb,
  ◌==◌, min, max, if◌then◌else◌, length, ite,
}
use crdt_networking_applicat.Prelude.Maps.{lookup, contains, same_key}
use crdt_networking_applicat.Ids.{ElementId, id_key, root_id}
use crdt_networking_applicat.Operation.{Character}
use crdt_networking_applicat.Outcome.{
  Result, ok, err, ◌>>=◌, out_of_fuel, out_of_range, element_not_found,
}
use crdt_networking_applicat.Document.{Document, list_at}

-- elements.at(id)
unfoldable pub element_at : Document → ElementId → Result Character
element_at d x = elim (lookup x d.elements) [ none ↦ err out_of_range | some c ↦ ok c ]

-- Document::get_character
unfoldable pub get_character : Document → ElementId → Result ℕ
get_character d x = do c ← element_at d x; ok c.actual_char

module _ {ℓ} {A : Type ℓ} where
  -- the children of a node, one after the other
  unfoldable pub visit_each : (ElementId → A → Result A) → List ElementId → A → Result A
  visit_each f [] a = ok a
  visit_each f (x ∷ xs) a = f x a >>= visit_each f xs

  -- The node itself; the root is never visited, nor is a tombstone.
  unfoldable pub visit_node : Document → (ElementId → A → Result A) → ElementId → A → Result A
  visit_node d visitor node a =
      ite (same_key node root_id) (ok a)
        (do c ← element_at d node; if c.deleted then ok a else visitor node a)

  -- The fuel bounds the depth of the tree.
  unfoldable pub visit_visible :
      ℕ → Document → (ElementId → A → Result A) → ElementId → A → Result A
  visit_visible zero d visitor node a = err out_of_fuel
  visit_visible (suc fuel) d visitor node a =
      visit_node d visitor node a
      >>= visit_each (visit_visible fuel d visitor) (list_at (lookup node d.children))

  -- visit_visible(ROOT_ID, visitor): the tree is no deeper than it has elements.
  unfoldable pub visit_document : Document → (ElementId → A → Result A) → A → Result A
  visit_document d visitor = visit_visible (length d.elements) d visitor root_id

-- Document::render
unfoldable pub render : Document → Result (List ℕ)
render d = visit_document d (λ id output. do c ← get_character d id; ok (output ++ c ∷ [])) []

abbrev pub newline : ℕ
newline = 10

-- where the walk stands in the text
pub record Place : Type 0 where
  pub line : ℕ
  pub column : ℕ

abbrev pub start : Place
start = record { line = 0; column = 0 }

-- The place behind a character.
unfoldable pub past : ℕ → Place → Place
past c p =
    if c == newline
    then record { line = p.line + 1; column = 0 }
    else record { line = p.line; column = p.column + 1 }

-- line == target_line && column == target_column
abbrev pub at_place : Place → Place → Bool
at_place p q = p.line == q.line && p.column == q.column

unfoldable pub line_column_step :
    Document → ElementId → ElementId → Place × Option Place → Result (Place × Option Place)
line_column_step d target id (p, some r) = ok (p, some r)
line_column_step d target id (p, none) =
    ite (same_key id target) (ok (p, some p)) (do c ← get_character d id; ok (past c p, none))

-- Document::get_line_column
unfoldable pub get_line_column : Document → ElementId → Result Place
get_line_column d target = do
  (p, result) ← visit_document d (line_column_step d target) (start, none)
  elim result [ none ↦ err element_not_found | some r ↦ ok r ]
