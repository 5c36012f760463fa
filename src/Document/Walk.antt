-- ===== src/Document/Walk.antt =====
-- crdt_editor/src/document.cpp: the neighbours of an element in the order of the tree. The fuel of
-- each loop is the number of elements: a climb and a descent go along one branch, and a search for
-- a visible neighbour meets each element once.
pub mod Total
pub mod Order
pub mod Neighbours
pub mod Visible
pub mod Anchors
use crdt_networking_applicat.Prelude.{
  ℕ, zero, suc, Option, none, some, List, [], ◌∷◌, if◌then◌else◌, ite, not, length,
}
use crdt_networking_applicat.Prelude.Maps.{lookup, contains, same_key}
use crdt_networking_applicat.Ids.{ElementId, id_key, root_id}
use crdt_networking_applicat.Outcome.{
  Result, ok, err, ◌>>=◌, out_of_fuel, out_of_range, not_in_children, not_among_siblings,
}
use crdt_networking_applicat.Document.{Document}
use crdt_networking_applicat.Document.Visit.{element_at}

-- parent_of.at(id) and children.at(id)
unfoldable pub parent_at : Document → ElementId → Result ElementId
parent_at d x = elim (lookup x d.parent_of) [ none ↦ err out_of_range | some p ↦ ok p ]

unfoldable pub children_at : Document → ElementId → Result (List ElementId)
children_at d x = elim (lookup x d.children) [ none ↦ err out_of_range | some xs ↦ ok xs ]

abbrev pub head_of : List ElementId → Option ElementId
head_of [] = none
head_of (x ∷ xs) = some x

-- The sibling behind the first occurrence of `curr`.
unfoldable pub next_sibling : ElementId → List ElementId → Option ElementId
next_sibling curr [] = none
next_sibling curr (x ∷ xs) = ite (same_key x curr) (head_of xs) (next_sibling curr xs)

-- The loop of successor: up the tree to the first ancestor with a sibling behind it.
unfoldable pub climb : ℕ → Document → ElementId → Result (Option ElementId)
climb zero d curr = err out_of_fuel
climb (suc fuel) d curr =
    let above = climb fuel d in
    ite (same_key curr root_id) (ok none) (do
      parent ← parent_at d curr
      siblings ← children_at d parent
      elim (next_sibling curr siblings) [ some next ↦ ok (some next) | none ↦ above parent ])

-- Document::successor
unfoldable pub successor : Document → ElementId → Result (Option ElementId)
successor d node = elim (lookup node d.children) [
  | none ↦ err not_in_children
  | some [] ↦ climb (suc (length d.elements)) d node
  | some (x ∷ xs) ↦ ok (some x)
]

unfoldable pub skip_deleted : ℕ → Document → Option ElementId → Result (Option ElementId)
skip_deleted zero d next = err out_of_fuel
skip_deleted (suc fuel) d none = ok none
skip_deleted (suc fuel) d (some x) =
    let rest = skip_deleted fuel d in
    do c ← element_at d x; if c.deleted then (successor d x >>= rest) else ok (some x)

-- Document::visible_successor
unfoldable pub visible_successor : Document → ElementId → Result (Option ElementId)
visible_successor d node = successor d node >>= skip_deleted (suc (length d.elements)) d

-- The sibling in front of the first occurrence of `node`: none if it is not there, some none if it
-- is the first.
unfoldable pub sibling_before :
    ElementId → Option ElementId → List ElementId → Option (Option ElementId)
sibling_before node before [] = none
sibling_before node before (x ∷ xs) =
    ite (same_key x node) (some before) (sibling_before node (some x) xs)

abbrev pub last_of : ElementId → List ElementId → ElementId
last_of x [] = x
last_of x (y ∷ ys) = last_of y ys

-- The last loop of predecessor: down the last children.
unfoldable pub descend : ℕ → Document → ElementId → Result ElementId
descend zero d previous = err out_of_fuel
descend (suc fuel) d previous =
    let below = descend fuel d in
    do kids ← children_at d previous; elim kids [ [] ↦ ok previous | x ∷ xs ↦ below (last_of x xs) ]

-- Document::predecessor
unfoldable pub predecessor : Document → ElementId → Result ElementId
predecessor d node = do
  parent ← parent_at d node
  siblings ← children_at d parent
  elim (sibling_before node none siblings) [
    | none ↦ err not_among_siblings
    | some none ↦ ok parent
    | some (some previous) ↦ descend (length d.elements) d previous
  ]

unfoldable pub skip_back : ℕ → Document → ElementId → Result ElementId
skip_back zero d last = err out_of_fuel
skip_back (suc fuel) d last =
    let rest = skip_back fuel d in
    ite (same_key last root_id) (ok last)
      (do c ← element_at d last; if c.deleted then (predecessor d last >>= rest) else ok last)

-- Document::visible_predecessor
unfoldable pub visible_predecessor : Document → ElementId → Result ElementId
visible_predecessor d node =
    ite (same_key node root_id) (ok root_id)
      (predecessor d node >>= skip_back (length d.elements) d)

-- Document::resolve_cursor_anchor
unfoldable pub resolve_cursor_anchor : Document → ElementId → Result (Option ElementId)
resolve_cursor_anchor d anchor = ite (same_key anchor root_id) (ok (some root_id)) (
    if not (contains anchor d.elements) then ok none else do
      c ← element_at d anchor
      if not c.deleted then ok (some anchor) else do
        resolved ← visible_predecessor d anchor
        ite (same_key resolved root_id) (ok (some root_id)) (
            if not (contains resolved d.elements) then ok none else do
              r ← element_at d resolved
              if r.deleted
                  then ok none
                  else do again ← visible_predecessor d anchor; ok (some again)))
