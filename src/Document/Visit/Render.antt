-- ===== src/Document/Visit/Render.antt =====
-- What render shows: the characters of the visible elements in the order of the walk. Documents
-- that agree show the same text.
use crdt_networking_applicat.Prelude.{
  ℕ, zero, suc, ◌+◌, ◌≡◌, refl, sym, ap, ap₂, fun_ext, ◌∙◌, ◌↔◌, inl, inr, none, some, List, [],
  ◌∷◌, ◌++◌, map, In, arith, length,
}
use mathlib.Core.List.{append_assoc, append-nil}
use crdt_networking_applicat.Prelude.Maps.{lookup, lookup_of_contains, contains_of_lookup}
use crdt_networking_applicat.Ids.{ElementId, id_key, root_id}
use crdt_networking_applicat.Operation.{InsertOperation, Operation, insert, remove}
use crdt_networking_applicat.Outcome.{Result, ok, ◌>>=◌, done}
use crdt_networking_applicat.Document.{Document, list_at, apply_history, new_document}
use crdt_networking_applicat.Document.Invariant.{IsGenuine, Has}
use crdt_networking_applicat.Document.Invariant.Apply.{genuine_part}
use crdt_networking_applicat.Document.History.{Inserted, Holds, apply_history-Holds}
use crdt_networking_applicat.Document.Convergence.{Agree, Agree-of_same}
use crdt_networking_applicat.Document.Visit.{get_character, render}
use crdt_networking_applicat.Document.Visit.Fold.{
  is_visible, itself, visible_from, visible, fold_each, visit_document-fold, element_at-ok,
}
use crdt_networking_applicat.Document.Visit.Members.{
  flat_congr, visible_from-fuel, mem-visible, is_visible-Has,
}

-- The character of an element that is there.
unfoldable pub char_of : Document → ElementId → ℕ
char_of d x = elim (lookup x d.elements) [ none ↦ 0 | some c ↦ c.actual_char ]

pub get_character-ok :
    (d : Document) (x : ElementId) → Has d x → get_character d x ≡ ok (char_of d x)
unfolding get_character char_of
get_character-ok d x h =
    let (c, e) = lookup_of_contains x d.elements h in rw (element_at-ok d x c e) (rw (e, char_of))

push_back : Document → ElementId → List ℕ → Result (List ℕ)
push_back d id output = get_character d id >>= λ c. ok (output ++ c ∷ [])

push_each :
    (d : Document) (xs : List ElementId) (out : List ℕ)
    → ((x : ElementId) → In x xs → Has d x)
    → fold_each (push_back d) xs out ≡ ok (out ++ map (char_of d) xs)
unfolding push_back
push_each d [] out h = ap ok (sym (append-nil out))
push_each d (x ∷ xs) out h = rw (get_character-ok d x (h x (inl refl))) (
    push_each d xs (out ++ char_of d x ∷ []) (λ y m. h y (inr m))
    ∙ ap ok (append_assoc out (char_of d x ∷ []) (map (char_of d) xs)))

module _ {T : InsertOperation → Type 0} {R : ElementId → Type 0} {d : Document}
    (v : Holds T R d) where
  -- Of a document that some history of operations leaves, render returns the characters of the
  -- visible elements in the order of the walk.
  pub render-visible : render d ≡ ok (map (char_of d) (visible d))
  unfolding render push_back
  render-visible =
      visit_document-fold v (push_back d) []
      ∙ push_each d (visible d) [] (λ x m. is_visible-Has v x ((mem-visible v x).0 m))

module _ {d d' : Document} (a : Agree d d') where
  same_visible : (x : ElementId) → is_visible d x ≡ is_visible d' x
  unfolding is_visible
  same_visible x = rw (a.elements x)

  same_walk : (k : ℕ) (x : ElementId) → visible_from k d x ≡ visible_from k d' x
  unfolding visible_from
  same_walk zero x = refl
  same_walk (suc k) x =
      rw (same_visible x, a.children x)
        (ap (λ l. itself d' x ++ l)
          (flat_congr (visible_from k d) (visible_from k d') (list_at (lookup x d'.children))
            (λ y m. same_walk k y)))

  same_characters : char_of d ≡ char_of d'
  unfolding char_of
  same_characters = fun_ext λ x. rw (a.elements x, char_of)

  module _ {T T' : InsertOperation → Type 0} {R R' : ElementId → Type 0} (v : Holds T R d)
      (v' : Holds T' R' d') where
    -- Documents that agree are walked in the same order.
    pub Agree-visible : visible d ≡ visible d'
    unfolding visible
    Agree-visible =
        let both = length d.elements + length d'.elements in
        visible_from-fuel v (length d.elements) both root_id
          (contains_of_lookup root_id d.elements v.root_element.1) (omega arith) (omega arith)
        ∙ same_walk both root_id
        ∙ visible_from-fuel v' both (length d'.elements) root_id
            (contains_of_lookup root_id d'.elements v'.root_element.1) (omega arith) (omega arith)

-- Replicas that received the same operations, in any orders and with any repetitions, show the
-- same text: render returns, with the same characters in the same order, if every id has one
-- insertion and the root has none.
pub replicas-render :
    (h h' : List Operation)
    → IsGenuine (Inserted h)
    → ((op : Operation) → In op h ↔ In op h')
    → (d d' : Document) × (text : List ℕ) × (apply_history h new_document ≡ done d)
      × (apply_history h' new_document ≡ done d')
      × (render d ≡ ok text)
      × (render d' ≡ ok text)
replicas-render h h' g same =
    let (d, e, v) = apply_history-Holds h g in
    let (d', e', v') = apply_history-Holds h' (genuine_part (λ o. (same (insert o)).1) g) in
    let a =
      Agree-of_same v v' g (λ o. same (insert o))
        (λ x. same (remove (record { the_target = x }))) in
    (
      d,
      d',
      map (char_of d) (visible d),
      e,
      e',
      render-visible v,
      render-visible v' ∙ ap ok (ap₂ map (sym (same_characters a)) (sym (Agree-visible a v v'))),
    )
