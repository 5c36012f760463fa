-- ===== src/Document/Invariant/Place.antt =====
-- The branch of applyInsert that places an element: the element, and what stands beside it.
use crdt_networking_applicat.Prelude.{
  ℕ, ◌<◌, ◌≡◌, refl, sym, ap, subst, ◌∙◌, ◌≢◌, ◌↔◌, ◌⊎◌, inl, inr, Bool, true, false, some, List,
  In, arith, ite, if_pos, if_neg, length,
}
use crdt_networking_applicat.Prelude.Maps.{
  Map, lookup, contains, lookup-emplace_self, lookup-emplace_ne, contains-emplace_self,
  contains-emplace_ne, contains-erase_self, contains-erase_ne, length-emplace, same_key,
}
use crdt_networking_applicat.Ids.{ElementId, id_key, root_id}
use crdt_networking_applicat.Operation.{Character, InsertOperation}
use crdt_networking_applicat.Document.{Document, place}
use crdt_networking_applicat.Document.Invariant.{Has, Lacks, Origin, Inv, waiting_for}

-- What counts as received, and which ids as in flight, once `o` is placed.
abbrev pub Rest : InsertOperation → (InsertOperation → Type 0) → InsertOperation → Type 0
Rest o T o' = (o' ≡ o) ⊎ (T o' × (o'.parent ≢ o.ident))

abbrev pub Loose : InsertOperation → Document → (ElementId → Type 0) → ElementId → Type 0
Loose o d P x =
    (P x × (x ≢ o.ident)) ⊎ ((w : InsertOperation) × In w (waiting_for d o.ident) × (w.ident ≡ x))

abbrev pub settled : InsertOperation → Document → Map ElementId (List InsertOperation) → Document
settled o d bs = record (place o d) { buffered_inserts = bs }

-- The element and what stands beside it.
module _ {T : InsertOperation → Type 0} {R P : ElementId → Type 0} {d : Document} (v : Inv T R P d)
    (o : InsertOperation) (fresh : Lacks d o.ident) (there : Has d o.parent) where
  pub not_parent : o.ident ≢ o.parent
  not_parent e = cc (fresh, subst (Has d) (sym e) there)

  pub not_there : (x : ElementId) → Has d x → o.ident ≢ x
  not_there x h e = cc (fresh, subst (Has d) (sym e) h)

  pub no_parent : contains o.ident d.parent_of ≡ false
  no_parent = v.parent_keys o.ident ∙ fresh

  pub no_children : contains o.ident d.children ≡ false
  no_children = v.children_keys o.ident ∙ fresh

  pub keeps_elements : (x : ElementId) → Has d x → Has (place o d) x
  unfolding place
  keeps_elements x h = contains-emplace_ne o.ident x _ d.elements (not_there x h) ∙ h

  pub Has-placed : Has (place o d) o.ident
  unfolding place
  Has-placed = contains-emplace_self o.ident _ d.elements

  pub had_element : (x : ElementId) → o.ident ≢ x → Has (place o d) x → Has d x
  unfolding place
  had_element x n h = sym (contains-emplace_ne o.ident x _ d.elements n) ∙ h

  pub lacked_element : (x : ElementId) → Lacks (place o d) x → Lacks d x × (o.ident ≢ x)
  unfolding place
  lacked_element x h = elim (same_key o.ident x) [
    | yes p ↦ cc (h, subst (Has (place o d)) p Has-placed)
    | no n ↦ (sym (contains-emplace_ne o.ident x _ d.elements n) ∙ h, n)
  ]

  pub still-Lacks : (x : ElementId) → o.ident ≢ x → Lacks d x → Lacks (place o d) x
  unfolding place
  still-Lacks x n h = contains-emplace_ne o.ident x _ d.elements n ∙ h

  abbrev pub new_rank : ElementId → ℕ
  new_rank x = ite (same_key o.ident x) (length d.elements) (v.rank x)

  pub new_rank_lt : (x : ElementId) → Has (place o d) x → new_rank x < length (place o d).elements
  unfolding place
  new_rank_lt x h =
      let size =
        length-emplace o.ident
          (record { actual_char = o.ch; deleted = contains o.ident d.buffered_deletes }) d.elements
          fresh in
      elim (same_key o.ident x) [
        | yes p ↦ rw (if_pos _ p) (omega (arith, size))
        | no n ↦ rw (if_neg _ n) (omega (arith, size, v.rank_lt x (had_element x n h)))
      ]

  abbrev pub new_character : Character
  new_character = record { actual_char = o.ch; deleted = contains o.ident d.buffered_deletes }

  pub is_new :
      (x : ElementId) (c : Character)
      → o.ident ≡ x
      → lookup x (place o d).elements ≡ some c
      → c ≡ new_character
  unfolding place
  is_new x c p h =
      let e = lookup-emplace_self o.ident new_character d.elements fresh in
      cc (subst (λ y. lookup y (place o d).elements ≡ some new_character) p e)

  pub rank_old : (x : ElementId) → o.ident ≢ x → new_rank x ≡ v.rank x
  rank_old x n = if_neg (same_key o.ident x) n _ _

  pub rank_new : (x : ElementId) → o.ident ≡ x → new_rank x ≡ length d.elements
  rank_new x p = if_pos (same_key o.ident x) p _ _

  pub old-Origin :
      (x : ElementId) (c : Character)
      → o.ident ≢ x
      → Origin T v.rank d.elements d.parent_of x c
      → Origin (Rest o T) new_rank (place o d).elements (place o d).parent_of x c
  unfolding place
  old-Origin x c n r =
      let other = not_there r.oper.parent r.parent_there in
      record {
        oper = r.oper;
        received = inr (r.received, λ e. other (sym e));
        ident_eq = r.ident_eq;
        char_eq = r.char_eq;
        parent_eq = lookup-emplace_ne o.ident x o.parent d.parent_of n ∙ r.parent_eq;
        parent_there = keeps_elements r.oper.parent r.parent_there;
        after_parent = rw (rank_old x n, rank_old r.oper.parent other) r.after_parent;
      }

  pub new-Origin :
      (x : ElementId) (c : Character)
      → lookup x (place o d).elements ≡ some c
      → x ≢ root_id
      → Origin (Rest o T) new_rank (place o d).elements (place o d).parent_of x c
  unfolding place
  new-Origin x c h nr = elim (same_key o.ident x) [
    | yes p ↦ record {
      oper = o;
      received = inl refl;
      ident_eq = p;
      char_eq = ap (λ w. w.actual_char) (is_new x c p h);
      parent_eq =
          subst (λ y. lookup y (place o d).parent_of ≡ some o.parent) p
            (lookup-emplace_self o.ident o.parent d.parent_of no_parent);
      parent_there = keeps_elements o.parent there;
      after_parent = rw (rank_new x p, rank_old o.parent not_parent) (v.rank_lt o.parent there);
    }
    | no n ↦
        old-Origin x c n
          (v.origin x c (sym (lookup-emplace_ne o.ident x new_character d.elements n) ∙ h) nr)
  ]

  pub new_removed :
      (x : ElementId) (c : Character)
      → lookup x (place o d).elements ≡ some c
      → (c.deleted ≡ true) ↔ R x
  unfolding place
  new_removed x c h = elim (same_key o.ident x) [
    | yes p ↦
        let later = v.removed_later o.ident in
        rw (is_new x c p h, ← p) (λ e. (later.0 e).0, λ r. later.1 (r, fresh))
    | no n ↦ v.removed x c (sym (lookup-emplace_ne o.ident x _ d.elements n) ∙ h)
  ]

  pub new_removed_later :
      (x : ElementId)
      → (contains x (place o d).buffered_deletes ≡ true) ↔ (R x × Lacks (place o d) x)
  unfolding place
  new_removed_later x = elim (same_key o.ident x) [
    | yes p ↦ rw (← p) (
      λ e. cc (e, contains-erase_self o.ident d.buffered_deletes),
      λ r. cc (r.1, contains-emplace_self o.ident new_character d.elements),
    )
    | no n ↦
        rw
          (
            contains-erase_ne o.ident x d.buffered_deletes n,
            contains-emplace_ne o.ident x _ d.elements n,
          )
          (v.removed_later x)
  ]

  pub new_root_element :
      o.ident ≢ root_id
      → (b : Bool) × (lookup root_id (place o d).elements
          ≡ some (record { actual_char = 0; deleted = b }))
  unfolding place
  new_root_element n =
      let (b, e) = v.root_element in
      (b, lookup-emplace_ne o.ident root_id new_character d.elements n ∙ e)

  pub new_root_parent : o.ident ≢ root_id → lookup root_id (place o d).parent_of ≡ some root_id
  unfolding place
  new_root_parent n = lookup-emplace_ne o.ident root_id o.parent d.parent_of n ∙ v.root_parent

  pub new_placed :
      (o' : InsertOperation) → Rest o T o' → Has (place o d) o'.parent → Has (place o d) o'.ident
  new_placed o' (inl e) h = subst (λ u. Has (place o d) u.ident) (sym e) Has-placed
  new_placed o' (inr t) h =
      keeps_elements o'.ident (v.placed o' t.0 (had_element o'.parent (λ e. t.1 (sym e)) h))
