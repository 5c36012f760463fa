-- ===== src/Document/Typing/Tree.antt =====
-- The newest insertion goes to the place directly behind its parent in the order of the walk.
use crdt_networking_applicat.Prelude.{
  ℕ, zero, suc, ◌+◌, ◌≤◌, ◌≡◌, ◌≢◌, refl, sym, ap, ap₂, subst, ◌∙◌, inl, inr, List, [], ◌∷◌, ◌++◌,
  In, length, arith, if_pos, if_neg, ite, true,
}
use crdt_networking_applicat.Prelude.Maps.{same_key, lookup_of_contains}
use crdt_networking_applicat.Ids.{ElementId, id_key, root_id, gt_ids}
use crdt_networking_applicat.Operation.{InsertOperation}
use crdt_networking_applicat.Document.{Document}
use crdt_networking_applicat.Document.Siblings.{Above, IsDescending-unique, Distinct}
use crdt_networking_applicat.Document.Invariant.{Add, Has}
use crdt_networking_applicat.Document.History.{Holds}
use crdt_networking_applicat.Document.Visit.Fold.{flat, child_ranks}
use crdt_networking_applicat.Document.Visit.Everyone.{everyone_from, everyone, everyone_from-fuel}
use crdt_networking_applicat.Document.Visit.Once.{everyone-Distinct}
use crdt_networking_applicat.Document.Walk.Neighbours.{root-Has, split-Distinct}
use crdt_networking_applicat.Document.Typing.{kids_of, IsNewest, not_here, kids_members}

-- `x` behind each `p` of the list
unfoldable pub behind : ElementId → ElementId → List ElementId → List ElementId
behind p x [] = []
behind p x (y ∷ ys) = let rest = behind p x ys in ite (same_key y p) (y ∷ x ∷ rest) (y ∷ rest)

behind-append :
    (p x : ElementId) (ys zs : List ElementId)
    → behind p x (ys ++ zs) ≡ behind p x ys ++ behind p x zs
unfolding behind
behind-append p x [] zs = refl
behind-append p x (y ∷ ys) zs = elim (same_key y p) [
  | yes q ↦
      rw (if_pos (same_key y p) q, if_pos (same_key y p) q)
        (ap (λ l. y ∷ x ∷ l) (behind-append p x ys zs))
  | no q ↦
      rw (if_neg (same_key y p) q, if_neg (same_key y p) q)
        (ap (λ l. y ∷ l) (behind-append p x ys zs))
]

flat-behind :
    (p x : ElementId) (f g : ElementId → List ElementId) (ys : List ElementId)
    → ((y : ElementId) → In y ys → g y ≡ behind p x (f y))
    → flat g ys ≡ behind p x (flat f ys)
unfolding flat behind
flat-behind p x f g [] h = refl
flat-behind p x f g (y ∷ ys) h =
    ap₂ (λ l m. l ++ m) (h y (inl refl)) (flat-behind p x f g ys (λ z m. h z (inr m)))
    ∙ sym (behind-append p x (f y) (flat f ys))

behind_none : (p x : ElementId) (ys : List ElementId) → ¬ In p ys → behind p x ys ≡ ys
unfolding behind
behind_none p x [] h = refl
behind_none p x (y ∷ ys) h =
    if_neg (same_key y p) (λ e. h (inl (sym e))) _ _
    ∙ ap (λ l. y ∷ l) (behind_none p x ys (λ m. h (inr m)))

pub behind_once :
    (p x : ElementId) (us ws : List ElementId)
    → Distinct (us ++ p ∷ ws)
    → behind p x (us ++ p ∷ ws) ≡ us ++ p ∷ x ∷ ws
unfolding behind
behind_once p x us ws u =
    let (a, b, _) = split-Distinct p us ws u in
    behind-append p x us (p ∷ ws)
    ∙ ap₂ (λ l m. l ++ m) (behind_none p x us a)
        (if_pos (same_key p p) refl _ _ ∙ ap (λ l. p ∷ x ∷ l) (behind_none p x ws b))

nobody : (xs : List ElementId) → ((z : ElementId) → ¬ In z xs) → xs ≡ []
nobody [] h = refl
nobody (x ∷ xs) h = absurd (h x (inl refl))

module _ {T : InsertOperation → Type 0} {R : ElementId → Type 0} {d d' : Document}
    {o : InsertOperation} (v : Holds T R d) (v' : Holds (Add o T) R d') (n : IsNewest T R o)
    (there : Has d o.parent) where
  kids_other : (y : ElementId) → y ≢ o.parent → kids_of d' y ≡ kids_of d y
  kids_other y q =
      IsDescending-unique (kids_of d' y) (kids_of d y) (v'.descending y) (v.descending y) λ z. (
        λ m. elim ((kids_members v v' n there y z).0 m) [ inl k ↦ k | inr k ↦ absurd (q k.1) ],
        λ m. (kids_members v v' n there y z).1 (inl m),
      )

  newest_first :
      (xs : List ElementId)
      → ((z : ElementId) → In z xs → gt_ids o.ident z ≡ true)
      → Above o.ident xs
  newest_first [] h = tt
  newest_first (x ∷ xs) h = h x (inl refl)

  older : (z : ElementId) → In z (kids_of d o.parent) → gt_ids o.ident z ≡ true
  older z m =
      let (h, _, r) = child_ranks v o.parent z m in
      let (c, e) = lookup_of_contains z d.elements h in
      let from = v.origin z c e r in
      subst (λ w. gt_ids o.ident w ≡ true) from.ident_eq (n.greatest from.oper from.received)

  kids_parent : kids_of d' o.parent ≡ o.ident ∷ kids_of d o.parent
  kids_parent =
      IsDescending-unique (kids_of d' o.parent) (o.ident ∷ kids_of d o.parent)
        (v'.descending o.parent) (newest_first (kids_of d o.parent) older, v.descending o.parent)
        λ z. (
          λ m. elim ((kids_members v v' n there o.parent z).0 m) [
            | inl k ↦ inr k
            | inr k ↦ inl k.0
          ],
          λ m.
              (kids_members v v' n there o.parent z).1
                (elim m [ inl e ↦ inr (e, refl) | inr k ↦ inl k ]),
        )

  kids_new : kids_of d' o.ident ≡ []
  kids_new = nobody (kids_of d' o.ident) λ z m. elim ((kids_members v v' n there o.ident z).0 m) [
    | inl k ↦
        let (h, _, r) = child_ranks v o.ident z k in
        let (c, e) = lookup_of_contains z d.elements h in
        let from = v.origin z c e r in
        n.no_child from.oper from.received (cc (from.parent_eq, ((v.kin o.ident z).0 k).0))
    | inr k ↦ not_here v v' n there o.parent there (sym k.1)
  ]

  walk_behind :
      (k : ℕ) (y : ElementId)
      → Has d y
      → suc (length d.elements) ≤ k + v.rank y
      → everyone_from k d' y ≡ behind o.parent o.ident (everyone_from k d y)
  unfolding everyone_from behind flat
  walk_behind zero y h b = absurd (omega (arith, v.rank_lt y h))
  walk_behind (suc zero) y h b = absurd (omega (arith, v.rank_lt y h))
  walk_behind (suc (suc k)) y h b =
      let below =
        flat-behind o.parent o.ident (everyone_from (suc k) d) (everyone_from (suc k) d')
          (kids_of d y)
          (λ z m.
            let (here, above, _) = child_ranks v y z m in
            walk_behind (suc k) z here (omega arith)) in
      elim (same_key y o.parent) [
        | no q ↦
            ap (λ l. y ∷ flat (everyone_from (suc k) d') l) (kids_other y q)
            ∙ ap (λ l. y ∷ l) below
            ∙ sym (if_neg (same_key y o.parent) q _ _)
        | yes q ↦
            ap (λ l. y ∷ flat (everyone_from (suc k) d') l)
              (ap (kids_of d') q ∙ kids_parent ∙ ap (λ z. o.ident ∷ kids_of d z) (sym q))
            ∙ ap
                (λ l.
                  y ∷ (o.ident ∷ flat (everyone_from k d') l)
                  ++ flat (everyone_from (suc k) d') (kids_of d y))
                kids_new
            ∙ ap (λ l. y ∷ o.ident ∷ l) below
            ∙ sym (if_pos (same_key y o.parent) q _ _)
      ]

  -- The new element stands behind its parent, and all else as it stood.
  pub everyone_behind :
      (us ws : List ElementId)
      → everyone d ≡ us ++ o.parent ∷ ws
      → everyone d' ≡ us ++ o.parent ∷ o.ident ∷ ws
  everyone_behind us ws e =
      let k = suc (length d.elements + length d'.elements) in
      everyone_from-fuel v' (length d'.elements) k root_id (root-Has v') (omega arith) (omega arith)
      ∙ walk_behind k root_id (root-Has v) (omega arith)
      ∙ ap (behind o.parent o.ident) (
          everyone_from-fuel v k (length d.elements) root_id (root-Has v) (omega arith)
            (omega arith)
          ∙ e)
      ∙ behind_once o.parent o.ident us ws (subst Distinct e (everyone-Distinct v))
