-- ===== src/Document/Siblings.antt =====
-- std::sort of the siblings, in descending order of their ids. On distinct ids every sort gives
-- the same list, so the model sorts by insertion.
use crdt_networking_applicat.Prelude.{
  ◌≡◌, refl, sym, ap₂, subst, ◌∙◌, ◌⊎◌, inl, inr, ◌↔◌, true, List, [], ◌∷◌, ◌++◌, In, arith,
  if◌then◌else◌, Bool-cases,
}
use crdt_networking_applicat.Ids.{ElementId, gt_ids}
use crdt_networking_applicat.Ids.Order.{gt_ids_irrefl, gt_ids_trans, gt_ids_total}

unfoldable pub insert_descending : ElementId → List ElementId → List ElementId
insert_descending x [] = x ∷ []
insert_descending x (y ∷ ys) =
    let rest = insert_descending x ys in if gt_ids x y then x ∷ y ∷ ys else y ∷ rest

unfoldable pub sort_descending : List ElementId → List ElementId
unfolding insert_descending
sort_descending [] = []
sort_descending (x ∷ xs) = insert_descending x (sort_descending xs)

abbrev pub Above : ElementId → List ElementId → Type 0
Above x [] = Unit
Above x (y ∷ ys) = gt_ids x y ≡ true

-- Strictly descending.
abbrev pub IsDescending : List ElementId → Type 0
IsDescending [] = Unit
IsDescending (x ∷ xs) = Above x xs × IsDescending xs

Above-all :
    (x : ElementId) (ys : List ElementId)
    → Above x ys
    → IsDescending ys
    → (z : ElementId) → In z ys
    → gt_ids x z ≡ true
Above-all x [] h s z m = elim m [ ]
Above-all x (y ∷ ys) h s z (inl e) = rw e h
Above-all x (y ∷ ys) h s z (inr m) = gt_ids_trans x y z h (Above-all y ys s.0 s.1 z m)

-- The head of a descending list is not among the rest.
IsDescending-fresh : (x : ElementId) (xs : List ElementId) → IsDescending (x ∷ xs) → ¬ In x xs
IsDescending-fresh x xs s m = cc (gt_ids_irrefl x, Above-all x xs s.0 s.1 x m)

insert_descending-Above :
    (y x : ElementId) (ys : List ElementId)
    → gt_ids y x ≡ true
    → Above y ys
    → Above y (insert_descending x ys)
unfolding insert_descending
insert_descending-Above y x [] h a = h
insert_descending-Above y x (z ∷ zs) h a = ground arith

insert_descending-IsDescending :
    (x : ElementId) (ys : List ElementId)
    → ¬ In x ys
    → IsDescending ys
    → IsDescending (insert_descending x ys)
unfolding insert_descending
insert_descending-IsDescending x [] n s = (tt, tt)
insert_descending-IsDescending x (y ∷ ys) n s = elim (Bool-cases (gt_ids x y)) [
  | inl above ↦ rw above (above, s)
  | inr below ↦ rw below (
    insert_descending-Above y x ys (gt_ids_total x y (λ e. n (inl e)) below) s.0,
    insert_descending-IsDescending x ys (λ m. n (inr m)) s.1,
  )
]

mem-insert_descending :
    (z x : ElementId) (ys : List ElementId) → In z (insert_descending x ys) ↔ ((z ≡ x) ⊎ In z ys)
unfolding insert_descending
mem-insert_descending z x [] = (λ m. m, λ m. m)
mem-insert_descending z x (y ∷ ys) =
    let ih = mem-insert_descending z x ys in
    elim (Bool-cases (gt_ids x y)) [
      | inl above ↦ rw above (λ m. m, λ m. m)
      | inr below ↦ rw below (ground (arith, ih), ground (arith, ih))
    ]

pub mem-sort_descending :
    (z : ElementId) (xs : List ElementId) → In z (sort_descending xs) ↔ In z xs
unfolding sort_descending
mem-sort_descending z [] = (λ m. m, λ m. m)
mem-sort_descending z (x ∷ xs) =
    let ih = mem-sort_descending z xs in
    let step = mem-insert_descending z x (sort_descending xs) in
    (ground (arith, ih, step), ground (arith, ih, step))

abbrev pub Distinct : List ElementId → Type 0
Distinct [] = Unit
Distinct (x ∷ xs) = (¬ In x xs) × Distinct xs

-- Siblings with distinct ids come out strictly descending.
pub sort_descending-IsDescending :
    (xs : List ElementId) → Distinct xs → IsDescending (sort_descending xs)
unfolding sort_descending
sort_descending-IsDescending [] d = tt
sort_descending-IsDescending (x ∷ xs) d =
    insert_descending-IsDescending x (sort_descending xs)
      (λ m. d.0 ((mem-sort_descending x xs).0 m)) (sort_descending-IsDescending xs d.1)

pub IsDescending-Distinct : (xs : List ElementId) → IsDescending xs → Distinct xs
IsDescending-Distinct [] s = tt
IsDescending-Distinct (x ∷ xs) s = (IsDescending-fresh x xs s, IsDescending-Distinct xs s.1)

pub mem-append_singleton :
    {A : Type 0} (z x : A) (xs : List A) → In z (xs ++ x ∷ []) ↔ (In z xs ⊎ (z ≡ x))
mem-append_singleton z x [] = (ground arith, ground arith)
mem-append_singleton z x (y ∷ ys) =
    let ih = mem-append_singleton z x ys in (ground (arith, ih), ground (arith, ih))

pub Distinct-append_singleton :
    (xs : List ElementId) (x : ElementId) → Distinct xs → ¬ In x xs → Distinct (xs ++ x ∷ [])
Distinct-append_singleton [] x d n = ((λ m. m), tt)
Distinct-append_singleton (y ∷ ys) x d n = (
  (λ m. elim ((mem-append_singleton y x ys).0 m) [ inl old ↦ d.0 old | inr e ↦ n (inl (sym e)) ]),
  Distinct-append_singleton ys x d.1 (λ m. n (inr m)),
)

same_head :
    (x y : ElementId) (xs ys : List ElementId)
    → IsDescending (x ∷ xs)
    → IsDescending (y ∷ ys)
    → In x (y ∷ ys)
    → In y (x ∷ xs)
    → x ≡ y
same_head x y xs ys s t (inl e) n = e
same_head x y xs ys s t (inr m) (inl e) = sym e
same_head x y xs ys s t (inr m) (inr n) =
    cc (
      gt_ids_irrefl x,
      gt_ids_trans x y x (Above-all x xs s.0 s.1 y n) (Above-all y ys t.0 t.1 x m),
    )

-- Past equal heads, the members of one tail are members of the other.
In-tail :
    (x y z : ElementId) (xs ys : List ElementId)
    → IsDescending (x ∷ xs)
    → x ≡ y
    → (In z (x ∷ xs) → In z (y ∷ ys))
    → In z xs
    → In z ys
In-tail x y z xs ys s e h m = elim (h (inr m)) [
  | inl here ↦ absurd (IsDescending-fresh x xs s (subst (λ w. In w xs) (here ∙ sym e) m))
  | inr rest ↦ rest
]

-- A descending list is determined by its members.
pub IsDescending-unique :
    (xs ys : List ElementId)
    → IsDescending xs
    → IsDescending ys
    → ((z : ElementId) → In z xs ↔ In z ys)
    → xs ≡ ys
IsDescending-unique [] [] s t same = refl
IsDescending-unique [] (y ∷ ys) s t same = absurd ((same y).1 (inl refl))
IsDescending-unique (x ∷ xs) [] s t same = absurd ((same x).0 (inl refl))
IsDescending-unique (x ∷ xs) (y ∷ ys) s t same =
    let e = same_head x y xs ys s t ((same x).0 (inl refl)) ((same y).1 (inl refl)) in
    ap₂ ◌∷◌ e (
      IsDescending-unique xs ys s.1 t.1
        (λ z. (In-tail x y z xs ys s e (same z).0, In-tail y x z ys xs t (sym e) (same z).1)))
