-- ===== src/Client/Writing/Flight.antt =====
-- The writes in flight of one connection of crdt_editor/network/network_client.cpp.
use crdt_networking_applicat.Prelude.{
  ℕ, zero, suc, ◌<◌, ◌≤◌, ◌≡◌, ◌≢◌, ◌⊎◌, inl, inr, refl, sym, ap, ◌∙◌, true, false, ◌==◌, some,
  List, [], ◌∷◌, ◌++◌, In, if◌then◌else◌, arith, Bool-cases, Option-cases,
}
use crdt_networking_applicat.Text.{Bytes}
use crdt_networking_applicat.Client.Writing.{pick}

-- The frames in flight of connection `g`.
unfoldable pub current : ℕ → List (ℕ × Bytes) → List Bytes
current g [] = []
current g ((h, f) ∷ xs) = let rest = current g xs in if h == g then f ∷ rest else rest

pub current-append :
    (g : ℕ) (xs ys : List (ℕ × Bytes)) → current g (xs ++ ys) ≡ current g xs ++ current g ys
unfolding current
current-append g [] ys = refl
current-append g ((h, e) ∷ xs) ys = elim (Bool-cases (h == g)) [
  | inl s ↦ rw s (ap (λ l. e ∷ l) (current-append g xs ys))
  | inr s ↦ rw s (current-append g xs ys)
]

-- nothing in flight has a number that is not used yet
pub current-new :
    (g k : ℕ) (xs : List (ℕ × Bytes))
    → ((h : ℕ) (f : Bytes) → In (h, f) xs → h ≤ g)
    → g < k
    → current k xs ≡ []
unfolding current
current-new g k [] b s = refl
current-new g k ((h, f) ∷ xs) b s =
    let small = b h f (inl refl) in
    let other : (h == k) ≡ false = ground (arith, small, s) in
    rw other (current-new g k xs (λ i e m. b i e (inr m)) s)

-- What pick takes out, and what it leaves.
pub pick-split :
    (n : ℕ) (xs ys : List (ℕ × Bytes)) (x : ℕ × Bytes)
    → pick n xs ≡ some (x, ys)
    → (a b : List (ℕ × Bytes)) × (xs ≡ a ++ x ∷ b) × (ys ≡ a ++ b)
unfolding pick
pick-split n [] ys x e = absurd (cc e)
pick-split zero (y ∷ xs) ys x e = ([], xs, cc e, cc e)
pick-split (suc n) (y ∷ xs) ys x e = elim (Option-cases (pick n xs)) [
  | inl f ↦ absurd (cc (rw f at e))
  | inr ((z, zs), f) ↦
      let (a, b, p, q) = pick-split n xs zs z f in
      let e' = rw f at e in (y ∷ a, b, cc (e', p), cc (e', q))
]

pub In-drop : (y x : ℕ × Bytes) (a b : List (ℕ × Bytes)) → In y (a ++ b) → In y (a ++ x ∷ b)
In-drop y x [] b m = inr m
In-drop y x (z ∷ a) b (inl e) = inl e
In-drop y x (z ∷ a) b (inr m) = inr (In-drop y x a b m)

pub In-end : (y x : ℕ × Bytes) (a : List (ℕ × Bytes)) → In y (a ++ x ∷ []) → In y a ⊎ (y ≡ x)
In-end y x [] (inl e) = inr e
In-end y x [] (inr m) = absurd m
In-end y x (z ∷ a) (inl e) = inl (inl e)
In-end y x (z ∷ a) (inr m) = elim (In-end y x a m) [ inl k ↦ inl (inr k) | inr e ↦ inr e ]

pub In-here : (x : ℕ × Bytes) (a b : List (ℕ × Bytes)) → In x (a ++ x ∷ b)
In-here x [] b = inl refl
In-here x (z ∷ a) b = inr (In-here x a b)

-- one more write of this connection
pub current-launched :
    (g : ℕ) (xs : List (ℕ × Bytes)) (f : Bytes)
    → current g xs ≡ []
    → current g (xs ++ (g, f) ∷ []) ≡ f ∷ []
unfolding current
current-launched g xs f e =
    let same : (g == g) ≡ true = ground arith in
    current-append g xs ((g, f) ∷ []) ∙ rw (e, same) refl

-- the handler of another connection
pub current-other :
    (g h : ℕ) (f : Bytes) (a b : List (ℕ × Bytes))
    → (h == g) ≡ false
    → current g (a ++ b) ≡ current g (a ++ (h, f) ∷ b)
unfolding current
current-other g h f a b o = rw (current-append g a b, current-append g a ((h, f) ∷ b), o) refl

no_member : (a b : List Bytes) (f : Bytes) → a ++ f ∷ b ≢ []
no_member [] b f e = cc e
no_member (x ∷ a) b f e = cc e

only_member : (a b : List Bytes) (f g : Bytes) → a ++ f ∷ b ≡ g ∷ [] → a ++ b ≡ []
only_member [] b f g e = cc e
only_member (x ∷ a) b f g e = let rest : a ++ f ∷ b ≡ [] = cc e in absurd (no_member a b f rest)

current-mine :
    (g h : ℕ) (f : Bytes) (a b : List (ℕ × Bytes))
    → (h == g) ≡ true
    → current g (a ++ (h, f) ∷ b) ≡ current g a ++ f ∷ current g b
unfolding current
current-mine g h f a b s =
    current-append g a ((h, f) ∷ b)
    ∙ ap (λ t. current g a ++ (if t then f ∷ current g b else current g b)) s

-- The handler of the one write of this connection: then there is none.
pub current-only :
    (g h : ℕ) (f e : Bytes) (a b : List (ℕ × Bytes))
    → (h == g) ≡ true
    → current g (a ++ (h, f) ∷ b) ≡ e ∷ []
    → current g (a ++ b) ≡ []
current-only g h f e a b s q =
    current-append g a b
    ∙ only_member (current g a) (current g b) f e (sym (current-mine g h f a b s) ∙ q)

pub current-some :
    (g h : ℕ) (f : Bytes) (a b : List (ℕ × Bytes))
    → (h == g) ≡ true
    → current g (a ++ (h, f) ∷ b) ≢ []
current-some g h f a b s q =
    no_member (current g a) (current g b) f (sym (current-mine g h f a b s) ∙ q)
