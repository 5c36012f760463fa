-- ===== src/Prelude/Maps.antt =====
-- std::unordered_map and std::unordered_set as association lists behind their laws. No key
-- stands twice in a list that these operations build.
use Prim.Native.Nat.{suc}
use mathlib.Core.Path.{◌≡◌, refl, ap, subst, ◌∙◌}
use mathlib.Core.Logic.{ite, if_pos, if_neg, inl, inr, ◌≢◌}
use mathlib.Core.Bool.{Bool, true, false}
use mathlib.Core.Option.{Option, none, some}
use mathlib.Core.List.{List, [], ◌∷◌}
use native.Mathlib.Omega.{arith}
use crdt_networking_applicat.Prelude.Lists.{length, In}
use crdt_networking_applicat.Prelude.Tests.{Bool-cases, if◌then◌else◌}

-- What a key type offers: decidable equality.
pub record Key {ℓ} (K : Type ℓ) : Type ℓ where
  pub key_eq : Discrete K

abbrev pub same_key {ℓ} : {K : Type ℓ} ⦃e : Key K⦄ → (k j : K) → Dec (k ≡ j)
same_key ⦃e⦄ = e.key_eq

abbrev pub Map {ℓ} : Type ℓ → Type ℓ → Type ℓ
Map K V = List (K × V)

abbrev pub Set {ℓ} : Type ℓ → Type ℓ
Set K = Map K Unit

abbrev pub is_some {ℓ} : {A : Type ℓ} → Option A → Bool
is_some none = false
is_some (some a) = true

is_some-ite {ℓ κ} :
    {A : Type ℓ} {P : Type κ} (d : Dec P) (a b : Option A)
    → is_some (ite d a b) ≡ ite d (is_some a) (is_some b)
is_some-ite (yes p) a b = refl
is_some-ite (no n) a b = refl

module _ {ℓ} {K V : Type ℓ} ⦃e : Key K⦄ where
  unfoldable pub lookup : K → Map K V → Option V
  lookup k [] = none
  lookup k ((j, v) ∷ m) = ite (same_key j k) (some v) (lookup k m)

  -- m.contains(k)
  unfoldable pub contains : K → Map K V → Bool
  contains k m = is_some (lookup k m)

  -- m.erase(k)
  unfoldable pub erase : K → Map K V → Map K V
  erase k [] = []
  erase k ((j, v) ∷ m) = let rest = erase k m in ite (same_key j k) rest ((j, v) ∷ rest)

  -- m.insert_or_assign(k, v), m[k] = v
  unfoldable pub assign : K → V → Map K V → Map K V
  assign k v m = (k, v) ∷ erase k m

  -- m.emplace(k, v), m.try_emplace(k, v), s.insert(k): a key that is there keeps its value.
  unfoldable pub emplace : K → V → Map K V → Map K V
  unfolding contains
  emplace k v m = if contains k m then m else (k, v) ∷ m

  -- a change of the value of a key that is there
  unfoldable pub modify : K → (V → V) → Map K V → Map K V
  modify k f [] = []
  modify k f ((j, v) ∷ m) = ite (same_key j k) ((j, f v) ∷ m) ((j, v) ∷ modify k f m)

  pub lookup-erase :
      (k j : K) (m : Map K V) → lookup j (erase k m) ≡ ite (same_key k j) none (lookup j m)
  unfolding lookup erase
  lookup-erase k j [] = ground arith
  lookup-erase k j ((i, v) ∷ m) = ground (arith, lookup-erase k j m)

  pub lookup-assign :
      (k j : K) (v : V) (m : Map K V)
      → lookup j (assign k v m) ≡ ite (same_key k j) (some v) (lookup j m)
  unfolding lookup assign
  lookup-assign k j v m = ground (arith, lookup-erase k j m)

  pub lookup-assign_self : (k : K) (v : V) (m : Map K V) → lookup k (assign k v m) ≡ some v
  lookup-assign_self k v m = lookup-assign k k v m ∙ if_pos (same_key k k) refl _ _

  pub lookup-assign_ne :
      (k j : K) (v : V) (m : Map K V) → k ≢ j → lookup j (assign k v m) ≡ lookup j m
  lookup-assign_ne k j v m n = lookup-assign k j v m ∙ if_neg (same_key k j) n _ _

  pub lookup-erase_self : (k : K) (m : Map K V) → lookup k (erase k m) ≡ none
  lookup-erase_self k m = lookup-erase k k m ∙ if_pos (same_key k k) refl _ _

  pub lookup-erase_ne : (k j : K) (m : Map K V) → k ≢ j → lookup j (erase k m) ≡ lookup j m
  lookup-erase_ne k j m n = lookup-erase k j m ∙ if_neg (same_key k j) n _ _

  pub lookup-emplace :
      (k j : K) (v : V) (m : Map K V)
      → lookup k m ≡ none
      → lookup j (emplace k v m) ≡ ite (same_key k j) (some v) (lookup j m)
  unfolding lookup emplace
  lookup-emplace k j v m h = ground arith

  pub lookup-modify :
      (k j : K) (f : V → V) (m : Map K V)
      → lookup j (modify k f m)
        ≡ ite (same_key k j) (elim (lookup j m) [ none ↦ none | some v ↦ some (f v) ]) (lookup j m)
  unfolding lookup modify
  lookup-modify k j f [] = ground arith
  lookup-modify k j f ((i, v) ∷ m) = ground (arith, lookup-modify k j f m)

  pub lookup-modify_ne :
      (k j : K) (f : V → V) (m : Map K V) → k ≢ j → lookup j (modify k f m) ≡ lookup j m
  lookup-modify_ne k j f m n = lookup-modify k j f m ∙ if_neg (same_key k j) n _ _

  pub lookup-modify-some :
      (k : K) (f : V → V) (m : Map K V) (v : V)
      → lookup k m ≡ some v
      → lookup k (modify k f m) ≡ some (f v)
  lookup-modify-some k f m v h =
      lookup-modify k k f m
      ∙ if_pos (same_key k k) refl _ _
      ∙ ap (λ o. elim o [ none ↦ none | some w ↦ some (f w) ]) h

  pub lookup_of_contains :
      (k : K) (m : Map K V) → contains k m ≡ true → (v : V) × (lookup k m ≡ some v)
  unfolding contains
  lookup_of_contains k m h = ground arith

  pub contains_of_lookup : (k : K) (m : Map K V) {v : V} → lookup k m ≡ some v → contains k m ≡ true
  unfolding contains
  contains_of_lookup k m h = ground arith

  pub none_of_contains : (k : K) (m : Map K V) → contains k m ≡ false → lookup k m ≡ none
  unfolding contains
  none_of_contains k m h = ground arith

  pub contains_of_none : (k : K) (m : Map K V) → lookup k m ≡ none → contains k m ≡ false
  unfolding contains
  contains_of_none k m h = ground arith

  pub contains-erase :
      (k j : K) (m : Map K V) → contains j (erase k m) ≡ ite (same_key k j) false (contains j m)
  unfolding contains
  contains-erase k j m =
      ap is_some (lookup-erase k j m) ∙ is_some-ite (same_key k j) none (lookup j m)

  pub contains-assign :
      (k j : K) (v : V) (m : Map K V)
      → contains j (assign k v m) ≡ ite (same_key k j) true (contains j m)
  unfolding contains
  contains-assign k j v m =
      ap is_some (lookup-assign k j v m) ∙ is_some-ite (same_key k j) (some v) (lookup j m)

  pub contains-modify :
      (k j : K) (f : V → V) (m : Map K V) → contains j (modify k f m) ≡ contains j m
  unfolding contains
  contains-modify k j f m = ground (arith, lookup-modify k j f m)

  pub contains-emplace :
      (k j : K) (v : V) (m : Map K V)
      → contains j (emplace k v m) ≡ ite (same_key k j) true (contains j m)
  unfolding contains emplace
  contains-emplace k j v m = elim (Bool-cases (contains k m)) [
    | inl old ↦ elim (same_key k j) [
      | yes p ↦ rw (old, if_pos _ p) (subst (λ i. is_some (lookup i m) ≡ true) p old)
      | no n ↦ rw (old, if_neg _ n)
    ]
    | inr new ↦ rw new (unfold lookup in is_some-ite (same_key k j) (some v) (lookup j m))
  ]

  pub contains-emplace_self : (k : K) (v : V) (m : Map K V) → contains k (emplace k v m) ≡ true
  contains-emplace_self k v m = contains-emplace k k v m ∙ if_pos (same_key k k) refl _ _

  pub contains-emplace_ne :
      (k j : K) (v : V) (m : Map K V) → k ≢ j → contains j (emplace k v m) ≡ contains j m
  contains-emplace_ne k j v m n = contains-emplace k j v m ∙ if_neg (same_key k j) n _ _

  pub contains-erase_self : (k : K) (m : Map K V) → contains k (erase k m) ≡ false
  contains-erase_self k m = contains-erase k k m ∙ if_pos (same_key k k) refl _ _

  pub contains-erase_ne : (k j : K) (m : Map K V) → k ≢ j → contains j (erase k m) ≡ contains j m
  contains-erase_ne k j m n = contains-erase k j m ∙ if_neg (same_key k j) n _ _

  pub lookup-emplace_self :
      (k : K) (v : V) (m : Map K V) → contains k m ≡ false → lookup k (emplace k v m) ≡ some v
  lookup-emplace_self k v m h =
      lookup-emplace k k v m (none_of_contains k m h) ∙ if_pos (same_key k k) refl _ _

  pub lookup-emplace_ne :
      (k j : K) (v : V) (m : Map K V) → k ≢ j → lookup j (emplace k v m) ≡ lookup j m
  unfolding emplace
  lookup-emplace_ne k j v m n = elim (Bool-cases (contains k m)) [
    | inl old ↦ rw old
    | inr new ↦ rw new (unfold lookup in if_neg (same_key k j) n _ _)
  ]

  pub length-modify : (k : K) (f : V → V) (m : Map K V) → length (modify k f m) ≡ length m
  unfolding modify
  length-modify k f [] = omega arith
  length-modify k f ((j, v) ∷ m) = ground (arith, length-modify k f m)

  pub length-emplace :
      (k : K) (v : V) (m : Map K V) → contains k m ≡ false → length (emplace k v m) ≡ suc (length m)
  unfolding emplace contains
  length-emplace k v m h = ground arith

-- Each entry is the one that its key is looked up at: no key stands twice.
abbrev pub IsFunctional : {K V : Type 0} ⦃e : Key K⦄ → Map K V → Type 0
IsFunctional {K} {V} m = (k : K) (v : V) → In (k, v) m → lookup k m ≡ some v

module _ {K V : Type 0} ⦃e : Key K⦄ where
  pub mem-erase : (k j : K) (v : V) (m : Map K V) → In (j, v) (erase k m) → In (j, v) m × (k ≢ j)
  unfolding erase
  mem-erase k j v [] h = absurd h
  mem-erase k j v ((i, w) ∷ m) h = ground (arith, mem-erase k j v m)

  pub erase-IsFunctional : (k : K) (m : Map K V) → IsFunctional m → IsFunctional (erase k m)
  erase-IsFunctional k m f j v h =
      let (old, other) = mem-erase k j v m h in ground (arith, lookup-erase k j m, f j v old)

  pub assign-IsFunctional :
      (k : K) (v : V) (m : Map K V) → IsFunctional m → IsFunctional (assign k v m)
  unfolding assign lookup
  assign-IsFunctional k v m f j w (inl e) = ground arith
  assign-IsFunctional k v m f j w (inr h) =
      let (old, other) = mem-erase k j w m h in ground (arith, lookup-erase k j m, f j w old)

  pub emplace-IsFunctional :
      (k : K) (v : V) (m : Map K V) → IsFunctional m → IsFunctional (emplace k v m)
  unfolding emplace lookup
  emplace-IsFunctional k v m f j w h = elim (Bool-cases (contains k m)) [
    | inl old ↦ rw old (f j w (rw old at h))
    | inr new ↦ elim (rw new at h) [
      | inl e ↦ rw new (ground arith)
      | inr h' ↦ rw new (ground (arith, f j w h', contains_of_none k m))
    ]
  ]

  pub contains-In : (k : K) (v : V) (m : Map K V) → In (k, v) m → contains k m ≡ true
  unfolding contains lookup
  contains-In k v [] h = absurd h
  contains-In k v ((j, w) ∷ m) (inl e) = ground arith
  contains-In k v ((j, w) ∷ m) (inr h) = ground (arith, contains-In k v m h)
