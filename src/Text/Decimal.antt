-- ===== src/Text/Decimal.antt =====
-- Reading a printed number gives the number back.
use crdt_networking_applicat.Prelude.{
  ℕ, zero, suc, ◌+◌, ◌-◌, ◌*◌, ◌/◌, ◌%◌, ◌<◌, ◌≤◌, ◌≡◌, ◌≢◌, refl, ap, ◌∙◌, true, false, [], ◌∷◌,
  ◌++◌, In, inl, inr, arith, ltb, Bool-cases,
}
use crdt_networking_applicat.Outcome.{ok}
use crdt_networking_applicat.Text.{
  Bytes, print_decimal, to_string, read_digits, read_unsigned, stoull, starts_with_digit, is_digit,
  word,
}

-- The bytes of a printed number are digits.
abbrev AllDigits : Bytes → Type 0
AllDigits [] = Unit
AllDigits (c ∷ s) = (48 ≤ c) × (c ≤ 57) × AllDigits s

AllDigits-append : (a : Bytes) (c : ℕ) → AllDigits a → 48 ≤ c → c ≤ 57 → AllDigits (a ++ c ∷ [])
AllDigits-append [] c h l u = (l, u, tt)
AllDigits-append (x ∷ a) c h l u = (h.0, h.1, AllDigits-append a c h.2 l u)

print_decimal-AllDigits : (fuel n : ℕ) → AllDigits (print_decimal fuel n)
unfolding print_decimal
print_decimal-AllDigits zero n = tt
print_decimal-AllDigits (suc fuel) n = elim (Bool-cases (ltb n 10)) [
  | inl small ↦ rw small (ground arith, ground arith, tt)
  | inr large ↦ rw large (
      AllDigits-append (print_decimal fuel (n / 10)) (48 + n % 10)
        (print_decimal-AllDigits fuel (n / 10)) (omega arith) (omega arith))
]

-- Reading from `m` the digits of `n` appends them to those of `m`: it is enough to know from 0.
read_digits-append :
    (a : Bytes) (m : ℕ) (rest : Bytes)
    → AllDigits a
    → read_digits m (a ++ rest) ≡ read_digits (read_digits m a) rest
unfolding read_digits
read_digits-append [] m rest h = refl
read_digits-append (c ∷ a) m rest h =
    ground (arith, read_digits-append a (m * 10 + (c - 48)) rest h.2)

read_digits_stop : (m : ℕ) (rest : Bytes) → starts_with_digit rest ≡ false → read_digits m rest ≡ m
unfolding read_digits
read_digits_stop m [] h = refl
read_digits_stop m (c ∷ rest) h = rw h

read_digits_one : (m k : ℕ) → k < 10 → read_digits m ((48 + k) ∷ []) ≡ m * 10 + k
unfolding read_digits
read_digits_one m k h = ground arith

read_digits-print_decimal : (fuel n : ℕ) → n < fuel → read_digits 0 (print_decimal fuel n) ≡ n
unfolding print_decimal
read_digits-print_decimal zero n h = absurd (omega arith)
read_digits-print_decimal (suc fuel) n h = elim (Bool-cases (ltb n 10)) [
  | inl small ↦ rw small (read_digits_one 0 n (ground arith) ∙ omega arith)
  | inr large ↦ rw large (
      read_digits-append (print_decimal fuel (n / 10)) 0 ((48 + n % 10) ∷ [])
        (print_decimal-AllDigits fuel (n / 10))
      ∙ ap (λ m. read_digits m ((48 + n % 10) ∷ []))
          (read_digits-print_decimal fuel (n / 10) (ground arith))
      ∙ read_digits_one (n / 10) (n % 10) (omega arith)
      ∙ omega arith)
]

AllDigits-starts : (a rest : Bytes) → AllDigits a → a ≢ [] → starts_with_digit (a ++ rest) ≡ true
AllDigits-starts [] rest h n = absurd (n refl)
AllDigits-starts (c ∷ a) rest h n = ground arith

print_decimal-ne-nil : (fuel n : ℕ) → print_decimal (suc fuel) n ≢ []
unfolding print_decimal
print_decimal-ne-nil fuel n e = elim (Bool-cases (ltb n 10)) [
  | inl small ↦ cc (rw small at e)
  | inr large ↦ append-ne-nil (print_decimal fuel (n / 10)) (48 + n % 10) (rw large at e)
]
  where
    append-ne-nil : (a : Bytes) (c : ℕ) → (a ++ c ∷ []) ≢ []
    append-ne-nil [] c e = cc
    append-ne-nil (x ∷ a) c e = cc

-- A text that starts with a digit has no space and no sign in front.
stoull-unsigned : (s : Bytes) → starts_with_digit s ≡ true → stoull s ≡ read_unsigned s
unfolding stoull
stoull-unsigned [] h = cc
stoull-unsigned (c ∷ s) h = ground arith

-- std::stoull reads back what std::to_string printed, if no digit follows.
pub stoull-to_string :
    (n : ℕ) (rest : Bytes)
    → n < word
    → starts_with_digit rest ≡ false
    → stoull (to_string n ++ rest) ≡ ok n
unfolding to_string read_unsigned
stoull-to_string n rest h stop =
    let printed = print_decimal (suc n) n in
    let starts =
      AllDigits-starts printed rest (print_decimal-AllDigits (suc n) n)
        (print_decimal-ne-nil n n) in
    let value =
      read_digits-append printed 0 rest (print_decimal-AllDigits (suc n) n)
      ∙ read_digits_stop (read_digits 0 printed) rest stop
      ∙ read_digits-print_decimal (suc n) n (omega arith) in
    stoull-unsigned (printed ++ rest) starts ∙ rw (starts, value) (ground arith)

-- A printed number holds no byte but digits.
pub to_string-lacks : (n c : ℕ) → is_digit c ≡ false → ¬ In c (to_string n)
unfolding to_string
to_string-lacks n c h = lacks (print_decimal (suc n) n) (print_decimal-AllDigits (suc n) n)
  where
    lacks : (a : Bytes) → AllDigits a → ¬ In c a
    lacks [] d m = m
    lacks (x ∷ a) d (inl e) = ground arith
    lacks (x ∷ a) d (inr m) = lacks a d.2 m
