-- ===== src/Text.antt =====
-- What the serializers use of std::string: decimal numbers, std::stoull, std::views::split, find
-- and starts_with. A text is the list of its bytes.
pub mod Decimal
pub mod Fields
use Prim.Native.Char.{code}
use Prim.Native.String.{String}
use crdt_networking_applicat.Prelude.{
  ℕ, zero, suc, ◌+◌, ◌-◌, ◌*◌, ◌/◌, ◌%◌, ◌^◌, Bool, true, false, ◌&&◌, ◌||◌, Option, none, some,
  List, [], ◌∷◌, ◌++◌, ltb, leb, ◌==◌, if◌then◌else◌,
}
use crdt_networking_applicat.Outcome.{Result, ok, err, invalid_argument, out_of_range}

abbrev pub Bytes : Type 0
Bytes = List ℕ

abbrev pub codes : String → Bytes
codes String.[] = []
codes (String.◌∷◌ c s) = code c ∷ codes s

-- std::to_string of an unsigned number. Each round divides by ten, so n rounds and one suffice.
unfoldable pub print_decimal : ℕ → ℕ → Bytes
print_decimal zero n = []
print_decimal (suc fuel) n =
    let high = print_decimal fuel (n / 10) in
    if ltb n 10 then (48 + n) ∷ [] else high ++ (48 + n % 10) ∷ []

unfoldable pub to_string : ℕ → Bytes
unfolding print_decimal
to_string n = print_decimal (suc n) n

abbrev pub is_digit : ℕ → Bool
is_digit c = leb 48 c && leb c 57

abbrev pub is_space : ℕ → Bool
is_space c = c == 32 || (leb 9 c && leb c 13)

unfoldable pub skip_spaces : Bytes → Bytes
skip_spaces [] = []
skip_spaces (c ∷ s) = let rest = skip_spaces s in if is_space c then rest else c ∷ s

-- The value of the digits in front.
unfoldable pub read_digits : ℕ → Bytes → ℕ
read_digits n [] = n
read_digits n (c ∷ s) =
    let rest = read_digits (n * 10 + (c - 48)) s in if is_digit c then rest else n

abbrev pub starts_with_digit : Bytes → Bool
starts_with_digit [] = false
starts_with_digit (c ∷ s) = is_digit c

-- 2 ^ 64
abbrev pub word : ℕ
word = 18446744073709551616

-- Digits without a sign, as unsigned long long; what follows them is ignored.
unfoldable pub read_unsigned : Bytes → Result ℕ
unfolding read_digits
read_unsigned s =
    if starts_with_digit s
    then (if ltb (read_digits 0 s) word then ok (read_digits 0 s) else err out_of_range)
    else err invalid_argument

abbrev negate : Result ℕ → Result ℕ
negate (ok n) = ok ((word - n) % word)
negate (err e) = err e

unfoldable pub read_signed : Bytes → Result ℕ
unfolding read_unsigned
read_signed [] = err invalid_argument
read_signed (c ∷ s) =
    if c == b'-'
    then negate (read_unsigned s)
    else if c == b'+'
    then read_unsigned s
    else read_unsigned (c ∷ s)

-- std::stoull, and std::stoul where long has 64 bits
unfoldable pub stoull : Bytes → Result ℕ
unfolding skip_spaces read_signed
stoull s = read_signed (skip_spaces s)

abbrev pub cons_head : ℕ → List Bytes → List Bytes
cons_head x [] = (x ∷ []) ∷ []
cons_head x (f ∷ fs) = (x ∷ f) ∷ fs

-- the fields between the separators, one more than there are separators
unfoldable pub fields : ℕ → Bytes → List Bytes
fields sep [] = [] ∷ []
fields sep (x ∷ s) = let rest = fields sep s in if x == sep then [] ∷ rest else cons_head x rest

-- std::views::split: an empty text has no field at all
unfoldable pub split : ℕ → Bytes → List Bytes
unfolding fields
split sep [] = []
split sep (x ∷ s) = fields sep (x ∷ s)

abbrev in_front : ℕ → Option (Bytes × Bytes) → Option (Bytes × Bytes)
in_front x none = none
in_front x (some (a, b)) = some (x ∷ a, b)

-- s.find(c), s.substr(0, i) and s.substr(i + 1)
unfoldable pub cut_at : ℕ → Bytes → Option (Bytes × Bytes)
cut_at c [] = none
cut_at c (x ∷ s) = let rest = cut_at c s in if x == c then some ([], s) else in_front x rest

unfoldable pub starts_with : Bytes → Bytes → Bool
starts_with [] s = true
starts_with (p ∷ ps) [] = false
starts_with (p ∷ ps) (x ∷ s) = p == x && starts_with ps s
