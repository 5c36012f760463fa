-- ===== src/Hash.antt =====
-- crdt_editor/util/hash.*: the hexadecimal text of a digest. SHA256 of OpenSSL is a parameter.
use crdt_networking_applicat.Prelude.{
  ℕ, ◌+◌, ◌*◌, ◌/◌, ◌%◌, ◌<◌, ◌≡◌, refl, ap₂, [], ◌∷◌, ltb, if◌then◌else◌, length, arith,
}
use crdt_networking_applicat.Text.{Bytes}

abbrev hex_digit : ℕ → ℕ
hex_digit n = if ltb n 10 then 48 + n else 87 + n

-- to_hex: "{:02x}" of each byte
unfoldable pub to_hex : Bytes → Bytes
to_hex [] = []
to_hex (byte ∷ digest) = hex_digit (byte / 16) ∷ hex_digit (byte % 16) ∷ to_hex digest

module _ (sha256 : Bytes → Bytes) where
  unfoldable pub hash : Bytes → Bytes
  unfolding to_hex
  hash data_bytes = to_hex (sha256 data_bytes)

abbrev pub AreBytes : Bytes → Type 0
AreBytes [] = Unit
AreBytes (b ∷ bs) = (b < 256) × AreBytes bs

-- The text has two characters for each byte of the digest.
pub length-to_hex : (digest : Bytes) → length (to_hex digest) ≡ 2 * length digest
unfolding to_hex
length-to_hex [] = refl
length-to_hex (b ∷ digest) = omega (arith, length-to_hex digest)

hex_digit-injective : (m n : ℕ) → m < 16 → n < 16 → hex_digit m ≡ hex_digit n → m ≡ n
hex_digit-injective m n h k e = ground arith

head_eq : {x y : ℕ} {xs ys : Bytes} → x ∷ xs ≡ y ∷ ys → (x ≡ y) × (xs ≡ ys)
head_eq e = (cc, cc)

-- Digests of bytes with the same text are the same.
pub to_hex-injective : (a b : Bytes) → AreBytes a → AreBytes b → to_hex a ≡ to_hex b → a ≡ b
unfolding to_hex
to_hex-injective [] [] h k e = refl
to_hex-injective [] (y ∷ b) h k e = cc
to_hex-injective (x ∷ a) [] h k e = cc
to_hex-injective (x ∷ a) (y ∷ b) h k e =
    let (high, rest) = head_eq e in
    let (low, tails) = head_eq rest in
    let highs = hex_digit-injective (x / 16) (y / 16) (omega arith) (omega arith) high in
    let lows = hex_digit-injective (x % 16) (y % 16) (omega arith) (omega arith) low in
    ap₂ (λ n s. n ∷ s) (omega arith) (to_hex-injective a b h.1 k.1 tails)
