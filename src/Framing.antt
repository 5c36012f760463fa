-- ===== src/Framing.antt =====
-- crdt_editor/network/framing.hpp and framing.cpp: the frames of the TCP stream, and how
-- client_connection.cpp and network_client.cpp read them. A header is four bytes.
use crdt_networking_applicat.Prelude.{
  ℕ, zero, suc, ◌+◌, ◌*◌, ◌/◌, ◌%◌, ◌<◌, ◌≤◌, ◌≡◌, refl, ap, Option, none, some, [], ◌∷◌, ◌++◌,
  length, ltb, if◌then◌else◌, arith,
}
use crdt_networking_applicat.Outcome.{Result, ok, err, length_error}
use crdt_networking_applicat.Text.{Bytes}

abbrev pub max_message_size : ℕ
max_message_size = 1024 * 1024

-- encode_length, of a length below 2 ^ 32: `x >> k` is `x / 2 ^ k` and `x & 0xFF` is `x % 256`
unfoldable pub encode_length : ℕ → Bytes
encode_length n = n / 16777216 % 256 ∷ n / 65536 % 256 ∷ n / 256 % 256 ∷ n % 256 ∷ []

-- decode_length: the shifted bytes have no bit in common, so `|` adds them
unfoldable pub decode_length : ℕ → ℕ → ℕ → ℕ → ℕ
decode_length a b c d = a * 16777216 + b * 65536 + c * 256 + d

unfoldable pub frame_message : Bytes → Result Bytes
unfolding encode_length
frame_message message =
    if ltb 4294967295 (length message)
    then err length_error
    else ok (encode_length (length message) ++ message)

abbrev in_front : ℕ → Option (Bytes × Bytes) → Option (Bytes × Bytes)
in_front x none = none
in_front x (some (a, b)) = some (x ∷ a, b)

-- async_read of n bytes: none while the stream has fewer
unfoldable pub take_bytes : ℕ → Bytes → Option (Bytes × Bytes)
take_bytes zero s = some ([], s)
take_bytes (suc n) [] = none
take_bytes (suc n) (x ∷ s) = in_front x (take_bytes n s)

-- What a connection does next with the bytes that arrived.
pub data Reading : Type 0 where
  waiting too_large : Reading
  message_read : Bytes → Bytes → Reading

abbrev body_read : Option (Bytes × Bytes) → Reading
body_read none = waiting
body_read (some (message, rest)) = message_read message rest

-- read_header and read_body of the server, start_read of the client
unfoldable pub read_frame : Bytes → Reading
unfolding decode_length take_bytes
read_frame (a ∷ b ∷ c ∷ d ∷ s) =
    if ltb max_message_size (decode_length a b c d)
    then too_large
    else body_read (take_bytes (decode_length a b c d) s)
read_frame _ = waiting

-- Decoding the header of a 32-bit length gives the length back.
pub decode_length-encode_length :
    (n : ℕ)
    → n < 4294967296
    → decode_length (n / 16777216 % 256) (n / 65536 % 256) (n / 256 % 256) (n % 256) ≡ n
unfolding decode_length
decode_length-encode_length n h = omega arith

take_bytes-length : (m rest : Bytes) → take_bytes (length m) (m ++ rest) ≡ some (m, rest)
unfolding take_bytes
take_bytes-length [] rest = refl
take_bytes-length (x ∷ m) rest = ap (in_front x) (take_bytes-length m rest)

-- A message of at most max_message_size bytes is framed, and the connection reads exactly it from
-- the frame, whatever follows the frame in the stream.
pub read_frame-frame_message :
    (m rest : Bytes)
    → length m ≤ max_message_size
    → (framed : Bytes) × (frame_message m ≡ ok framed)
      × (read_frame (framed ++ rest) ≡ message_read m rest)
unfolding frame_message read_frame encode_length
read_frame-frame_message m rest h = (
  encode_length (length m) ++ m,
  ground arith,
  rw (decode_length-encode_length (length m) (omega arith), take_bytes-length m rest)
      (ground arith),
)
