-- ===== src/Text/Fields.antt =====
-- Splitting a text that was joined from fields without the separator gives the fields back.
use crdt_networking_applicat.Prelude.{
  ℕ, ◌≡◌, ◌≢◌, refl, sym, true, false, some, [], ◌∷◌, ◌++◌, In, inl, inr, arith, ◌==◌,
}
use crdt_networking_applicat.Text.{Bytes, fields, cut_at, starts_with}

==-false : (x c : ℕ) → x ≢ c → (x == c) ≡ false
==-false x c n = ground arith

-- The first field ends at the first separator.
pub fields-append :
    (sep : ℕ) (a rest : Bytes) → ¬ In sep a → fields sep (a ++ sep ∷ rest) ≡ a ∷ fields sep rest
unfolding fields
fields-append sep [] rest h = ground arith
fields-append sep (x ∷ a) rest h =
    rw (==-false x sep (λ e. h (inl (sym e))), fields-append sep a rest (λ m. h (inr m)))

-- A text without the separator is one field.
pub fields_single : (sep : ℕ) (a : Bytes) → ¬ In sep a → fields sep a ≡ a ∷ []
unfolding fields
fields_single sep [] h = refl
fields_single sep (x ∷ a) h =
    rw (==-false x sep (λ e. h (inl (sym e))), fields_single sep a (λ m. h (inr m)))

pub cut_at-append : (c : ℕ) (a rest : Bytes) → ¬ In c a → cut_at c (a ++ c ∷ rest) ≡ some (a, rest)
unfolding cut_at
cut_at-append c [] rest h = ground arith
cut_at-append c (x ∷ a) rest h =
    rw (==-false x c (λ e. h (inl (sym e))), cut_at-append c a rest (λ m. h (inr m)))

pub starts_with-append : (p s : Bytes) → starts_with p (p ++ s) ≡ true
unfolding starts_with
starts_with-append [] s = refl
starts_with-append (x ∷ p) s = ground (arith, starts_with-append p s)

pub mem-bytes_append : (c : ℕ) (a b : Bytes) → ¬ In c a → ¬ In c b → ¬ In c (a ++ b)
mem-bytes_append c [] b h k m = k m
mem-bytes_append c (x ∷ a) b h k (inl e) = h (inl e)
mem-bytes_append c (x ∷ a) b h k (inr m) = mem-bytes_append c a b (λ n. h (inr n)) k m
