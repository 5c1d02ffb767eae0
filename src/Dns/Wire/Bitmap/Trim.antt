-- ===== src/Dns/Wire/Bitmap/Trim.antt =====
-- Leaving out the zero bytes at the end changes no bit.
use zone_lint.Common.{
  ℕ, zero, suc, Bytes, get_or, take, length, length-take, [], ◌∷◌, ◌≡◌, ◌≤◌, refl, arith,
}
use zone_lint.Dns.Wire.Bitmap.{used_length}

used_length-zero : (bits : Bytes) (i : ℕ) → used_length bits ≡ 0 → get_or bits i 0 ≡ 0
unfolding used_length
used_length-zero [] i h = refl
used_length-zero (b ∷ bits) zero h = ground arith
used_length-zero (b ∷ bits) (suc i) h = ground (arith, used_length-zero bits i)

pub used_length-le : (bits : Bytes) → used_length bits ≤ length bits
unfolding used_length
used_length-le [] = omega arith
used_length-le (b ∷ bits) = ground (arith, used_length-le bits)

pub get_or-take :
    (bits : Bytes) (i : ℕ) → get_or (take (used_length bits) bits) i 0 ≡ get_or bits i 0
unfolding used_length
get_or-take [] i = refl
get_or-take (b ∷ bits) zero = ground arith
get_or-take (b ∷ bits) (suc i) = ground (arith, used_length-zero bits i, get_or-take bits i)

pub length-take_used : (bits : Bytes) → length (take (used_length bits) bits) ≡ used_length bits
length-take_used bits = omega (arith, length-take (used_length bits) bits, used_length-le bits)
