-- ===== src/Dnssec/Keys/Rsa.antt =====
-- Which RSA keys the parser accepts.
use zone_lint.Common.{
  zero, suc, inl, inr, ℕ, Bytes, length, length-take, take, drop, get_or, All, [], ◌∷◌, some, ◌+◌,
  ◌-◌, ◌<◌, ◌≤◌, ◌≡◌, arith, Option-cases,
}
use zone_lint.Dnssec.Keys.{der_integer, parse_der_rsa, be_value, be_value_onto}

-- The bytes of an INTEGER are two, whatever its length says: the code reads the tag as the length.
der_integer-length :
    (der : Bytes) (off : ℕ) (r : Bytes × ℕ) → der_integer der off ≡ some r → length r.0 ≤ 2
unfolding der_integer
der_integer-length der off r h = ground (arith, length-take 2 (drop (off + 2) der))

abbrev pub IsOctets : Bytes → Type 0
IsOctets = All (λ b. b < 256)

IsOctets-take : (n : ℕ) (bs : Bytes) → IsOctets bs → IsOctets (take n bs)
IsOctets-take zero bs h = tt
IsOctets-take (suc n) [] h = tt
IsOctets-take (suc n) (b ∷ bs) h = (h.0, IsOctets-take n bs h.1)

IsOctets-drop : (n : ℕ) (bs : Bytes) → IsOctets bs → IsOctets (drop n bs)
IsOctets-drop zero bs h = h
IsOctets-drop (suc n) [] h = tt
IsOctets-drop (suc n) (b ∷ bs) h = IsOctets-drop n bs h.1

der_integer-IsOctets :
    (der : Bytes) (off : ℕ) (bs : Bytes) (next : ℕ)
    → IsOctets der
    → der_integer der off ≡ some (bs, next)
    → IsOctets bs
unfolding der_integer
der_integer-IsOctets der off bs next o h =
    let len = get_or der (off + 2 - 2) 0 in
    ground (arith, IsOctets-take len (drop (off + 2) der) (IsOctets-drop (off + 2) der o))

be_value-two : (bs : Bytes) → length bs ≤ 2 → IsOctets bs → be_value bs < 65536
unfolding be_value be_value_onto
be_value-two [] h o = omega arith
be_value-two (a ∷ []) h (p, _) = omega (arith, p)
be_value-two (a ∷ b ∷ []) h (p, (q, _)) = omega (arith, p, q)
be_value-two (a ∷ b ∷ c ∷ bs) h o = absurd (omega (arith, h))

der_integer-value :
    (der : Bytes) (off : ℕ) (bs : Bytes) (next : ℕ)
    → IsOctets der
    → der_integer der off ≡ some (bs, next)
    → be_value bs < 65536
der_integer-value der off bs next o h =
    be_value-two bs (der_integer-length der off (bs, next) h)
      (der_integer-IsOctets der off bs next o h)

-- A key of bytes that the parser accepts has a modulus and an exponent above 0 and below 65536.
pub parse_der_rsa-bound :
    (der : Bytes) (n e : ℕ)
    → IsOctets der
    → parse_der_rsa der ≡ some (n, e)
    → ((0 < n) × (n < 65536)) × ((0 < e) × (e < 65536))
unfolding parse_der_rsa
parse_der_rsa-bound der n e o h = elim (Option-cases (der_integer der 2)) [
  | inl bad ↦ absurd (ground arith)
  | inr ((mod_bytes, off), read) ↦ elim (Option-cases (der_integer der off)) [
    | inl bad ↦ absurd (ground arith)
    | inr ((exp_bytes, next), read') ↦ ground (
      arith,
      der_integer-value der 2 mod_bytes off o read,
      der_integer-value der off exp_bytes next o read',
    )
  ]
]
