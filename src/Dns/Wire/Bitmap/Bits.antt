-- ===== src/Dns/Wire/Bitmap/Bits.antt =====
-- Setting the bit of a type.
use zone_lint.Common.{
  ℕ, zero, suc, Bytes, get_or, length, All, all, List, [], ◌∷◌, Bool, true, false, ◌&&◌, ◌||◌, ◌≡◌,
  ◌<◌, ◌/◌, ◌%◌, ◌^◌, ◌-◌, refl, ap, sym, ◌∙◌, arith, ◌==◌, bit_or, ltb, if◌then◌else◌, Bool-cases,
  inl, inr,
}
use zone_lint.Dns.Wire.Bitmap.{or_at, mask_of, set_type}

-- The k-th bit of a byte, from the most significant.
abbrev pub bit_at : ℕ → ℕ → Bool
bit_at b k = b / 2 ^ (7 - k) % 2 == 1

abbrev same : Bool → Bool → Bool
same true b = b
same false true = false
same false false = true

same-eq : (a b : Bool) → same a b ≡ true → a ≡ b
same-eq true true h = refl
same-eq true false h = absurd (cc)
same-eq false true h = absurd (cc)
same-eq false false h = refl

-- The numbers below a bound, the greatest first: a test of them all is a test of each.
downwards : ℕ → List ℕ
downwards zero = []
downwards (suc top) = top ∷ downwards top

tested : (p : ℕ → Bool) {x : ℕ} (top : ℕ) → x < top → all p (downwards top) ≡ true → p x ≡ true
unfolding downwards
tested p zero below passed = absurd (omega arith)
tested p {x} (suc top) below passed = ground (arith, tested p {x = x} top)

abbrev sets : ℕ → ℕ → ℕ → Bool
sets k b j =
    same (bit_at (bit_or b (mask_of k)) j) (bit_at b j || k == j) && ltb (bit_or b (mask_of k)) 256

table : all (λ k. all (λ b. all (sets k b) (downwards 8)) (downwards 256)) (downwards 8) ≡ true
unfolding downwards mask_of
table = refl

sets_all : (k b j : ℕ) → k < 8 → b < 256 → j < 8 → sets k b j ≡ true
sets_all k b j hk hb hj = tested (sets k b) 8 hj (
    tested (λ c. all (sets k c) (downwards 8)) 256 hb
      (tested (λ m. all (λ c. all (sets m c) (downwards 8)) (downwards 256)) 8 hk table))

bit_or-bit_at :
    (k b j : ℕ)
    → k < 8
    → b < 256
    → j < 8
    → (bit_at (bit_or b (mask_of k)) j ≡ (bit_at b j || k == j)) × (bit_or b (mask_of k) < 256)
bit_or-bit_at k b j hk hb hj =
    let all = sets_all k b j hk hb hj in
    (same-eq (bit_at (bit_or b (mask_of k)) j) (bit_at b j || k == j) (ground arith), ground arith)

abbrev pub IsOctets : Bytes → Type 0
IsOctets = All (λ b. b < 256)

-- The bits of a window: 32 bytes.
pub record IsWindow (bits : Bytes) : Type 0 where
  pub size : length bits ≡ 32
  pub octets : IsOctets bits

get_or-IsOctets : (bits : Bytes) (i : ℕ) → IsOctets bits → get_or bits i 0 < 256
get_or-IsOctets [] i o = omega arith
get_or-IsOctets (b ∷ bits) zero o = o.0
get_or-IsOctets (b ∷ bits) (suc i) o = get_or-IsOctets bits i o.1

get_or-or_at :
    (bits : Bytes) (i j mask : ℕ)
    → i < length bits
    → get_or (or_at bits i mask) j 0
      ≡ (if i == j then bit_or (get_or bits j 0) mask else get_or bits j 0)
unfolding or_at
get_or-or_at [] i j mask h = absurd (omega (arith, h))
get_or-or_at (b ∷ bits) zero zero mask h = refl
get_or-or_at (b ∷ bits) zero (suc j) mask h = ground arith
get_or-or_at (b ∷ bits) (suc i) zero mask h = ground arith
get_or-or_at (b ∷ bits) (suc i) (suc j) mask h = ground (arith, get_or-or_at bits i j mask)

or_at-IsOctets :
    (bits : Bytes) (i k : ℕ) → k < 8 → IsOctets bits → IsOctets (or_at bits i (mask_of k))
unfolding or_at
or_at-IsOctets [] i k h o = tt
or_at-IsOctets (b ∷ bits) zero k h o = ((bit_or-bit_at k b 0 h o.0 (omega arith)).1, o.1)
or_at-IsOctets (b ∷ bits) (suc i) k h o = (o.0, or_at-IsOctets bits i k h o.1)

length-or_at : (bits : Bytes) (i mask : ℕ) → length (or_at bits i mask) ≡ length bits
unfolding or_at
length-or_at [] i mask = refl
length-or_at (b ∷ bits) zero mask = refl
length-or_at (b ∷ bits) (suc i) mask = omega (arith, length-or_at bits i mask)

pub set_type-IsWindow : (t : ℕ) (bits : Bytes) → IsWindow bits → IsWindow (set_type t bits)
unfolding set_type
set_type-IsWindow t bits v = record {
  size = length-or_at bits (t % 256 / 8) (mask_of (t % 8)) ∙ v.size;
  octets = or_at-IsOctets bits (t % 256 / 8) (t % 8) (omega arith) v.octets;
}

-- The bit of a type among those of its window.
abbrev pub bit_of : Bytes → ℕ → Bool
bit_of bits t = bit_at (get_or bits (t % 256 / 8) 0) (t % 8)

or_false : (b : Bool) → b ≡ (b || false)
or_false true = refl
or_false false = refl

same_place :
    (t u : ℕ) → (t % 256 / 8 == u % 256 / 8) ≡ true → (t % 8 == u % 8) ≡ (t % 256 == u % 256)
same_place t u h = ground arith

other_place : (t u : ℕ) → (t % 256 / 8 == u % 256 / 8) ≡ false → (t % 256 == u % 256) ≡ false
other_place t u h = ground arith

-- Setting the bit of a type adds that type to those of the window, and no other.
pub bit_of-set_type :
    (t u : ℕ) (bits : Bytes)
    → IsWindow bits
    → bit_of (set_type t bits) u ≡ (bit_of bits u || t % 256 == u % 256)
unfolding set_type
bit_of-set_type t u bits v =
    let old = get_or bits (u % 256 / 8) 0 in
    let size = v.size in
    let law =
      bit_or-bit_at (t % 8) old (u % 8) (omega arith) (get_or-IsOctets bits (u % 256 / 8) v.octets)
        (omega arith) in
    let read = get_or-or_at bits (t % 256 / 8) (u % 256 / 8) (mask_of (t % 8)) (omega arith) in
    elim (Bool-cases (t % 256 / 8 == u % 256 / 8)) [
      | inl e ↦
          let hit : get_or (or_at bits (t % 256 / 8) (mask_of (t % 8))) (u % 256 / 8) 0
              ≡ bit_or old (mask_of (t % 8)) =
            ground arith in
          ap (λ b. bit_at b (u % 8)) hit
          ∙ law.0
          ∙ ap (λ c. bit_at old (u % 8) || c) (same_place t u e)
      | inr e ↦
          let miss : get_or (or_at bits (t % 256 / 8) (mask_of (t % 8))) (u % 256 / 8) 0 ≡ old =
            ground arith in
          ap (λ b. bit_at b (u % 8)) miss
          ∙ (or_false (bit_at old (u % 8))
              ∙ ap (λ c. bit_at old (u % 8) || c) (sym (other_place t u e)))
    ]
