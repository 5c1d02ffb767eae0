-- ===== src/Dns/Wire/Bitmap/Read.antt =====
-- A type bitmap reads back as the set of its types.
use zone_lint.Common.{
  append-nil, ℕ, zero, suc, Bytes, get_or, take, drop, length, take-append, drop-append, All, List,
  [], ◌∷◌, ◌++◌, Bool, true, false, ◌&&◌, ◌||◌, ◌≡◌, ◌<◌, ◌/◌, ◌%◌, ◌^◌, ◌-◌, refl, ap, sym, ◌∙◌,
  arith, ◌==◌, Bool-cases, inl, inr,
}
use zone_lint.Dns.Wire.Bitmap.{
  has_number, distinct_onto, sort_onto, set_type, used_length, no_bits, window_block, window_blocks,
  sorted_bitmap, type_bitmap,
}
use zone_lint.Dns.Wire.Bitmap.Bits.{IsWindow, set_type-IsWindow, bit_of, bit_of-set_type, bit_at}
use zone_lint.Dns.Wire.Bitmap.Sorted.{AllU16, sorted-Keeps}
use zone_lint.Dns.Wire.Bitmap.Trim.{used_length-le, get_or-take, length-take_used}

-- Whether the window blocks hold the bit of a type, by RFC 4034; at most `fuel` blocks are read.
pub read_type : ℕ → Bytes → ℕ → Bool
read_type zero bytes t = false
read_type (suc fuel) [] t = false
read_type (suc fuel) (w ∷ []) t = false
read_type (suc fuel) (w ∷ n ∷ rest) t =
    (w == t / 256 && bit_of (take n rest) t) || read_type fuel (drop n rest) t

no_bits-IsWindow : IsWindow no_bits
unfolding no_bits
no_bits-IsWindow = record { size = refl; octets = omega arith }

zero-div : (m : ℕ) → 0 / m ≡ 0
zero-div m = omega arith

get_or-zeros : (bits : Bytes) (i : ℕ) → All (λ b. b ≡ 0) bits → get_or bits i 0 ≡ 0
get_or-zeros [] i h = refl
get_or-zeros (b ∷ bits) zero h = h.0
get_or-zeros (b ∷ bits) (suc i) h = get_or-zeros bits i h.1

zero-bit_at : (k : ℕ) → bit_at 0 k ≡ false
zero-bit_at k = ground (arith, zero-div (2 ^ (7 - k)))

bit_of-no_bits : (t : ℕ) → bit_of no_bits t ≡ false
unfolding no_bits
bit_of-no_bits t =
    ap (λ b. bit_at b (t % 8)) (get_or-zeros no_bits (t % 256 / 8) (omega arith))
    ∙ zero-bit_at (t % 8)

read_type-block :
    (fuel w : ℕ) (bits more : Bytes) (t : ℕ)
    → IsWindow bits
    → read_type (suc fuel) (window_block w bits ++ more) t
      ≡ ((w == t / 256 && bit_of bits t) || read_type fuel more t)
unfolding read_type window_block
read_type-block fuel w bits more t v =
    let kept = take (used_length bits) bits in
    let n : used_length bits % 256 ≡ length kept =
      omega (arith, used_length-le bits, length-take_used bits, v.size) in
    rw (n, read_type, take-append kept more, drop-append kept more, get_or-take bits (t % 256 / 8))
      refl

read_type-nil : (fuel t : ℕ) → read_type fuel [] t ≡ false
unfolding read_type
read_type-nil zero t = refl
read_type-nil (suc fuel) t = refl

-- The types of one window are told apart by their low byte.
same_type :
    (x t : ℕ) (w : ℕ)
    → x < 65536
    → t < 65536
    → (x / 256 % 256 == w) ≡ true
    → (w == t / 256 && x % 256 == t % 256) ≡ (x == t)
same_type x t w hx ht h = ground arith

distribute : (p a b m : Bool) → ((p && (a || b)) || m) ≡ ((p && a) || ((p && b) || m))
distribute p a b m = ground arith

window_blocks-read :
    (fuel w : ℕ) (bits : Bytes) (types : List ℕ) (t : ℕ)
    → length types < fuel
    → IsWindow bits
    → AllU16 types
    → t < 65536
    → read_type fuel (window_blocks w bits types) t
      ≡ ((w == t / 256 && bit_of bits t) || has_number t types)
unfolding window_blocks
window_blocks-read zero w bits types t f v a ht = absurd (omega arith)
window_blocks-read (suc fuel) w bits [] t f v a ht =
    ap (λ bs. read_type (suc fuel) bs t) (sym (append-nil (window_block w bits)))
    ∙ (read_type-block fuel w bits [] t v
        ∙ ap (λ c. (w == t / 256 && bit_of bits t) || c) (read_type-nil fuel t))
window_blocks-read (suc fuel) w bits (x ∷ types) t f v a ht =
    elim (Bool-cases (x / 256 % 256 == w)) [
      | inl e ↦
          rw (e, window_blocks)
            (window_blocks-read (suc fuel) w (set_type x bits) types t (omega arith)
                (set_type-IsWindow x bits v) a.1 ht
              ∙ ground (arith, bit_of-set_type x t bits v, same_type x t w a.0 ht e))
      | inr e ↦
          rw (e, window_blocks)
            (read_type-block fuel w bits (window_blocks (x / 256 % 256) (set_type x no_bits) types)
                t v
              ∙ ground (
                arith,
                window_blocks-read fuel (x / 256 % 256) (set_type x no_bits) types t (omega arith)
                    (set_type-IsWindow x no_bits no_bits-IsWindow) a.1 ht,
                bit_of-set_type x t no_bits no_bits-IsWindow,
                bit_of-no_bits t,
                same_type x t (x / 256 % 256) a.0 ht,
              ))
    ]

sorted_bitmap-read :
    (fuel : ℕ) (types : List ℕ) (t : ℕ)
    → length types < fuel
    → AllU16 types
    → t < 65536
    → read_type fuel (sorted_bitmap types) t ≡ has_number t types
unfolding sorted_bitmap
sorted_bitmap-read fuel [] t f a h = read_type-nil fuel t
sorted_bitmap-read fuel (x ∷ types) t f a h =
    window_blocks-read fuel (x / 256 % 256) (set_type x no_bits) types t (omega arith)
      (set_type-IsWindow x no_bits no_bits-IsWindow) a.1 h
    ∙ ground (
      arith,
      bit_of-set_type x t no_bits no_bits-IsWindow,
      bit_of-no_bits t,
      same_type x t (x / 256 % 256) a.0 h,
    )

-- Read by RFC 4034, with fuel for more blocks than there are types, the bitmap of a list of 16-bit
-- types holds exactly the types of the list, in whatever order and however often they stand there.
pub read_type-type_bitmap :
    (fuel : ℕ) (types : List ℕ) (t : ℕ)
    → length types < fuel
    → AllU16 types
    → t < 65536
    → read_type fuel (type_bitmap types) t ≡ has_number t types
unfolding type_bitmap
read_type-type_bitmap fuel types t f a h =
    let k = sorted-Keeps types in
    let short = k.short in
    sorted_bitmap-read fuel (sort_onto (distinct_onto types []) []) t (omega arith) (k.bounded a) h
    ∙ k.members t
