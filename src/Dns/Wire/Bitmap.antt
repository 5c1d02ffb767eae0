-- ===== src/Dns/Wire/Bitmap.antt =====
-- internal/dns/util.go: typeBitmap, the type bitmap of NSEC and NSEC3 records.
pub mod Trim
pub mod Sorted
pub mod Bits
pub mod Read
use zone_lint.Common.{
  ℕ, zero, suc, Bytes, List, [], ◌∷◌, ◌++◌, Bool, true, false, ◌||◌, ◌+◌, ◌/◌, ◌%◌, ◌^◌, ◌==◌, ltb,
  bit_or, take, length, if◌then◌else◌,
}

-- A key of the map `seen`.
abbrev pub has_number : ℕ → List ℕ → Bool
has_number t [] = false
has_number t (x ∷ xs) = x == t || has_number t xs

-- The first loop: each type once, in the order of its first occurrence.
unfoldable pub distinct_onto : List ℕ → List ℕ → List ℕ
distinct_onto [] out = out
distinct_onto (t ∷ types) out =
    distinct_onto types (if has_number t out then out else out ++ t ∷ [])

-- The insertion sort. An element goes before the first greater one of the sorted part: the
-- source comes from its other end and finds the same place.
unfoldable pub insert_type : ℕ → List ℕ → List ℕ
insert_type t [] = t ∷ []
insert_type t (x ∷ xs) = if ltb t x then t ∷ x ∷ xs else x ∷ insert_type t xs

unfoldable pub sort_onto : List ℕ → List ℕ → List ℕ
sort_onto [] out = out
sort_onto (t ∷ types) out = sort_onto types (insert_type t out)

-- bits[i] |= mask
unfoldable pub or_at : Bytes → ℕ → ℕ → Bytes
or_at [] i mask = []
or_at (b ∷ bits) zero mask = bit_or b mask ∷ bits
or_at (b ∷ bits) (suc i) mask = b ∷ or_at bits i mask

-- 0x80 >> k, for k below 8.
unfoldable pub mask_of : ℕ → ℕ
mask_of k = 128 / 2 ^ k

-- bits[(t&0xff)>>3] |= 0x80 >> (uint(t) & 7)
unfoldable pub set_type : ℕ → Bytes → Bytes
set_type t bits = or_at bits (t % 256 / 8) (mask_of (t % 8))

-- The loop that lowers n past the zero bytes at the end: how many bytes are left.
unfoldable pub used_length : Bytes → ℕ
used_length [] = 0
used_length (b ∷ bits) =
    let n = used_length bits in if n == 0 then (if b == 0 then 0 else 1) else suc n

-- make([]byte, 32)
unfoldable pub no_bits : Bytes
no_bits =
    0 ∷ 0 ∷ 0 ∷ 0 ∷ 0 ∷ 0 ∷ 0 ∷ 0 ∷ 0 ∷ 0 ∷ 0 ∷ 0 ∷ 0 ∷ 0 ∷ 0 ∷ 0 ∷ 0 ∷ 0 ∷ 0 ∷ 0 ∷ 0 ∷ 0 ∷ 0 ∷ 0
    ∷ 0 ∷ 0 ∷ 0 ∷ 0 ∷ 0 ∷ 0 ∷ 0 ∷ 0 ∷ []

-- A window block: its number, how many bytes follow, and these bytes.
unfoldable pub window_block : ℕ → Bytes → Bytes
window_block window bits = let n = used_length bits in window ∷ n % 256 ∷ take n bits

-- The loop over the windows, within the window whose bits are being set: the search for `last`,
-- the loop over the types up to it and the output are one pass over the sorted types.
unfoldable pub window_blocks : ℕ → Bytes → List ℕ → Bytes
window_blocks window bits [] = window_block window bits
window_blocks window bits (t ∷ types) =
    let same = window_blocks window (set_type t bits) types in
    let next = window_blocks (t / 256 % 256) (set_type t no_bits) types in
    if t / 256 % 256 == window then same else window_block window bits ++ next

-- typeBitmap of the sorted types.
unfoldable pub sorted_bitmap : List ℕ → Bytes
sorted_bitmap [] = []
sorted_bitmap (t ∷ types) = window_blocks (t / 256 % 256) (set_type t no_bits) types

-- typeBitmap
unfoldable pub type_bitmap : List ℕ → Bytes
type_bitmap types = sorted_bitmap (sort_onto (distinct_onto types []) [])
