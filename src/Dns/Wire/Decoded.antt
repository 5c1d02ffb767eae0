-- ===== src/Dns/Wire/Decoded.antt =====
-- The wire forms can be read back by the rules of RFC 1035 and RFC 8659.
use zone_lint.Common.{
  ℕ, zero, suc, Bytes, length, length-append, length-take, take-append, drop-append, take, drop,
  List, [], ◌∷◌, ◌++◌, map, Option, none, some, ◌≡◌, ◌<◌, ◌≤◌, ◌%◌, ltb, leb, if◌then◌else◌, refl,
  ap, arith,
}
use zone_lint.Dns.{Caa}
use zone_lint.Dns.Wire.{txt_rdata, caa_rdata}

-- A character string: one byte of length and as many bytes. `none` where the data is too short.
abbrev pub read_string : Bytes → Option (Bytes × Bytes)
read_string [] = none
read_string (n ∷ bs) = if leb n (length bs) then some (take n bs, drop n bs) else none

-- The RDATA of a TXT record: character strings up to its end, at most `fuel` of them.
abbrev pub read_strings : ℕ → Bytes → Option (List Bytes)
read_strings fuel [] = some []
read_strings zero (n ∷ bs) = none
read_strings (suc fuel) (n ∷ bs) = elim (read_string (n ∷ bs)) [
  | none ↦ none
  | some (s, rest) ↦ elim (read_strings fuel rest) [ none ↦ none | some ss ↦ some (s ∷ ss) ]
]

-- The RDATA of a CAA record: the flags, the tag as a character string, and the value.
abbrev pub read_caa : Bytes → Option (ℕ × Bytes × Bytes)
read_caa [] = none
read_caa (flag ∷ bs) = elim (read_string bs) [
  | none ↦ none
  | some (tag, value) ↦ some (flag, tag, value)
]

small_byte : (n : ℕ) → n < 256 → n % 256 ≡ n
small_byte n h = omega arith

read_string-append :
    (s t : Bytes) → length s ≤ 255 → read_string (length s % 256 ∷ (s ++ t)) ≡ some (s, t)
read_string-append s t h =
    rw (small_byte (length s) (omega (arith, h)), take-append s t, drop-append s t)
      (ground (arith, length-append s t))

take_short : (n : ℕ) (s : Bytes) → length s ≤ n → take n s ≡ s
take_short zero [] h = refl
take_short (suc n) [] h = refl
take_short zero (c ∷ s) h = absurd (omega (arith, h))
take_short (suc n) (c ∷ s) h = ap (◌∷◌ c) (take_short n s (omega (arith, h)))

read_strings-step :
    (fuel n : ℕ) (bs s rest : Bytes) (ss : List Bytes)
    → read_string (n ∷ bs) ≡ some (s, rest)
    → read_strings fuel rest ≡ some ss
    → read_strings (suc fuel) (n ∷ bs) ≡ some (s ∷ ss)
read_strings-step fuel n bs s rest ss h k = ground arith

read_caa-step :
    (flag : ℕ) (bs tag value : Bytes)
    → read_string bs ≡ some (tag, value)
    → read_caa (flag ∷ bs) ≡ some (flag, tag, value)
read_caa-step flag bs tag value h = ground arith

-- Cutting a text under the test of its length is taking its first bytes.
cut-take : (n : ℕ) (s : Bytes) → (if ltb n (length s) then take n s else s) ≡ take n s
cut-take n s = ground (arith, take_short n s)

-- The wire form of the strings of a TXT record reads back as the strings, each cut to its first
-- 255 bytes, with as much fuel as there are strings.
pub read_strings-txt_rdata :
    (ss : List Bytes) → read_strings (length ss) (txt_rdata ss) ≡ some (map (take 255) ss)
unfolding txt_rdata
read_strings-txt_rdata [] = refl
read_strings-txt_rdata (s ∷ ss) =
    let s' = take 255 s in
    rw (cut-take 255 s, txt_rdata)
      (read_strings-step (length ss) (length s' % 256) (s' ++ txt_rdata ss) s' (txt_rdata ss)
        (map (take 255) ss)
        (read_string-append s' (txt_rdata ss) (omega (arith, length-take 255 s)))
        (read_strings-txt_rdata ss))

-- The wire form of a CAA record reads back as its flags, the first 63 bytes of its tag, and its
-- value.
pub read_caa-caa_rdata : (r : Caa) → read_caa (caa_rdata r) ≡ some (r.flag, take 63 r.tag, r.value)
unfolding caa_rdata
read_caa-caa_rdata r =
    let tag = take 63 r.tag in
    rw (cut-take 63 r.tag, caa_rdata)
      (read_caa-step r.flag (length tag % 256 ∷ (tag ++ r.value)) tag r.value
        (read_string-append tag r.value (omega (arith, length-take 63 r.tag))))
