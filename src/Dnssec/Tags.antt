-- ===== src/Dnssec/Tags.antt =====
-- The key tag is the checksum of RFC 4034: no sum wraps around.
use zone_lint.Common.{
  ℕ, Bytes, text, length, All, [], ◌∷◌, Bool, true, false, not, ◌+◌, ◌*◌, ◌/◌, ◌%◌, ◌^◌, ◌≤◌, ◌<◌,
  ◌≡◌, ◌∙◌, arith, if◌then◌else◌,
}
use zone_lint.Dnssec.{is_deprecated, algo_name, dnskey_rdata, tag_sum, key_tag}

-- The sum of the bytes, those at even places as high bytes, without a bound.
abbrev pub checksum : Bool → Bytes → ℕ
checksum even [] = 0
checksum even (b ∷ rdata) = (if even then b * 256 else b) + checksum (not even) rdata

-- The values are bytes.
abbrev pub IsOctets : Bytes → Type 0
IsOctets = All (λ b. b < 256)

checksum-bound :
    (even : Bool) (rdata : Bytes) → IsOctets rdata → checksum even rdata ≤ 65280 * length rdata
checksum-bound even [] h = omega arith
checksum-bound true (b ∷ rdata) h = omega (arith, checksum-bound false rdata h.1, h.0)
checksum-bound false (b ∷ rdata) h = omega (arith, checksum-bound true rdata h.1, h.0)

small : (n : ℕ) → n < 2 ^ 32 → n % 2 ^ 32 ≡ n
small n h = omega arith

tag_sum-checksum :
    (even : Bool) (rdata : Bytes) (ac : ℕ)
    → ac + checksum even rdata < 2 ^ 32
    → tag_sum even rdata ac ≡ ac + checksum even rdata
unfolding tag_sum
tag_sum-checksum even [] ac h = omega arith
tag_sum-checksum true (b ∷ rdata) ac h =
    rw (small (ac + b * 256) (omega (arith, h)), tag_sum)
      (tag_sum-checksum false rdata (ac + b * 256) (omega (arith, h)) ∙ omega arith)
tag_sum-checksum false (b ∷ rdata) ac h =
    rw (small (ac + b) (omega (arith, h)), tag_sum)
      (tag_sum-checksum true rdata (ac + b) (omega (arith, h)) ∙ omega arith)

-- For flags of 16 bits, a protocol and an algorithm of one byte, and a key of at most 65531 bytes,
-- the key tag is the checksum of RFC 4034 computed without a bound on the sum: the 32-bit
-- accumulator of the code does not wrap around.
pub key_tag-checksum :
    (flags protocol algo : ℕ) (key : Bytes)
    → flags < 65536
    → protocol < 256
    → algo < 256
    → IsOctets key
    → length key ≤ 65531
    → let sum = checksum true (dnskey_rdata flags protocol algo key) in
      key_tag flags protocol algo key ≡ (sum + sum / 65536) % 65536
unfolding key_tag dnskey_rdata
key_tag-checksum flags protocol algo key f p a octets len =
    let rdata = dnskey_rdata flags protocol algo key in
    let bound = checksum-bound true rdata (omega arith, (omega arith, (p, (a, octets)))) in
    let below : checksum true rdata ≤ 65280 * 65535 = omega (arith, bound, len) in
    rw (tag_sum-checksum true rdata 0 (omega (arith, below)), key_tag) (omega (arith, below))

-- AlgoName answers UNKNOWN for every deprecated algorithm.
pub algo_name-is_deprecated :
    (algo : ℕ) → is_deprecated algo ≡ true → algo_name algo ≡ text "UNKNOWN"
unfolding is_deprecated algo_name
algo_name-is_deprecated algo h = ground arith
