-- ===== src/Dnssec.antt =====
-- internal/dnssec/parse.go: the numbers of DNSSEC, the names of the algorithms and the key tag.
pub mod Tags
pub mod Keys
pub mod Chain
pub mod Signed
pub mod Verify
pub mod Presence
use zone_lint.Common.{
  ℕ, Bytes, text, List, [], ◌∷◌, ◌++◌, Bool, true, false, ◌||◌, not, ◌+◌, ◌*◌, ◌/◌, ◌%◌, ◌^◌, ◌==◌,
  if◌then◌else◌,
}

abbrev pub rsa_sha1 : ℕ
rsa_sha1 = 5

abbrev pub rsa_sha1_nsec3 : ℕ
rsa_sha1_nsec3 = 7

abbrev pub rsa_sha256 : ℕ
rsa_sha256 = 8

abbrev pub rsa_sha512 : ℕ
rsa_sha512 = 10

abbrev pub ecdsa_p256 : ℕ
ecdsa_p256 = 13

abbrev pub ecdsa_p384 : ℕ
ecdsa_p384 = 14

abbrev pub ed25519 : ℕ
ed25519 = 15

abbrev pub digest_sha1 : ℕ
digest_sha1 = 1

abbrev pub digest_sha256 : ℕ
digest_sha256 = 2

abbrev pub digest_sha512 : ℕ
digest_sha512 = 3

-- DeprecatedAlgorithms[algo]
unfoldable pub is_deprecated : ℕ → Bool
is_deprecated algo = algo == rsa_sha1 || algo == rsa_sha1_nsec3

-- AlgoName
unfoldable pub algo_name : ℕ → Bytes
algo_name algo =
    if algo == 1
    then text "RSAMD5"
    else if algo == rsa_sha256
    then text "RSA-SHA256"
    else if algo == rsa_sha512
    then text "RSA-SHA512"
    else if algo == ed25519
    then text "Ed25519"
    else if algo == ecdsa_p256
    then text "ECDSA-P256-SHA256"
    else if algo == ecdsa_p384
    then text "ECDSA-P384-SHA384"
    else text "UNKNOWN"

-- The RDATA of a DNSKEY: KeyTag builds it, and so does DNSKEYRData.
unfoldable pub dnskey_rdata : ℕ → ℕ → ℕ → Bytes → Bytes
dnskey_rdata flags protocol algo key = flags / 256 % 256 ∷ flags % 256 ∷ protocol ∷ algo ∷ key

-- The loop of KeyTag on the uint32 accumulator; `even` tells whether the index is even.
unfoldable pub tag_sum : Bool → Bytes → ℕ → ℕ
tag_sum even [] ac = ac
tag_sum even (b ∷ rdata) ac =
    tag_sum (not even) rdata ((ac + (if even then b * 256 else b)) % 2 ^ 32)

-- KeyTag
unfoldable pub key_tag : ℕ → ℕ → ℕ → Bytes → ℕ
unfolding tag_sum
key_tag flags protocol algo key =
    let ac = tag_sum true (dnskey_rdata flags protocol algo key) 0 in
    (ac + ac / 65536 % 65536) % 2 ^ 32 % 65536
