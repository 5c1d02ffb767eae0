-- ===== src/Dnssec/Verify.antt =====
-- internal/dnssec/parse.go and chain.go: the verification of signatures. The checks of
-- crypto/ed25519, crypto/ecdsa and crypto/rsa are parameters (`Primitives`).
pub mod Accepted
use zone_lint.Common.{
  ℕ, zero, suc, Bytes, length, take, drop, List, [], ◌∷◌, ◌++◌, Bool, true, false, ◌||◌, not,
  Option, none, some, ◌/◌, ◌%◌, ◌+◌, ◌==◌, ltb, if◌then◌else◌,
}
use zone_lint.Common.Dict.{Dict, items}
use zone_lint.Dns.{Package, Decoders}
use zone_lint.Dnssec.{rsa_sha1, rsa_sha256, rsa_sha512, ecdsa_p256, ecdsa_p384, ed25519}
use zone_lint.Dnssec.Keys.{PublicKey, ed25519_key, ecdsa_key, rsa_key, KeyInfo, RrsigInfo, be_value}
use zone_lint.Dnssec.Chain.{ZoneKeys, Hashes, records_at}
use zone_lint.Dnssec.Signed.{signed_data}

-- crypto.Hash
pub data Digest : Type 0 where
  sha1_digest : Digest
  sha256_digest : Digest
  sha512_digest : Digest

-- ed25519.Verify on key, message and signature; ecdsa.Verify on the curve's size, the point, the
-- hash, r and s; rsa.VerifyPKCS1v15 on modulus, exponent, kind of hash, hash and signature.
pub record Primitives : Type 0 where
  pub hashes : Hashes
  pub ed25519_verify : Bytes → Bytes → Bytes → Bool
  pub ecdsa_verify : ℕ → Bytes → Bytes → ℕ → ℕ → Bool
  pub rsa_verify : ℕ → ℕ → Digest → Bytes → Bytes → Bool

-- The errors of Verify; the error of rsa.VerifyPKCS1v15 is `rsa_rejected`.
pub data VerifyError : Type 0 where
  bad_signature : VerifyError
  key_mismatch : VerifyError
  sig_invalid : VerifyError
  unsupported_algo : VerifyError
  rsa_rejected : VerifyError

-- concatRData
unfoldable pub concat_rdata : List Bytes → Bytes
concat_rdata [] = []
concat_rdata (r ∷ rs) = r ++ concat_rdata rs

-- algoHash
unfoldable pub algo_hash : ℕ → Digest
algo_hash algo =
    if algo == rsa_sha1
    then sha1_digest
    else if algo == rsa_sha256
    then sha256_digest
    else if algo == rsa_sha512
    then sha512_digest
    else sha256_digest

-- hashDigest
unfoldable pub hash_digest : Hashes → Digest → Bytes → Bytes
hash_digest hashes sha1_digest s = hashes.sha1 s
hash_digest hashes sha256_digest s = hashes.sha256 s
hash_digest hashes sha512_digest s = hashes.sha512 s

-- verifyEd25519; `none` is a nil error.
unfoldable pub verify_ed25519 : Primitives → RrsigInfo → PublicKey → List Bytes → Option VerifyError
verify_ed25519 prim sig (ed25519_key key) signed =
    if not (length sig.raw_signature == 64)
    then some bad_signature
    else if not (prim.ed25519_verify key (concat_rdata signed) sig.raw_signature)
    then some sig_invalid
    else none
verify_ed25519 prim sig (ecdsa_key _ _) signed = some key_mismatch
verify_ed25519 prim sig (rsa_key _ _) signed = some key_mismatch

-- verifyECDSA: the signature is r and s, one half each.
unfoldable pub verify_ecdsa :
    Primitives → RrsigInfo → PublicKey → List Bytes → Digest → Option VerifyError
verify_ecdsa prim sig (ecdsa_key bits point) signed h =
    let half = length sig.raw_signature / 2 in
    if ltb half 1 || not (length sig.raw_signature % 2 == 0)
    then some bad_signature
    else if not (
        prim.ecdsa_verify bits point (hash_digest prim.hashes h (concat_rdata signed))
          (be_value (take half sig.raw_signature)) (be_value (drop half sig.raw_signature)))
    then some sig_invalid
    else none
verify_ecdsa prim sig (ed25519_key _) signed h = some key_mismatch
verify_ecdsa prim sig (rsa_key _ _) signed h = some key_mismatch

-- big.Int.BitLen; a number has at most as many bits as its value.
unfoldable pub bit_length_on : ℕ → ℕ → ℕ
bit_length_on zero n = 0
bit_length_on (suc fuel) n = let rest = bit_length_on fuel (n / 2) in if n == 0 then 0 else rest + 1

unfoldable pub bit_length : ℕ → ℕ
bit_length n = bit_length_on n n

-- rsaVerifyPKCS1
unfoldable pub rsa_verify_pkcs1 : Primitives → ℕ → ℕ → Digest → Bytes → Bytes → Option VerifyError
rsa_verify_pkcs1 prim n e h d sig =
    if not (length sig == bit_length n / 8)
    then some bad_signature
    else if prim.rsa_verify n e h d sig
    then none
    else some rsa_rejected

-- verifyRSA
unfoldable pub verify_rsa :
    Primitives → RrsigInfo → PublicKey → List Bytes → Digest → Option VerifyError
verify_rsa prim sig (rsa_key n e) signed h =
    rsa_verify_pkcs1 prim n e h (hash_digest prim.hashes h (concat_rdata signed)) sig.raw_signature
verify_rsa prim sig (ed25519_key _) signed h = some key_mismatch
verify_rsa prim sig (ecdsa_key _ _) signed h = some key_mismatch

-- Verify. The source hashes with SHA-512 for the curve P-384.
unfoldable pub verify : Primitives → RrsigInfo → KeyInfo → List Bytes → Option VerifyError
verify prim sig key signed =
    if key.algorithm == ed25519
    then verify_ed25519 prim sig key.public_key signed
    else if key.algorithm == ecdsa_p256
    then verify_ecdsa prim sig key.public_key signed sha256_digest
    else if key.algorithm == ecdsa_p384
    then verify_ecdsa prim sig key.public_key signed sha512_digest
    else if key.algorithm == rsa_sha1
        || (key.algorithm == rsa_sha256 || key.algorithm == rsa_sha512)
    then verify_rsa prim sig key.public_key signed (algo_hash key.algorithm)
    else some unsupported_algo

-- keyForKeyTag and HasKeyForTag
unfoldable pub key_in : ℕ → List KeyInfo → Option KeyInfo
key_in tag [] = none
key_in tag (k ∷ ks) = if k.key_tag == tag then some k else key_in tag ks

unfoldable pub key_in_map : ℕ → Dict (List KeyInfo) → Option KeyInfo
key_in_map tag [] = none
key_in_map tag ((_, ks) ∷ m) = elim (key_in tag ks) [ some k ↦ some k | none ↦ key_in_map tag m ]

unfoldable pub key_for_key_tag : ZoneKeys → ℕ → Option KeyInfo
key_for_key_tag zk tag = key_in_map tag zk.dnskeys

unfoldable pub has_key_for_tag : ZoneKeys → ℕ → Bool
has_key_for_tag zk tag = elim (key_for_key_tag zk tag) [ some _ ↦ true | none ↦ false ]

-- One round of the loop of VerifyRRSIGForType: the result of Verify, nil where it is not called.
unfoldable pub verify_covering :
    Primitives → Decoders → Package → ZoneKeys → Bytes → ℕ → RrsigInfo → Option VerifyError
verify_covering prim dec pkg zk name rtype sig =
    if not (sig.type_covered == rtype) then none else elim (key_for_key_tag zk sig.key_tag) [
      | none ↦ none
      | some key ↦
          verify prim sig key (signed_data dec pkg sig name (records_at name rtype zk) ∷ [])
    ]

-- VerifyRRSIGForType: the index of the first signature that fails; `none` is -1.
unfoldable pub verify_from :
    Primitives → Decoders → Package → ZoneKeys → Bytes → ℕ → ℕ → List RrsigInfo → Option ℕ
verify_from prim dec pkg zk name rtype i [] = none
verify_from prim dec pkg zk name rtype i (sig ∷ sigs) =
    elim (verify_covering prim dec pkg zk name rtype sig) [
      | some _ ↦ some i
      | none ↦ verify_from prim dec pkg zk name rtype (i + 1) sigs
    ]

unfoldable pub verify_rrsig_for_type :
    Primitives → Decoders → Package → ZoneKeys → Bytes → ℕ → Option ℕ
verify_rrsig_for_type prim dec pkg zk name rtype =
    verify_from prim dec pkg zk name rtype 0 (items name zk.rrsigs)
