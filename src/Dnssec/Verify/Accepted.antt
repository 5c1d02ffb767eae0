-- ===== src/Dnssec/Verify/Accepted.antt =====
-- Which signatures are accepted.
use zone_lint.Common.{
  ℕ, Bytes, length, take, drop, All, List, [], ◌∷◌, true, Option, none, some, ◌/◌, ◌%◌, ◌+◌, ◌<◌,
  ◌≡◌, ◌≢◌, ◌↔◌, ◌⊎◌, arith, Option-cases, inl, inr,
}
use zone_lint.Common.Dict.{items}
use zone_lint.Dns.{Package, Decoders}
use zone_lint.Dnssec.{rsa_sha1, rsa_sha256, rsa_sha512, ecdsa_p256, ecdsa_p384, ed25519}
use zone_lint.Dnssec.Keys.{PublicKey, ed25519_key, ecdsa_key, rsa_key, KeyInfo, RrsigInfo, be_value}
use zone_lint.Dnssec.Chain.{ZoneKeys, records_at}
use zone_lint.Dnssec.Signed.{signed_data}
use zone_lint.Dnssec.Verify.{
  Digest, sha1_digest, sha256_digest, sha512_digest, Primitives, concat_rdata, algo_hash,
  hash_digest, verify_ed25519, verify_ecdsa, bit_length, rsa_verify_pkcs1, verify_rsa, verify,
  key_for_key_tag, verify_covering, verify_from, verify_rrsig_for_type,
}

-- The signature has the length that its algorithm asks for, and the primitive of the algorithm
-- accepts it on the message.
abbrev pub Accepts : Primitives → RrsigInfo → ℕ → Bytes → PublicKey → Type 0
Accepts prim sig algo message (ed25519_key key) =
    (algo ≡ ed25519)
    × ((length sig.raw_signature ≡ 64) × (prim.ed25519_verify key message sig.raw_signature ≡ true))
Accepts prim sig algo message (ecdsa_key bits point) =
    let half = length sig.raw_signature / 2 in
    let r = be_value (take half sig.raw_signature) in
    let s = be_value (drop half sig.raw_signature) in
    ((0 < half) × (length sig.raw_signature % 2 ≡ 0))
    × (((algo ≡ ecdsa_p256)
          × (prim.ecdsa_verify bits point (prim.hashes.sha256 message) r s ≡ true))
        ⊎ ((algo ≡ ecdsa_p384)
            × (prim.ecdsa_verify bits point (prim.hashes.sha512 message) r s ≡ true)))
Accepts prim sig algo message (rsa_key n e) =
    let accepts : Digest → Bytes → Type 0 =
      λ h d. prim.rsa_verify n e h d sig.raw_signature ≡ true in
    (length sig.raw_signature ≡ bit_length n / 8)
    × (((algo ≡ rsa_sha1) × accepts sha1_digest (prim.hashes.sha1 message))
        ⊎ (((algo ≡ rsa_sha256) × accepts sha256_digest (prim.hashes.sha256 message))
            ⊎ ((algo ≡ rsa_sha512) × accepts sha512_digest (prim.hashes.sha512 message))))

module _ (prim : Primitives) (sig : RrsigInfo) (signed : List Bytes) where
  abbrev key_of : ℕ → ℕ → ℕ → PublicKey → Bytes → ℕ → KeyInfo
  key_of flags protocol algo public_key key_bytes key_tag = record {
    flags = flags;
    protocol = protocol;
    algorithm = algo;
    public_key = public_key;
    key_bytes = key_bytes;
    key_tag = key_tag;
  }

  verify-key_of :
      (flags protocol algo : ℕ) (public_key : PublicKey) (key_bytes : Bytes) (key_tag : ℕ)
      → (verify prim sig (key_of flags protocol algo public_key key_bytes key_tag) signed ≡ none)
        ↔ Accepts prim sig algo (concat_rdata signed) public_key
  unfolding verify verify_ed25519 verify_ecdsa verify_rsa rsa_verify_pkcs1 algo_hash hash_digest
  verify-key_of flags protocol algo (ed25519_key key) key_bytes key_tag = ground arith
  verify-key_of flags protocol algo (ecdsa_key bits point) key_bytes key_tag = ground arith
  verify-key_of flags protocol algo (rsa_key n e) key_bytes key_tag = ground arith

-- Verify returns no error exactly if the key is of the kind that its algorithm names, the
-- signature has the length that goes with it, and the primitive accepts the signature on the
-- concatenated data, hashed with SHA-256 for P-256, SHA-512 for P-384 and the named hash for RSA.
pub verify-none_iff :
    (prim : Primitives) (sig : RrsigInfo) (key : KeyInfo) (signed : List Bytes)
    → (verify prim sig key signed ≡ none)
      ↔ Accepts prim sig key.algorithm (concat_rdata signed) key.public_key
verify-none_iff prim sig key signed =
    verify-key_of prim sig signed key.flags key.protocol key.algorithm key.public_key key.key_bytes
      key.key_tag

-- No key stands for the tag of the signature, or the one that does accepts it on the message.
abbrev pub AcceptedUnder : Primitives → RrsigInfo → Bytes → Option KeyInfo → Type 0
AcceptedUnder prim sig message none = Unit
AcceptedUnder prim sig message (some key) = Accepts prim sig key.algorithm message key.public_key

-- The signature covers another type, or no key has its tag, or the first key that has it accepts
-- the signature on the octets of the records of that name and type.
abbrev pub IsVerified : Primitives → Decoders → Package → ZoneKeys → Bytes → ℕ → RrsigInfo → Type 0
IsVerified prim dec pkg zk name rtype sig =
    (sig.type_covered ≢ rtype)
    ⊎ AcceptedUnder prim sig
        (concat_rdata (signed_data dec pkg sig name (records_at name rtype zk) ∷ []))
        (key_for_key_tag zk sig.key_tag)

module _ (prim : Primitives) (dec : Decoders) (pkg : Package) (zk : ZoneKeys) (name : Bytes) where
  verify_covering-none_iff :
      (rtype : ℕ) (sig : RrsigInfo)
      → (verify_covering prim dec pkg zk name rtype sig ≡ none)
        ↔ IsVerified prim dec pkg zk name rtype sig
  unfolding verify_covering
  verify_covering-none_iff rtype sig = elim (Option-cases (key_for_key_tag zk sig.key_tag)) [
    | inl e ↦ rw (e, verify_covering) (ground arith)
    | inr (key, e) ↦
        let message = signed_data dec pkg sig name (records_at name rtype zk) in
        rw (e, verify_covering) (ground (arith, verify-none_iff prim sig key (message ∷ [])))
  ]

  verify_from-none_iff :
      (rtype i : ℕ) (sigs : List RrsigInfo)
      → (verify_from prim dec pkg zk name rtype i sigs ≡ none)
        ↔ All (IsVerified prim dec pkg zk name rtype) sigs
  unfolding verify_from
  verify_from-none_iff rtype i [] = ground arith
  verify_from-none_iff rtype i (sig ∷ sigs) =
      elim (Option-cases (verify_covering prim dec pkg zk name rtype sig)) [
        | inl e ↦
            rw (e, verify_from)
              (ground (
                arith,
                verify_covering-none_iff rtype sig,
                verify_from-none_iff rtype (i + 1) sigs,
              ))
        | inr (err, e) ↦ rw (e, verify_from) (ground (arith, verify_covering-none_iff rtype sig))
      ]

-- VerifyRRSIGForType finds no failing signature exactly if every signature of the name covers
-- another type, or has no key with its tag in the response, or is accepted by Verify under the
-- first such key, on the canonical octets of the records of that name and type.
pub verify_rrsig_for_type-none_iff :
    (prim : Primitives) (dec : Decoders) (pkg : Package) (zk : ZoneKeys) (name : Bytes) (rtype : ℕ)
    → (verify_rrsig_for_type prim dec pkg zk name rtype ≡ none)
      ↔ All (IsVerified prim dec pkg zk name rtype) (items name zk.rrsigs)
unfolding verify_rrsig_for_type
verify_rrsig_for_type-none_iff prim dec pkg zk name rtype =
    verify_from-none_iff prim dec pkg zk name rtype 0 (items name zk.rrsigs)
