-- ===== src/Dnssec/Keys.antt =====
-- internal/dnssec/parse.go and helpers.go: decoding the records DNSKEY, RRSIG and DS. The
-- decoders of encoding/base64 and encoding/hex, and the test that a point lies on a curve, are
-- parameters (`Codec`).
pub mod Rsa
use zone_lint.Common.{
  ℕ, Bytes, length, take, drop, get_or, List, [], ◌∷◌, ◌++◌, Bool, true, false, ◌||◌, not, Option,
  none, some, ◌+◌, ◌*◌, ◌-◌, ◌/◌, ◌==◌, leb, ltb, if◌then◌else◌,
}
use zone_lint.Dns.{Decoders, Dnskey, Ds, Rrsig, Package}
use zone_lint.Dns.Rdata.{rrsig_head, name_octets}
use zone_lint.Dnssec.{rsa_sha1, rsa_sha256, rsa_sha512, ecdsa_p256, ecdsa_p384, ed25519, key_tag}

pub record Codec : Type 0 where
  pub decoders : Decoders
  pub on_curve : ℕ → Bytes → Bool

-- trimNewlines
unfoldable pub trim_newlines : Bytes → Bytes
trim_newlines [] = []
trim_newlines (c ∷ s) = let rest = trim_newlines s in if c == 10 || c == 13 then rest else c ∷ rest

-- decodeBase64
unfoldable pub decode_base64 : Codec → Bytes → Option Bytes
decode_base64 codec [] = some []
decode_base64 codec (c ∷ s) =
    let trimmed = trim_newlines (c ∷ s) in
    elim (codec.decoders.std_base64 trimmed) [
      | some b ↦ some b
      | none ↦ codec.decoders.raw_base64 trimmed
    ]

-- decodeHex
unfoldable pub decode_hex : Codec → Bytes → Option Bytes
decode_hex codec [] = some []
decode_hex codec (c ∷ s) = codec.decoders.hex (trim_newlines (c ∷ s))

-- big.Int.SetBytes: the bytes as a number, most significant first.
unfoldable pub be_value_onto : ℕ → Bytes → ℕ
be_value_onto n [] = n
be_value_onto n (b ∷ bs) = be_value_onto (n * 256 + b) bs

unfoldable pub be_value : Bytes → ℕ
unfolding be_value_onto
be_value = be_value_onto 0

-- The three shapes of a crypto.PublicKey.
pub data PublicKey : Type 0 where
  ed25519_key : Bytes → PublicKey
  ecdsa_key : ℕ → Bytes → PublicKey
  rsa_key : ℕ → ℕ → PublicKey

-- One INTEGER of parseDERRSA, read at `off`: its bytes and the offset behind them. The code takes
-- `der[off-2]` for the length after it has moved `off` by 2, which is the tag.
unfoldable pub der_integer : Bytes → ℕ → Option (Bytes × ℕ)
der_integer der off =
    if leb (length der) (off + 2) || not (get_or der off 0 == 2)
    then none
    else let off' = off + 2 in
      let len = get_or der (off' - 2) 0 in
      if len == 0
      then none
      else if ltb (length der) (off' + len)
      then none
      else some (take len (drop off' der), off' + len)

-- parseDERRSA: the modulus and the exponent.
unfoldable pub parse_der_rsa : Bytes → Option (ℕ × ℕ)
parse_der_rsa der =
    if ltb (length der) 4
    then none
    else if leb (length der) 2 || not (get_or der 0 0 == 48)
    then none
    else elim (der_integer der 2) [
      | none ↦ none
      | some (mod_bytes, off) ↦ elim (der_integer der off) [
        | none ↦ none
        | some (exp_bytes, _) ↦
            let modulus = be_value mod_bytes in
            let exponent = be_value exp_bytes in
            if modulus == 0 || exponent == 0 then none else some (modulus, exponent)
      ]
    ]

-- curveKey, with the size of the curve in bits.
unfoldable pub curve_key : Codec → ℕ → Bytes → Option PublicKey
curve_key codec bits key =
    if not (length key == (bits + 7) / 8 * 2)
    then none
    else if codec.on_curve bits (4 ∷ key)
    then some (ecdsa_key bits key)
    else none

-- rsaKey
unfoldable pub rsa_public_key : Bytes → Option PublicKey
rsa_public_key key = elim (parse_der_rsa key) [ none ↦ none | some (n, e) ↦ some (rsa_key n e) ]

-- pubkeyFromAlgorithm
unfoldable pub pubkey_from_algorithm : Codec → ℕ → Bytes → Option PublicKey
pubkey_from_algorithm codec algo key =
    if algo == ed25519
    then if not (length key == 32) then none else some (ed25519_key key)
    else if algo == ecdsa_p256
    then curve_key codec 256 key
    else if algo == ecdsa_p384
    then curve_key codec 384 key
    else if algo == rsa_sha1 || (algo == rsa_sha256 || algo == rsa_sha512)
    then rsa_public_key key
    else none

pub record KeyInfo : Type 0 where
  pub flags : ℕ
  pub protocol : ℕ
  pub algorithm : ℕ
  pub public_key : PublicKey
  pub key_bytes : Bytes
  pub key_tag : ℕ

-- ParseDNSKEY; every error is `none`.
unfoldable pub parse_dnskey : Codec → Dnskey → Option KeyInfo
parse_dnskey codec rr = elim (decode_base64 codec rr.public_key) [
  | none ↦ none
  | some key ↦
      if length key == 0 then none else elim (pubkey_from_algorithm codec rr.algorithm key) [
        | none ↦ none
        | some pub_key ↦ some (record {
          flags = rr.flags;
          protocol = rr.protocol;
          algorithm = rr.algorithm;
          public_key = pub_key;
          key_bytes = key;
          key_tag = key_tag rr.flags rr.protocol rr.algorithm key;
        })
      ]
]

-- RRSIGInfo
pub record RrsigInfo : Type 0 where
  pub type_covered : ℕ
  pub algorithm : ℕ
  pub labels : ℕ
  pub original_ttl : ℕ
  pub expiration : ℕ
  pub inception : ℕ
  pub key_tag : ℕ
  pub signer_name : Bytes
  pub raw_signature : Bytes
  pub raw_rdata : Bytes

-- sigRDataNoSig
unfoldable pub sig_rdata_no_sig : Package → Rrsig → Bytes
sig_rdata_no_sig pkg rr = rrsig_head rr ++ name_octets pkg rr.signer_name

-- ParseRRSIG
unfoldable pub parse_rrsig : Codec → Package → Rrsig → RrsigInfo
parse_rrsig codec pkg rr =
    let sig : Bytes = elim (decode_base64 codec rr.signature) [
      | some s ↦ s
      | none ↦ rr.signature
    ] in
    record {
      type_covered = rr.type_covered;
      algorithm = rr.algorithm;
      labels = rr.labels;
      original_ttl = rr.orig_ttl;
      expiration = rr.expiration;
      inception = rr.inception;
      key_tag = rr.key_tag;
      signer_name = pkg.fqdn rr.signer_name;
      raw_signature = sig;
      raw_rdata = sig_rdata_no_sig pkg rr;
    }

-- SignatureExpired and SignatureNotYetValid, with the time in seconds of the Unix epoch.
unfoldable pub signature_expired : RrsigInfo → ℕ → Bool
signature_expired r now = ltb r.expiration now

unfoldable pub signature_not_yet_valid : RrsigInfo → ℕ → Bool
signature_not_yet_valid r now = ltb now r.inception

pub record DsInfo : Type 0 where
  pub key_tag : ℕ
  pub algorithm : ℕ
  pub digest_type : ℕ
  pub digest : Bytes

-- ParseDS: a digest that is not hexadecimal is left empty.
unfoldable pub parse_ds : Codec → Ds → DsInfo
parse_ds codec rr =
    let digest : Bytes = elim (decode_hex codec rr.digest) [ none ↦ [] | some d ↦ d ] in
    record {
      key_tag = rr.key_tag;
      algorithm = rr.algorithm;
      digest_type = rr.digest_type;
      digest = digest;
    }
