-- ===== src/Dnssec/Chain.antt =====
-- internal/dnssec/chain.go: the DNSSEC records of a zone by name, and the chain of trust. A Go
-- map is walked in the order in which its names were added.
pub mod Validity
pub mod Covered
use zone_lint.Common.{
  ℕ, Bytes, text, eqb, to_lower, any, List, [], ◌∷◌, ◌++◌, Bool, true, false, ◌&&◌, ◌||◌, not,
  Option, none, some, ◌+◌, ◌==◌, if◌then◌else◌,
}
use zone_lint.Common.Dict.{Dict, items, find, put, push}
use zone_lint.Dns.{dnskey, ds, rrsig, Rr, Slot, Msg, Package}
use zone_lint.Dns.Rdata.{name_octets}
use zone_lint.Findings.Severity.{equal_fold}
use zone_lint.Dnssec.{digest_sha1, digest_sha256, digest_sha512, dnskey_rdata, is_deprecated}
use zone_lint.Dnssec.Keys.{
  Codec, KeyInfo, RrsigInfo, DsInfo, parse_dnskey, parse_rrsig, parse_ds, signature_expired,
  signature_not_yet_valid,
}

-- One name of ByType: its records by type.
abbrev pub Typed : Type 0
Typed = List (ℕ × List Rr)

-- m[t] of such a map, and m[t] = append(m[t], rr).
unfoldable pub typed_items : ℕ → Typed → List Rr
typed_items t [] = []
typed_items t ((u, rrs) ∷ m) = if u == t then rrs else typed_items t m

unfoldable pub typed_push : ℕ → Rr → Typed → Typed
typed_push t rr [] = (t, rr ∷ []) ∷ []
typed_push t rr ((u, rrs) ∷ m) =
    if u == t then (u, rrs ++ rr ∷ []) ∷ m else (u, rrs) ∷ typed_push t rr m

-- ZoneKeys
pub record ZoneKeys : Type 0 where
  pub dnskeys : Dict (List KeyInfo)
  pub rrsigs : Dict (List RrsigInfo)
  pub dss : Dict (List DsInfo)
  pub by_type : Dict Typed

-- ByType[name][rtype] and its extension by a record.
unfoldable pub records_at : Bytes → ℕ → ZoneKeys → List Rr
records_at name t zk = typed_items t (items name zk.by_type)

unfoldable pub add_record : Bytes → Rr → ZoneKeys → ZoneKeys
add_record name rr zk = record zk {
  by_type = put name (typed_push rr.header.rrtype rr (items name zk.by_type)) zk.by_type;
}

-- One round of the loop of Collect: the switch on the type of a record.
unfoldable pub collect_record : Codec → Package → Slot → ZoneKeys → ZoneKeys
collect_record codec pkg none out = out
collect_record codec pkg (some rr) out =
    let name = pkg.fqdn (to_lower rr.header.name) in
    let zk = add_record name rr out in
    elim rr.body [
      | dnskey r ↦ elim (parse_dnskey codec r) [
        | none ↦ zk
        | some k ↦ record zk { dnskeys = push name k zk.dnskeys }
      ]
      | rrsig r ↦ record zk { rrsigs = push name (parse_rrsig codec pkg r) zk.rrsigs }
      | ds r ↦ record zk { dss = push name (parse_ds codec r) zk.dss }
      | _ ↦ zk
    ]

unfoldable pub collect_section : Codec → Package → List Slot → ZoneKeys → ZoneKeys
collect_section codec pkg [] zk = zk
collect_section codec pkg (rr ∷ rest) zk =
    collect_section codec pkg rest (collect_record codec pkg rr zk)

-- Collect
unfoldable pub collect : Codec → Package → Msg → ZoneKeys
collect codec pkg resp = collect_section codec pkg resp.ns (
    collect_section codec pkg resp.answer
      (record { dnskeys = []; rrsigs = []; dss = []; by_type = [] }))

-- len(m) > 0
abbrev pub nonempty {ℓ} : {A : Type ℓ} → List A → Bool
nonempty [] = false
nonempty (x ∷ xs) = true

-- HasDNSKEY, HasRRSIG and HasDS
unfoldable pub has_dnskey : ZoneKeys → Bool
has_dnskey z = nonempty z.dnskeys

unfoldable pub has_rrsig : ZoneKeys → Bool
has_rrsig z = nonempty z.rrsigs

unfoldable pub has_ds : ZoneKeys → Bool
has_ds z = nonempty z.dss

-- mergeKeys, mergeSigs and allSigs.
unfoldable pub merge {ℓ} : {A : Type ℓ} → Dict (List A) → List A
merge [] = []
merge ((_, xs) ∷ m) = xs ++ merge m

-- apexName
unfoldable pub apex_with_keys : Dict (List DsInfo) → Dict (List KeyInfo) → Option Bytes
apex_with_keys [] keys = none
apex_with_keys ((name, _) ∷ m) keys = elim (find name keys) [
  | some _ ↦ some name
  | none ↦ apex_with_keys m keys
]

abbrev first_name : Dict (List DsInfo) → Bytes
first_name [] = []
first_name ((name, _) ∷ m) = name

unfoldable pub apex_name : ZoneKeys → Bytes
apex_name z = elim (apex_with_keys z.dss z.dnskeys) [ some name ↦ name | none ↦ first_name z.dss ]

-- The hash functions of crypto/sha1, sha256 and sha512, as parameters.
pub record Hashes : Type 0 where
  pub sha1 : Bytes → Bytes
  pub sha256 : Bytes → Bytes
  pub sha512 : Bytes → Bytes

-- ComputeDSDigest
unfoldable pub compute_ds_digest : Hashes → Package → ℕ → Bytes → Bytes → Option Bytes
compute_ds_digest hashes pkg digest_type owner rdata =
    let octets = name_octets pkg owner ++ rdata in
    if digest_type == digest_sha1
    then some (hashes.sha1 octets)
    else if digest_type == digest_sha256
    then some (hashes.sha256 octets)
    else if digest_type == digest_sha512
    then some (hashes.sha512 octets)
    else none

-- DNSKEYRData
unfoldable pub key_rdata : KeyInfo → Bytes
key_rdata k = dnskey_rdata k.flags k.protocol k.algorithm k.key_bytes

-- The test of verifyDSMatchesDNSKEY on one DS and one key.
unfoldable pub ds_matches : Hashes → Package → Bytes → DsInfo → KeyInfo → Bool
ds_matches hashes pkg apex d k =
    elim (compute_ds_digest hashes pkg d.digest_type apex (key_rdata k)) [
      | none ↦ false
      | some digest ↦ eqb digest d.digest
    ]

-- verifyDSMatchesDNSKEY: the loops end at the first match, and on an empty set they find none.
unfoldable pub verify_ds_matches : Hashes → Package → ZoneKeys → ZoneKeys → Bool
verify_ds_matches hashes pkg anchor zone =
    let apex = apex_name zone in
    let keys = items apex zone.dnskeys in
    any (λ d. any (ds_matches hashes pkg apex d) keys) (items apex anchor.dss)

-- ChainResult, but for the fields Keys and Sigs, which repeat the input.
pub record ChainResult : Type 0 where
  pub valid : Bool
  pub broken_at : Bytes
  pub reason : Bytes
  pub ds_matches : Bool
  pub expired_sigs : List ℕ
  pub not_yet_sigs : List ℕ
  pub deprecated_sigs : List ℕ

-- One round of the loop of ValidateChain over the signatures, at index i.
unfoldable pub check_lifetime : ℕ → ℕ → RrsigInfo → ChainResult → ChainResult
check_lifetime now i sig res =
    let expired : ChainResult =
      if signature_expired sig now
      then record res { expired_sigs = res.expired_sigs ++ i ∷ []; valid = false }
      else res in
    let not_yet : ChainResult =
      if signature_not_yet_valid sig now
      then record expired { not_yet_sigs = expired.not_yet_sigs ++ i ∷ []; valid = false }
      else expired in
    if is_deprecated sig.algorithm
    then record not_yet { deprecated_sigs = not_yet.deprecated_sigs ++ i ∷ [] }
    else not_yet

unfoldable pub check_lifetimes : ℕ → ℕ → List RrsigInfo → ChainResult → ChainResult
check_lifetimes now i [] res = res
check_lifetimes now i (sig ∷ sigs) res =
    check_lifetimes now (i + 1) sigs (check_lifetime now i sig res)

-- ValidateChain
unfoldable pub validate_chain : Hashes → Package → ZoneKeys → ZoneKeys → ℕ → ChainResult
validate_chain hashes pkg anchor zone now =
    let matches = verify_ds_matches hashes pkg anchor zone in
    let res = check_lifetimes now 0 (merge zone.rrsigs) (record {
      valid = true;
      broken_at = [];
      reason = [];
      ds_matches = matches;
      expired_sigs = [];
      not_yet_sigs = [];
      deprecated_sigs = [];
    }) in
    if not res.ds_matches && (has_ds zone && has_ds anchor)
    then record res {
      valid = false;
      reason = text "DS does not match any DNSKEY in zone";
      broken_at = text "parent DS / zone DNSKEY";
    }
    else res

-- The loop of InZone over the signatures of one name.
unfoldable pub signed_by :
    Bytes → Bytes → List RrsigInfo → Dict (List RrsigInfo) → Dict (List RrsigInfo)
signed_by apex name [] out = out
signed_by apex name (s ∷ ss) out =
    signed_by apex name ss (if equal_fold s.signer_name apex then push name s out else out)

unfoldable pub signed_in :
    Bytes → Dict (List RrsigInfo) → Dict (List RrsigInfo) → Dict (List RrsigInfo)
signed_in apex [] out = out
signed_in apex ((name, ss) ∷ m) out = signed_in apex m (signed_by apex name ss out)

-- InZone: the keys, the DS records and the records by type are kept as they are.
unfoldable pub in_zone : Package → ZoneKeys → Bytes → ZoneKeys
in_zone pkg z zone = record z { rrsigs = signed_in (pkg.fqdn (to_lower zone)) z.rrsigs [] }
