-- ===== src/Dnssec/Signed.antt =====
-- internal/dnssec/chain.go: signedData, the octets that a signature covers (RFC 4035 §5.3.2).
pub mod Canonical
use zone_lint.Common.{
  ℕ, Bytes, text, eqb, has_suffix, split, join, length, take, drop, List, [], ◌∷◌, ◌++◌, Option,
  none, some, ◌-◌, ltb, if◌then◌else◌,
}
use zone_lint.Common.Dict.{member}
use zone_lint.Common.Order.{compare_text}
use zone_lint.Common.Sort.{sort_by}
use zone_lint.Dns.{Rr, Package, Decoders}
use zone_lint.Dns.Codes.{class_inet}
use zone_lint.Dns.Rdata.{be16, be32, name_octets, rr_data}
use zone_lint.Dnssec.Keys.{RrsigInfo}

-- strings.TrimSuffix(dns.Fqdn(fqdn), ".")
unfoldable pub bare_name : Package → Bytes → Bytes
bare_name pkg fqdn =
    let n = pkg.fqdn fqdn in if has_suffix n (text ".") then take (length n - 1) n else n

-- countLabels
unfoldable pub count_labels : Package → Bytes → ℕ
count_labels pkg fqdn = let n = bare_name pkg fqdn in if eqb n [] then 0 else length (split b'.' n)

-- lastLabels
unfoldable pub last_labels : Package → Bytes → ℕ → List Bytes
last_labels pkg fqdn n =
    let labels = split b'.' (bare_name pkg fqdn) in
    let kept : ℕ = if ltb (length labels) n then length labels else n in
    drop (length labels - kept) labels

-- The owner that is signed: a wildcard where the signature counts fewer labels.
unfoldable pub signed_owner : Package → RrsigInfo → Bytes → Bytes
signed_owner pkg sig owner =
    if ltb sig.labels (count_labels pkg owner)
    then text "*." ++ (join (text ".") (last_labels pkg owner sig.labels) ++ text ".")
    else owner

-- The loop over the RRset: `seenRD` and `canon` hold the same octets.
unfoldable pub canon_onto : Decoders → Package → List Rr → List Bytes → List Bytes
canon_onto dec pkg [] canon = canon
canon_onto dec pkg (rr ∷ rrs) canon = canon_onto dec pkg rrs (elim (rr_data dec pkg rr) [
  | none ↦ canon
  | some rd ↦ if member rd canon then canon else canon ++ rd ∷ []
])

-- The loop over the sorted RDATA; the length is cut to 16 bits.
unfoldable pub signed_records : Bytes → RrsigInfo → List Bytes → Bytes
signed_records owner_wire sig [] = []
signed_records owner_wire sig (rd ∷ canon) =
    owner_wire
    ++ (be16 sig.type_covered
        ++ (be16 class_inet
            ++ (be32 sig.original_ttl
                ++ (be16 (length rd) ++ (rd ++ signed_records owner_wire sig canon)))))

-- signedData. The RDATA are distinct, so sort.Slice has one result.
unfoldable pub signed_data : Decoders → Package → RrsigInfo → Bytes → List Rr → Bytes
signed_data dec pkg sig owner rrs =
    sig.raw_rdata
    ++ signed_records (name_octets pkg (signed_owner pkg sig owner)) sig
        (sort_by compare_text (canon_onto dec pkg rrs []))
