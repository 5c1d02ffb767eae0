-- ===== src/Dnssec/Signed/Canonical.antt =====
-- The signed octets of an RRset depend on its set of RDATA only.
use zone_lint.Common.{
  Bytes, eqb, eqb_iff, List, [], ◌∷◌, ◌++◌, Bool, false, ◌||◌, Option, none, some, ◌≡◌, sym, ap,
  ◌∙◌, arith, Option-cases, Bool-cases, inl, inr,
}
use zone_lint.Common.Dict.{member, member-append, IsNodup, IsNodup-snoc}
use zone_lint.Common.Nodup.{IsNodup-Perm}
use zone_lint.Common.Order.{compare_text, compare_text-IsOrder, compare_text-eq}
use zone_lint.Common.Sort.{sort_by-eq_of_perm}
use zone_lint.Dns.{Rr, Package, Decoders}
use zone_lint.Dns.Rdata.{name_octets, rr_data}
use zone_lint.Dnssec.Keys.{RrsigInfo}
use zone_lint.Dnssec.Signed.{signed_owner, canon_onto, signed_records, signed_data}

-- Whether a record of the RRset has these octets as its RDATA.
abbrev pub is_data : Option Bytes → Bytes → Bool
is_data none rd = false
is_data (some x) rd = eqb x rd

unfoldable pub has_data : Decoders → Package → List Rr → Bytes → Bool
has_data dec pkg [] rd = false
has_data dec pkg (rr ∷ rrs) rd = is_data (rr_data dec pkg rr) rd || has_data dec pkg rrs rd

member-canon_onto :
    (dec : Decoders) (pkg : Package) (rrs : List Rr) (canon : List Bytes) (k : Bytes)
    → member k (canon_onto dec pkg rrs canon) ≡ (member k canon || has_data dec pkg rrs k)
unfolding canon_onto has_data member
member-canon_onto dec pkg [] canon k = ground arith
member-canon_onto dec pkg (rr ∷ rrs) canon k = elim (Option-cases (rr_data dec pkg rr)) [
  | inl e ↦ rw (e, canon_onto, has_data) (member-canon_onto dec pkg rrs canon k)
  | inr (rd, e) ↦ elim (Bool-cases (member rd canon)) [
    | inl m ↦
        rw (e, canon_onto, has_data, m)
          (ground (arith, member-canon_onto dec pkg rrs canon k, eqb_iff rd k))
    | inr m ↦
        rw (e, canon_onto, has_data, m)
          (ground (
            arith,
            member-canon_onto dec pkg rrs (canon ++ rd ∷ []) k,
            member-append k canon (rd ∷ []),
          ))
  ]
]

canon_onto-IsNodup :
    (dec : Decoders) (pkg : Package) (rrs : List Rr) (canon : List Bytes)
    → IsNodup canon
    → IsNodup (canon_onto dec pkg rrs canon)
unfolding canon_onto
canon_onto-IsNodup dec pkg [] canon d = d
canon_onto-IsNodup dec pkg (rr ∷ rrs) canon d = elim (Option-cases (rr_data dec pkg rr)) [
  | inl e ↦ rw (e, canon_onto) (canon_onto-IsNodup dec pkg rrs canon d)
  | inr (rd, e) ↦ elim (Bool-cases (member rd canon)) [
    | inl m ↦ rw (e, canon_onto, m) (canon_onto-IsNodup dec pkg rrs canon d)
    | inr m ↦
        rw (e, canon_onto, m)
          (canon_onto-IsNodup dec pkg rrs (canon ++ rd ∷ []) (IsNodup-snoc rd canon m d))
  ]
]

-- Two lists of records with the same set of RDATA have the same signed octets, whatever the
-- order of the records and however often each of them stands there.
pub signed_data-has_data :
    (dec : Decoders) (pkg : Package) (sig : RrsigInfo) (owner : Bytes) (rrs others : List Rr)
    → ((rd : Bytes) → has_data dec pkg rrs rd ≡ has_data dec pkg others rd)
    → signed_data dec pkg sig owner rrs ≡ signed_data dec pkg sig owner others
unfolding signed_data member
signed_data-has_data dec pkg sig owner rrs others h =
    let same : (k : Bytes)
        → member k (canon_onto dec pkg rrs []) ≡ member k (canon_onto dec pkg others []) =
      λ k.
        member-canon_onto dec pkg rrs [] k ∙ (h k ∙ sym (member-canon_onto dec pkg others [] k)) in
    ap
      (λ canon.
        sig.raw_rdata ++ signed_records (name_octets pkg (signed_owner pkg sig owner)) sig canon)
      (sort_by-eq_of_perm compare_text compare_text-IsOrder compare_text-eq (
        IsNodup-Perm (canon_onto dec pkg rrs []) (canon_onto dec pkg others [])
          (canon_onto-IsNodup dec pkg rrs [] tt) (canon_onto-IsNodup dec pkg others [] tt) same))
