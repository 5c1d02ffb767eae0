-- ===== src/Dnssec/Chain/Validity.antt =====
-- When a chain of trust is taken as valid.
use zone_lint.Common.{
  to_lower, All-append, ℕ, Bytes, eqb, eqb_iff, any, All, Any, List, [], ◌∷◌, ◌++◌, true, some, ◌+◌,
  ◌≤◌, ◌≡◌, ◌↔◌, ◌⊎◌, inl, inr, refl, arith, Bool-cases, Option-cases,
}
use zone_lint.Common.Dict.{Dict, items, find, put, push}
use zone_lint.Dns.{Package}
use zone_lint.Findings.Severity.{equal_fold}
use zone_lint.Dnssec.Keys.{KeyInfo, RrsigInfo, DsInfo, signature_expired, signature_not_yet_valid}
use zone_lint.Dnssec.Chain.{
  ZoneKeys, ChainResult, Hashes, merge, has_ds, apex_name, compute_ds_digest, key_rdata, ds_matches,
  verify_ds_matches, check_lifetime, check_lifetimes, validate_chain, signed_by, signed_in, in_zone,
}

-- The time lies within the lifetime of the signature.
abbrev pub IsFresh : ℕ → RrsigInfo → Type 0
IsFresh now sig = (sig.inception ≤ now) × (now ≤ sig.expiration)

check_lifetimes_lem :
    (now i : ℕ) (sigs : List RrsigInfo) (res : ChainResult)
    → (((check_lifetimes now i sigs res).valid ≡ true)
        ↔ ((res.valid ≡ true) × All (IsFresh now) sigs))
      × ((check_lifetimes now i sigs res).ds_matches ≡ res.ds_matches)
unfolding check_lifetimes check_lifetime signature_expired signature_not_yet_valid
check_lifetimes_lem now i [] res = ground arith
check_lifetimes_lem now i (sig ∷ sigs) res =
    ground (arith, check_lifetimes_lem now (i + 1) sigs (check_lifetime now i sig res))

-- The digest of the key, under the name of the zone, is the digest of the DS.
abbrev pub Matches : Hashes → Package → Bytes → DsInfo → KeyInfo → Type 0
Matches hashes pkg apex d k =
    compute_ds_digest hashes pkg d.digest_type apex (key_rdata k) ≡ some d.digest

ds_matches-Matches :
    (hashes : Hashes) (pkg : Package) (apex : Bytes) (d : DsInfo) (k : KeyInfo)
    → (ds_matches hashes pkg apex d k ≡ true) ↔ Matches hashes pkg apex d k
unfolding ds_matches
ds_matches-Matches hashes pkg apex d k =
    elim (Option-cases (compute_ds_digest hashes pkg d.digest_type apex (key_rdata k))) [
      | inl e ↦ rw (e, ds_matches) (λ h. absurd (cc), λ h. absurd (cc))
      | inr (digest, e) ↦ rw (e, ds_matches) (ground (arith, eqb_iff digest d.digest))
    ]

any_keys_iff :
    (hashes : Hashes) (pkg : Package) (apex : Bytes) (d : DsInfo) (keys : List KeyInfo)
    → (any (ds_matches hashes pkg apex d) keys ≡ true) ↔ Any (Matches hashes pkg apex d) keys
any_keys_iff hashes pkg apex d [] = ground arith
any_keys_iff hashes pkg apex d (k ∷ keys) =
    ground (arith, ds_matches-Matches hashes pkg apex d k, any_keys_iff hashes pkg apex d keys)

any_dss_iff :
    (hashes : Hashes) (pkg : Package) (apex : Bytes) (keys : List KeyInfo) (dss : List DsInfo)
    → (any (λ d. any (ds_matches hashes pkg apex d) keys) dss ≡ true)
      ↔ Any (λ d. Any (Matches hashes pkg apex d) keys) dss
any_dss_iff hashes pkg apex keys [] = ground arith
any_dss_iff hashes pkg apex keys (d ∷ dss) =
    ground (arith, any_keys_iff hashes pkg apex d keys, any_dss_iff hashes pkg apex keys dss)

-- The DS set of the parent, at the apex, has an entry whose digest is that of a key of the zone
-- at the apex. Key tag and algorithm are not compared.
abbrev pub HasAnchor : Hashes → Package → ZoneKeys → ZoneKeys → Type 0
HasAnchor hashes pkg anchor zone =
    Any (λ d. Any (Matches hashes pkg (apex_name zone) d) (items (apex_name zone) zone.dnskeys))
      (items (apex_name zone) anchor.dss)

-- A chain is taken as valid exactly if the time lies within the lifetime of every signature, and
-- some DS of the parent at the apex has the digest of a key of the zone there, or the zone's own
-- data or the parent's has no DS at all, even where the zone has keys.
pub validate_chain_iff :
    (hashes : Hashes) (pkg : Package) (anchor zone : ZoneKeys) (now : ℕ)
    → ((validate_chain hashes pkg anchor zone now).valid ≡ true) ↔ (
        All (IsFresh now) (merge zone.rrsigs)
        × (HasAnchor hashes pkg anchor zone ⊎ ((zone.dss ≡ []) ⊎ (anchor.dss ≡ []))))
unfolding validate_chain verify_ds_matches has_ds
validate_chain_iff hashes pkg anchor zone now =
    let apex = apex_name zone in
    let start : ChainResult = record {
      valid = true;
      broken_at = [];
      reason = [];
      ds_matches = verify_ds_matches hashes pkg anchor zone;
      expired_sigs = [];
      not_yet_sigs = [];
      deprecated_sigs = [];
    } in
    ground (
      arith,
      check_lifetimes_lem now 0 (merge zone.rrsigs) start,
      any_dss_iff hashes pkg apex (items apex zone.dnskeys) (items apex anchor.dss),
    )

-- Every signature of the map is signed by the apex, up to case.
abbrev pub SignedBy : Bytes → Dict (List RrsigInfo) → Type 0
SignedBy apex = All (λ e. All (λ s. equal_fold s.signer_name apex ≡ true) e.1)

SignedBy-items :
    (apex name : Bytes) (m : Dict (List RrsigInfo))
    → SignedBy apex m
    → All (λ s. equal_fold s.signer_name apex ≡ true) (items name m)
unfolding items find
SignedBy-items apex name [] h = tt
SignedBy-items apex name ((n, ss) ∷ m) h = elim (Bool-cases (eqb n name)) [
  | inl e ↦ rw (e, items) (h.0)
  | inr e ↦ rw (e, items) (SignedBy-items apex name m h.1)
]

SignedBy-put :
    (apex name : Bytes) (ss : List RrsigInfo) (m : Dict (List RrsigInfo))
    → All (λ s. equal_fold s.signer_name apex ≡ true) ss
    → SignedBy apex m
    → SignedBy apex (put name ss m)
unfolding put
SignedBy-put apex name ss [] h k = (h, tt)
SignedBy-put apex name ss ((n, rs) ∷ m) h k = elim (Bool-cases (eqb n name)) [
  | inl e ↦ rw (e, put) (h, k.1)
  | inr e ↦ rw (e, put) (k.0, SignedBy-put apex name ss m h k.1)
]

SignedBy-push :
    (apex name : Bytes) (s : RrsigInfo) (m : Dict (List RrsigInfo))
    → equal_fold s.signer_name apex ≡ true
    → SignedBy apex m
    → SignedBy apex (push name s m)
unfolding push
SignedBy-push apex name s m e h =
    SignedBy-put apex name (items name m ++ s ∷ []) m
      (All-append (λ r. equal_fold r.signer_name apex ≡ true) (items name m) (s ∷ [])
        (SignedBy-items apex name m h) (e, tt))
      h

signed_by-SignedBy :
    (apex name : Bytes) (ss : List RrsigInfo) (out : Dict (List RrsigInfo))
    → SignedBy apex out
    → SignedBy apex (signed_by apex name ss out)
unfolding signed_by
signed_by-SignedBy apex name [] out h = h
signed_by-SignedBy apex name (s ∷ ss) out h = elim (Bool-cases (equal_fold s.signer_name apex)) [
  | inl e ↦
      rw (e, signed_by)
        (signed_by-SignedBy apex name ss (push name s out) (SignedBy-push apex name s out e h))
  | inr e ↦ rw (e, signed_by) (signed_by-SignedBy apex name ss out h)
]

signed_in-SignedBy :
    (apex : Bytes) (m out : Dict (List RrsigInfo))
    → SignedBy apex out
    → SignedBy apex (signed_in apex m out)
unfolding signed_in
signed_in-SignedBy apex [] out h = h
signed_in-SignedBy apex ((name, ss) ∷ m) out h =
    signed_in-SignedBy apex m (signed_by apex name ss out) (signed_by-SignedBy apex name ss out h)

-- InZone leaves only signatures whose signer is the zone, up to case, and keeps the keys and the
-- DS records as they are.
pub in_zone-SignedBy :
    (pkg : Package) (z : ZoneKeys) (zone : Bytes)
    → SignedBy (pkg.fqdn (to_lower zone)) (in_zone pkg z zone).rrsigs
      × (((in_zone pkg z zone).dnskeys ≡ z.dnskeys) × ((in_zone pkg z zone).dss ≡ z.dss))
unfolding in_zone
in_zone-SignedBy pkg z zone =
    (signed_in-SignedBy (pkg.fqdn (to_lower zone)) z.rrsigs [] tt, (refl, refl))
