-- ===== src/Dnssec/Presence/Reported.antt =====
-- When the presence check is silent.
use zone_lint.Common.{ℕ, Bytes, append-nil_iff, All, List, [], ◌∷◌, ◌≡◌, ◌≢◌, ◌↔◌, arith}
use zone_lint.Dns.{Package}
use zone_lint.Dnssec.{is_deprecated}
use zone_lint.Dnssec.Keys.{RrsigInfo, signature_expired, signature_not_yet_valid}
use zone_lint.Dnssec.Chain.{ZoneKeys, has_dnskey, has_rrsig, merge}
use zone_lint.Dnssec.Chain.Validity.{IsFresh}
use zone_lint.Dnssec.Presence.{check_sig, check_sigs, check_zone}

-- The time lies within the lifetime and the algorithm is not deprecated: neither 5 nor 7.
abbrev pub IsSound : ℕ → RrsigInfo → Type 0
IsSound now sig = IsFresh now sig × ((sig.algorithm ≢ 5) × (sig.algorithm ≢ 7))

check_sig-nil :
    (pkg : Package) (zone : Bytes) (now : ℕ) (sig : RrsigInfo)
    → (check_sig pkg zone now sig ≡ []) ↔ IsSound now sig
unfolding check_sig signature_expired signature_not_yet_valid is_deprecated
check_sig-nil pkg zone now sig = ground arith

check_sigs-nil :
    (pkg : Package) (zone : Bytes) (now : ℕ) (sigs : List RrsigInfo)
    → (check_sigs pkg zone now sigs ≡ []) ↔ All (IsSound now) sigs
unfolding check_sigs
check_sigs-nil pkg zone now [] = ground arith
check_sigs-nil pkg zone now (sig ∷ sigs) = ground (
  arith,
  append-nil_iff (check_sig pkg zone now sig) (check_sigs pkg zone now sigs),
  check_sig-nil pkg zone now sig,
  check_sigs-nil pkg zone now sigs,
)

-- The check is silent exactly if the zone has both keys and signatures or neither, and every
-- signature is within its lifetime and of an algorithm other than 5 and 7, the deprecated ones.
-- The DS records of the zone play no part.
pub check_zone-nil_iff :
    (pkg : Package) (zone : Bytes) (zk : ZoneKeys) (now : ℕ)
    → (check_zone pkg zone zk now ≡ [])
      ↔ (((zk.dnskeys ≡ []) ↔ (zk.rrsigs ≡ [])) × All (IsSound now) (merge zk.rrsigs))
unfolding check_zone has_dnskey has_rrsig
check_zone-nil_iff pkg zone zk now = ground (arith, check_sigs-nil pkg zone now (merge zk.rrsigs))
