-- ===== src/Dnssec/Presence.antt =====
-- internal/dnssec/check.go: the findings on presence and lifetime.
pub mod Reported
use zone_lint.Common.{ℕ, Bytes, text, itoa, when, List, [], ◌∷◌, ◌++◌, Bool, ◌&&◌, not}
use zone_lint.Dns.{Package}
use zone_lint.Findings.{Finding, new}
use zone_lint.Findings.Catalog.{
  dnssec_no_dnskey, dnssec_no_rrsig, dnssec_sign_expired, dnssec_sign_not_yet,
  dnssec_deprecated_algo,
}
use zone_lint.Dnssec.{is_deprecated, algo_name}
use zone_lint.Dnssec.Keys.{RrsigInfo, signature_expired, signature_not_yet_valid}
use zone_lint.Dnssec.Chain.{ZoneKeys, has_dnskey, has_rrsig, merge}

-- The evidence of a finding on a lifetime.
unfoldable pub lifetime_evidence : Package → RrsigInfo → Bytes → ℕ → Bytes
lifetime_evidence pkg sig word time =
    text "typecovered="
    ++ (pkg.type_to_string sig.type_covered
        ++ (text " keytag=" ++ (itoa sig.key_tag ++ (word ++ itoa time))))

-- One round of the loop of CheckZone.
unfoldable pub check_sig : Package → Bytes → ℕ → RrsigInfo → List Finding
check_sig pkg zone now sig =
    when (signature_expired sig now) (
      new dnssec_sign_expired zone (text "An RRSIG signature has expired and is no longer valid.")
        (lifetime_evidence pkg sig (text " expired=") sig.expiration ∷ []))
    ++ (when (signature_not_yet_valid sig now) (
          new dnssec_sign_not_yet zone
            (text "An RRSIG signature is not yet valid (inception in the future).")
            (lifetime_evidence pkg sig (text " inception=") sig.inception ∷ []))
        ++ when (is_deprecated sig.algorithm) (
            new dnssec_deprecated_algo zone
              (text "The signature uses a deprecated algorithm (RFC 9037).")
              ((text "algorithm="
                  ++ (itoa sig.algorithm ++ (text " (" ++ (algo_name sig.algorithm ++ text ")"))))
                ∷ [])))

unfoldable pub check_sigs : Package → Bytes → ℕ → List RrsigInfo → List Finding
check_sigs pkg zone now [] = []
check_sigs pkg zone now (sig ∷ sigs) = check_sig pkg zone now sig ++ check_sigs pkg zone now sigs

-- CheckZone
unfoldable pub check_zone : Package → Bytes → ZoneKeys → ℕ → List Finding
check_zone pkg zone zk now =
    when (has_rrsig zk && not (has_dnskey zk)) (
      new dnssec_no_dnskey zone
        (text
          "The zone signs records (RRSIG present) but publishes no DNSKEY, so signatures cannot be validated.")
        [])
    ++ (when (has_dnskey zk && not (has_rrsig zk)) (
          new dnssec_no_rrsig zone
            (text "The zone publishes DNSKEY but does not sign its records; DNSSEC is incomplete.")
            [])
        ++ check_sigs pkg zone now (merge zk.rrsigs))
