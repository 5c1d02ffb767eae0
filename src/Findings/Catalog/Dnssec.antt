-- ===== src/Findings/Catalog/Dnssec.antt =====
-- internal/findings/catalog.go: the rules of the groups DNSSEC.
use zone_lint.Common.{text, [], ◌∷◌, ◌++◌}
use zone_lint.Findings.{
  Category, Component, Rule, severity_high, severity_low, severity_medium, severity_pass,
}
use zone_lint.Findings.Urls.{rfc4034, rfc4035, rfc5155, rfc8020}

unfoldable pub dnssec_no_dnskey : Rule
dnssec_no_dnskey = record {
  id = text "DNS-DNSSEC-001";
  component = Component.dnssec;
  category = Category.weakness;
  severity = severity_high;
  title = text "RRSIG present without DNSKEY";
  recommendation = text "Publish DNSKEY records. Without DNSKEY, RRSIGs cannot be validated.";
  references = (rfc4034 ++ text "#section-2.1") ∷ (rfc4035 ++ text "#section-2.4") ∷ [];
}

unfoldable pub dnssec_no_rrsig : Rule
dnssec_no_rrsig = record {
  id = text "DNS-DNSSEC-002";
  component = Component.dnssec;
  category = Category.weakness;
  severity = severity_medium;
  title = text "DNSKEY present without RRSIG";
  recommendation =
      text
        "Sign the zone so DNSKEY records are covered by RRSIGs. Uncovered DNSKEY records cannot be validated.";
  references = (rfc4034 ++ text "#section-2.2") ∷ rfc4035 ∷ [];
}

unfoldable pub dnssec_sign_expired : Rule
dnssec_sign_expired = record {
  id = text "DNS-DNSSEC-003";
  component = Component.dnssec;
  category = Category.weakness;
  severity = severity_high;
  title = text "Expired signature";
  recommendation =
      text "Re-sign the zone before signatures expire. Expired signatures break validation.";
  references = (rfc4035 ++ text "#section-3.1.3.1") ∷ [];
}

unfoldable pub dnssec_sign_not_yet : Rule
dnssec_sign_not_yet = record {
  id = text "DNS-DNSSEC-004";
  component = Component.dnssec;
  category = Category.weakness;
  severity = severity_medium;
  title = text "Not-yet-valid signature";
  recommendation =
      text
        "Ensure signature inception times are correct. A future inception time causes transient validation failures.";
  references = (rfc4035 ++ text "#section-3.1.3.1") ∷ [];
}

unfoldable pub dnssec_deprecated_algo : Rule
dnssec_deprecated_algo = record {
  id = text "DNS-DNSSEC-005";
  component = Component.dnssec;
  category = Category.hardening;
  severity = severity_low;
  title = text "Deprecated DNSSEC algorithm";
  recommendation =
      text "Prefer current algorithms such as RSASHA256 or ECDSAP256SHA256 over deprecated ones.";
  references = rfc8020 ∷ [];
}

unfoldable pub dnssec_broken_chain : Rule
dnssec_broken_chain = record {
  id = text "DNS-DNSSEC-006";
  component = Component.dnssec;
  category = Category.weakness;
  severity = severity_high;
  title = text "Broken chain of trust";
  recommendation =
      text
        "Ensure the DS record at the delegation matches a DNSKEY in the child zone. A mismatch breaks validation.";
  references = (rfc4034 ++ text "#section-5.1") ∷ (rfc4035 ++ text "#section-4.1") ∷ [];
}

unfoldable pub dnssec_no_ds : Rule
dnssec_no_ds = record {
  id = text "DNS-DNSSEC-007";
  component = Component.dnssec;
  category = Category.hardening;
  severity = severity_medium;
  title = text "No DS record at the delegation";
  recommendation =
      text
        "Publish a DS record at the parent to establish the chain of trust for a DNSSEC-signed child zone.";
  references = (rfc4034 ++ text "#section-5.1") ∷ [];
}

unfoldable pub dnssec_no_nsec : Rule
dnssec_no_nsec = record {
  id = text "DNS-DNSSEC-008";
  component = Component.dnssec;
  category = Category.hardening;
  severity = severity_low;
  title = text "No NSEC/NSEC3 records";
  recommendation = text "Enable NSEC or NSEC3 for authenticated denial of existence.";
  references = (rfc4034 ++ text "#section-3.4.1") ∷ (rfc5155 ++ text "#section-4") ∷ [];
}

unfoldable pub dnssec_malformed_nsec3 : Rule
dnssec_malformed_nsec3 = record {
  id = text "DNS-DNSSEC-009";
  component = Component.dnssec;
  category = Category.violation;
  severity = severity_medium;
  title = text "Malformed NSEC3 parameters";
  recommendation =
      text
        "Use valid NSEC3 hash type, flags, iterations and salt. Invalid parameters break authenticated denial of existence.";
  references = (rfc5155 ++ text "#section-2.1") ∷ [];
}

unfoldable pub dnssec_invalid_sig : Rule
dnssec_invalid_sig = record {
  id = text "DNS-DNSSEC-010";
  component = Component.dnssec;
  category = Category.weakness;
  severity = severity_high;
  title = text "RRSIG failed cryptographic verification";
  recommendation =
      text
        "Re-sign the zone. A signature that does not verify against the zone DNSKEY breaks validation for the covered RRset.";
  references = (rfc4035 ++ text "#section-5.3.2") ∷ (rfc4034 ++ text "#section-3.1.8") ∷ [];
}

unfoldable pub dnssec_valid : Rule
dnssec_valid = record {
  id = text "DNS-DNSSEC-011";
  component = Component.dnssec;
  category = Category.informational;
  severity = severity_pass;
  title = text "DNSSEC chain of trust and signatures validated";
  recommendation = [];
  references = (rfc4035 ++ text "#section-5") ∷ (rfc4034 ++ text "#section-5.1") ∷ [];
}
