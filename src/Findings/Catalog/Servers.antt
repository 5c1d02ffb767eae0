-- ===== src/Findings/Catalog/Servers.antt =====
-- internal/findings/catalog.go: the rules of the groups Authoritative server, AXFR.
use zone_lint.Common.{text, [], ◌∷◌, ◌++◌}
use zone_lint.Findings.{
  Category, Component, Rule, severity_critical, severity_high, severity_info, severity_low,
  severity_medium, severity_pass,
}
use zone_lint.Findings.Urls.{rfc1035, rfc6891}

unfoldable pub auth_udp_fail : Rule
auth_udp_fail = record {
  id = text "DNS-AUTHSERVER-001";
  component = Component.auth_server;
  category = Category.weakness;
  severity = severity_high;
  title = text "Authoritative server not reachable over UDP";
  recommendation =
      text
        "Ensure the authoritative server accepts UDP queries on port 53. UDP is required for normal DNS resolution.";
  references = (rfc1035 ++ text "#section-4.2") ∷ [];
}

unfoldable pub auth_tcp_fail : Rule
auth_tcp_fail = record {
  id = text "DNS-AUTHSERVER-002";
  component = Component.auth_server;
  category = Category.weakness;
  severity = severity_medium;
  title = text "TCP fallback fails";
  recommendation =
      text
        "Ensure the authoritative server accepts TCP connections on port 53. Responses larger than 512 octets require TCP.";
  references = (rfc1035 ++ text "#section-4.2.1") ∷ [];
}

unfoldable pub auth_no_aa : Rule
auth_no_aa = record {
  id = text "DNS-AUTHSERVER-003";
  component = Component.auth_server;
  category = Category.violation;
  severity = severity_high;
  title = text "AA flag not set on authoritative response";
  recommendation =
      text
        "The authoritative server must set the AA flag for answers about its zone. A missing AA flag makes the response ambiguous.";
  references = (rfc1035 ++ text "#section-4.1.1") ∷ [];
}

unfoldable pub auth_no_soa : Rule
auth_no_soa = record {
  id = text "DNS-AUTHSERVER-004";
  component = Component.auth_server;
  category = Category.violation;
  severity = severity_medium;
  title = text "SOA record not present in the response";
  recommendation =
      text
        "Every authoritative answer, including denial of existence, must include the zone SOA in the authority section.";
  references = (rfc1035 ++ text "#section-3.3.2") ∷ (rfc1035 ++ text "#section-4.1.1") ∷ [];
}

unfoldable pub auth_no_ns : Rule
auth_no_ns = record {
  id = text "DNS-AUTHSERVER-005";
  component = Component.auth_server;
  category = Category.violation;
  severity = severity_low;
  title = text "NS records not present in the response";
  recommendation =
      text
        "The zone apex answer should include the zone NS records. Missing NS records can confuse resolvers.";
  references = (rfc1035 ++ text "#section-3.5.3") ∷ [];
}

unfoldable pub auth_no_edns : Rule
auth_no_edns = record {
  id = text "DNS-AUTHSERVER-006";
  component = Component.auth_server;
  category = Category.hardening;
  severity = severity_info;
  title = text "EDNS/DO not supported";
  recommendation =
      text "Enable EDNS0 (and the DNSSEC OK bit) so DNSSEC responses are not truncated.";
  references = rfc6891 ∷ [];
}

unfoldable pub auth_inconsistent : Rule
auth_inconsistent = record {
  id = text "DNS-AUTHSERVER-007";
  component = Component.auth_server;
  category = Category.weakness;
  severity = severity_medium;
  title = text "Inconsistent responses across name servers";
  recommendation =
      text
        "Investigate why name servers return different answers. Inconsistency often indicates misconfiguration or partial propagation.";
  references = (rfc1035 ++ text "#section-3.5.3") ∷ [];
}

unfoldable pub axfr_allowed : Rule
axfr_allowed = record {
  id = text "DNS-AXFR-001";
  component = Component.axfr;
  category = Category.weakness;
  severity = severity_critical;
  title = text "Zone transfer allowed to arbitrary clients";
  recommendation =
      text
        "Restrict AXFR to authorized secondary name servers only. Open zone transfers leak the full zone contents.";
  references = (rfc1035 ++ text "#section-5.3.2") ∷ [];
}

unfoldable pub axfr_refused : Rule
axfr_refused = record {
  id = text "DNS-AXFR-002";
  component = Component.axfr;
  category = Category.informational;
  severity = severity_pass;
  title = text "Zone transfer refused (good default)";
  recommendation = [];
  references = (rfc1035 ++ text "#section-5.3.2") ∷ [];
}

unfoldable pub axfr_failed : Rule
axfr_failed = record {
  id = text "DNS-AXFR-003";
  component = Component.axfr;
  category = Category.informational;
  severity = severity_info;
  title = text "Zone transfer failed or errored";
  recommendation = [];
  references = (rfc1035 ++ text "#section-5.3.2") ∷ [];
}
