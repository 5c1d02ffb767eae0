-- ===== src/Findings/Catalog/Delegation.antt =====
-- internal/findings/catalog.go: the rules of the groups Delegation.
use zone_lint.Common.{text, [], ◌∷◌, ◌++◌}
use zone_lint.Findings.{Category, Component, Rule, severity_high, severity_low, severity_medium}
use zone_lint.Findings.Urls.{rfc1035, rfc2181}

unfoldable pub deleg_missing : Rule
deleg_missing = record {
  id = text "DNS-DELEGATION-001";
  component = Component.delegation;
  category = Category.weakness;
  severity = severity_high;
  title = text "No delegation — parent cannot find the zone NS";
  recommendation =
      text
        "Verify the parent zone's NS records for this zone. A missing delegation means resolvers cannot find the authoritative name servers.";
  references = (rfc1035 ++ text "#section-3.5.3") ∷ (rfc2181 ++ text "#section-10.3") ∷ [];
}

unfoldable pub deleg_lame : Rule
deleg_lame = record {
  id = text "DNS-DELEGATION-002";
  component = Component.delegation;
  category = Category.weakness;
  severity = severity_high;
  title = text "Lame delegation — the queried server does not claim authority";
  recommendation =
      text
        "Ensure the child zone publishes the NS records named by the parent. A lame delegation forces every resolver to fall back to the parent.";
  references = (rfc1035 ++ text "#section-3.5.3") ∷ (rfc2181 ++ text "#section-10.3") ∷ [];
}

unfoldable pub deleg_stale_glue : Rule
deleg_stale_glue = record {
  id = text "DNS-DELEGATION-003";
  component = Component.delegation;
  category = Category.violation;
  severity = severity_medium;
  title = text "Glue A/AAAA records are stale or missing";
  recommendation =
      text
        "Publish current A and AAAA glue for in-bailiwick NS hosts. Stale glue can cause the delegated zone to become unreachable.";
  references = (rfc1035 ++ text "#section-3.5.3") ∷ (rfc2181 ++ text "#section-10.3") ∷ [];
}

unfoldable pub deleg_missing_glue : Rule
deleg_missing_glue = record {
  id = text "DNS-DELEGATION-004";
  component = Component.delegation;
  category = Category.violation;
  severity = severity_medium;
  title = text "NS without glue for in-bailiwick name server";
  recommendation =
      text
        "For a name server that is itself a subdomain of the delegated zone, publish A/AAAA glue records so resolvers can reach it.";
  references = (rfc1035 ++ text "#section-4.1.1") ∷ (rfc2181 ++ text "#section-10.3") ∷ [];
}

unfoldable pub deleg_unreachable : Rule
deleg_unreachable = record {
  id = text "DNS-DELEGATION-005";
  component = Component.delegation;
  category = Category.weakness;
  severity = severity_medium;
  title = text "Name server is unreachable";
  recommendation =
      text
        "Ensure every NS host is reachable over UDP and TCP. An unreachable name server makes the zone intermittently unavailable.";
  references = (rfc1035 ++ text "#section-3.5.3") ∷ [];
}

unfoldable pub deleg_inconsistent_ns : Rule
deleg_inconsistent_ns = record {
  id = text "DNS-DELEGATION-006";
  component = Component.delegation;
  category = Category.violation;
  severity = severity_high;
  title = text "Parent and child name server sets do not match";
  recommendation =
      text
        "Make the parent zone's NS records and the child zone's NS records agree. Mismatched sets cause intermittent lame delegations.";
  references = (rfc1035 ++ text "#section-3.5.3") ∷ (rfc2181 ++ text "#section-10.3") ∷ [];
}

unfoldable pub deleg_non_auth_ns : Rule
deleg_non_auth_ns = record {
  id = text "DNS-DELEGATION-007";
  component = Component.delegation;
  category = Category.weakness;
  severity = severity_medium;
  title = text "Name server is not authoritative for the zone";
  recommendation =
      text
        "Point the delegation at servers that answer AA=1 for the zone. A non-authoritative NS host cannot serve the zone.";
  references = (rfc1035 ++ text "#section-3.5.3") ∷ [];
}

unfoldable pub deleg_inconsistent_answer : Rule
deleg_inconsistent_answer = record {
  id = text "DNS-DELEGATION-008";
  component = Component.delegation;
  category = Category.informational;
  severity = severity_low;
  title = text "Inconsistent answer sets across name servers";
  recommendation =
      text
        "Investigate why name servers return different records. Inconsistency often indicates misconfiguration or split-horizon DNS.";
  references = (rfc1035 ++ text "#section-3.5.3") ∷ [];
}
