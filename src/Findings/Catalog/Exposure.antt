-- ===== src/Findings/Catalog/Exposure.antt =====
-- internal/findings/catalog.go: the rules of the groups Address classification, Wildcard, Recursion, Transport / general.
use zone_lint.Common.{text, [], ◌∷◌, ◌++◌}
use zone_lint.Findings.{
  Category, Component, Rule, severity_high, severity_info, severity_low, severity_medium,
}
use zone_lint.Findings.Urls.{rfc1035, rfc1918, rfc2308, rfc6890}

unfoldable pub addr_private : Rule
addr_private = record {
  id = text "DNS-ADDRESS-001";
  component = Component.address;
  category = Category.violation;
  severity = severity_medium;
  title = text "Public record points to a private address";
  recommendation = text "Public records should not resolve to RFC1918 addresses unless intended.";
  references = rfc1918 ∷ rfc6890 ∷ [];
}

unfoldable pub addr_loopback : Rule
addr_loopback = record {
  id = text "DNS-ADDRESS-002";
  component = Component.address;
  category = Category.violation;
  severity = severity_medium;
  title = text "Public record points to a loopback address";
  recommendation =
      text
        "Public records should not resolve to 127.0.0.0/8. Loopback addresses are only meaningful on the local host.";
  references = rfc6890 ∷ [];
}

unfoldable pub addr_local : Rule
addr_local = record {
  id = text "DNS-ADDRESS-003";
  component = Component.address;
  category = Category.violation;
  severity = severity_low;
  title = text "Public record points to a link-local address";
  recommendation =
      text "Public records should not resolve to link-local addresses (169.254.0.0/16, fe80::/10).";
  references = rfc6890 ∷ [];
}

unfoldable pub addr_reserved : Rule
addr_reserved = record {
  id = text "DNS-ADDRESS-004";
  component = Component.address;
  category = Category.violation;
  severity = severity_low;
  title = text "Public record points to a reserved address";
  recommendation = text "Public records should not resolve to reserved address ranges.";
  references = rfc6890 ∷ [];
}

unfoldable pub addr_documentation : Rule
addr_documentation = record {
  id = text "DNS-ADDRESS-005";
  component = Component.address;
  category = Category.violation;
  severity = severity_low;
  title = text "Public record points to a documentation-range address";
  recommendation =
      text
        "Public records should not resolve to documentation address ranges (192.0.2.0/24, 198.51.100.0/24, 203.0.113.0/24, 2001:db8::/32).";
  references = rfc6890 ∷ [];
}

unfoldable pub wildcard_present : Rule
wildcard_present = record {
  id = text "DNS-WILDCARD-001";
  component = Component.wildcard;
  category = Category.informational;
  severity = severity_info;
  title = text "Wildcard DNS record present";
  recommendation =
      text
        "A wildcard record answers for all undefined names in the zone. Ensure this is intended; wildcards can mask typosquatting and misconfiguration.";
  references = (rfc1035 ++ text "#section-3.3.3") ∷ [];
}

unfoldable pub recursion_open : Rule
recursion_open = record {
  id = text "DNS-RECURSION-001";
  component = Component.recursion;
  category = Category.weakness;
  severity = severity_high;
  title = text "Open recursion on an authoritative server";
  recommendation =
      text
        "Disable open recursion on authoritative servers. Open resolvers can be abused for amplification attacks.";
  references = (rfc2308 ++ text "#section-5") ∷ [];
}

unfoldable pub transport_timeout : Rule
transport_timeout = record {
  id = text "DNS-TRANSPORT-001";
  component = Component.transport;
  category = Category.informational;
  severity = severity_medium;
  title = text "Query transport timeout";
  recommendation =
      text
        "The query exceeded the configured timeout. Check the resolver and network path to the authoritative server.";
  references = (rfc1035 ++ text "#section-4.2") ∷ [];
}

unfoldable pub general_error : Rule
general_error = record {
  id = text "DNS-GENERAL-001";
  component = Component.general;
  category = Category.weakness;
  severity = severity_high;
  title = text "Initial resolution failed";
  recommendation =
      text "The zone could not be resolved. Verify the zone name and the resolver configuration.";
  references = rfc1035 ∷ [];
}
