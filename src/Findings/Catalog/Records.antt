-- ===== src/Findings/Catalog/Records.antt =====
-- internal/findings/catalog.go: the rules of the groups SOA, TTL, CAA, CNAME.
use zone_lint.Common.{text, [], ◌∷◌, ◌++◌}
use zone_lint.Findings.{
  Category, Component, Rule, severity_high, severity_info, severity_low, severity_medium,
}
use zone_lint.Findings.Urls.{rfc1035, rfc2308, rfc8659}

unfoldable pub soa_invalid_mname : Rule
soa_invalid_mname = record {
  id = text "DNS-SOA-001";
  component = Component.soa;
  category = Category.violation;
  severity = severity_medium;
  title = text "Malformed SOA MNAME";
  recommendation =
      text "The SOA MNAME (primary name server) must be a valid fully-qualified domain name.";
  references = (rfc1035 ++ text "#section-3.3.1") ∷ (rfc1035 ++ text "#section-5.1") ∷ [];
}

unfoldable pub soa_invalid_rname : Rule
soa_invalid_rname = record {
  id = text "DNS-SOA-002";
  component = Component.soa;
  category = Category.violation;
  severity = severity_medium;
  title = text "Malformed SOA RNAME";
  recommendation =
      text
        "The SOA RNAME (responsible authority email) must be a valid fully-qualified domain name.";
  references = (rfc1035 ++ text "#section-3.3.1") ∷ (rfc1035 ++ text "#section-5.1") ∷ [];
}

unfoldable pub soa_serial_format : Rule
soa_serial_format = record {
  id = text "DNS-SOA-003";
  component = Component.soa;
  category = Category.hardening;
  severity = severity_low;
  title = text "SOA serial format heuristic";
  recommendation =
      text
        "Use a serial format such as YYYYMMDDnn or an incrementing counter so changes are detectable.";
  references = (rfc1035 ++ text "#section-3.3.1") ∷ [];
}

unfoldable pub soa_schedule : Rule
soa_schedule = record {
  id = text "DNS-SOA-004";
  component = Component.soa;
  category = Category.hardening;
  severity = severity_low;
  title = text "SOA refresh/retry/expire sanity";
  recommendation =
      text
        "Choose refresh, retry and expire values that let secondary servers keep the zone fresh without excessive polling.";
  references = (rfc1035 ++ text "#section-3.3.1") ∷ [];
}

unfoldable pub soa_negative_ttl : Rule
soa_negative_ttl = record {
  id = text "DNS-SOA-005";
  component = Component.soa;
  category = Category.hardening;
  severity = severity_info;
  title = text "Low negative-cache TTL";
  recommendation =
      text "Raise the SOA minimum/TTL so that negative answers are not re-queried excessively.";
  references = (rfc2308 ++ text "#section-3") ∷ [];
}

unfoldable pub ttl_short : Rule
ttl_short = record {
  id = text "DNS-TTL-001";
  component = Component.ttl;
  category = Category.informational;
  severity = severity_info;
  title = text "Low TTL";
  recommendation =
      text
        "A low TTL increases query load and amplification surface. Raise it to a reasonable value unless fast changes are required.";
  references = (rfc1035 ++ text "#section-3.3.1") ∷ [];
}

unfoldable pub ttl_extreme : Rule
ttl_extreme = record {
  id = text "DNS-TTL-002";
  component = Component.ttl;
  category = Category.hardening;
  severity = severity_low;
  title = text "Extreme TTL";
  recommendation =
      text
        "A very high TTL delays propagation of legitimate changes. Keep TTLs within a reasonable range.";
  references = (rfc1035 ++ text "#section-3.3.1") ∷ [];
}

unfoldable pub caa_malformed : Rule
caa_malformed = record {
  id = text "DNS-CAA-001";
  component = Component.caa;
  category = Category.violation;
  severity = severity_low;
  title = text "Malformed CAA record";
  recommendation =
      text
        "CAA records must follow RFC 8659 syntax: an issue or issuewild tag with a valid tag-value pair.";
  references = rfc8659 ∷ [];
}

unfoldable pub caa_critical_unknown : Rule
caa_critical_unknown = record {
  id = text "DNS-CAA-002";
  component = Component.caa;
  category = Category.weakness;
  severity = severity_medium;
  title = text "Unknown critical CAA property";
  recommendation =
      text
        "A critical CAA tag with an unknown meaning is ignored by compliant issuers. Use only defined tags such as issue and issuewild.";
  references = rfc8659 ∷ [];
}

unfoldable pub cname_loop : Rule
cname_loop = record {
  id = text "DNS-CNAME-001";
  component = Component.cname;
  category = Category.violation;
  severity = severity_high;
  title = text "CNAME loop";
  recommendation = text "Remove the CNAME loop. A loop prevents the name from resolving.";
  references = (rfc1035 ++ text "#section-3.6.2") ∷ (rfc1035 ++ text "#section-5.1") ∷ [];
}

unfoldable pub cname_chain_long : Rule
cname_chain_long = record {
  id = text "DNS-CNAME-002";
  component = Component.cname;
  category = Category.hardening;
  severity = severity_medium;
  title = text "Excessive CNAME chain";
  recommendation =
      text
        "Shorten the CNAME chain. Long chains increase latency and risk of hitting the 10-CNAME limit.";
  references = (rfc1035 ++ text "#section-3.6.2") ∷ [];
}

unfoldable pub cname_coexist : Rule
cname_coexist = record {
  id = text "DNS-CNAME-003";
  component = Component.cname;
  category = Category.violation;
  severity = severity_medium;
  title = text "CNAME coexists with other records";
  recommendation =
      text
        "A CNAME must be the only record for a name. Remove the other records or replace the CNAME with the appropriate record type.";
  references = (rfc1035 ++ text "#section-3.6.2") ∷ (rfc1035 ++ text "#section-5.1") ∷ [];
}

unfoldable pub cname_dangling : Rule
cname_dangling = record {
  id = text "DNS-CNAME-004";
  component = Component.cname;
  category = Category.weakness;
  severity = severity_high;
  title = text "Dangling CNAME target";
  recommendation =
      text
        "Point the CNAME at a name that resolves. A dangling CNAME can be hijacked by whoever registers the target name.";
  references = (rfc1035 ++ text "#section-3.6.2") ∷ [];
}
