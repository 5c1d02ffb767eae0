-- ===== src/Tests/Data.antt =====
-- Concrete inputs: a package that completes names with a dot, records of a small zone, findings.
use zone_lint.Common.{
  Bytes, text, has_suffix, itoa, List, [], ◌∷◌, ◌++◌, true, false, none, some, if◌then◌else◌,
}
use zone_lint.Dns.{Slot, Msg, Package, Body, ns, a}
use zone_lint.Findings.{Finding, new}
use zone_lint.Findings.Catalog.{auth_tcp_fail, axfr_allowed}

abbrev pub plain : Package
plain = record {
  fqdn = λ s. if has_suffix s (text ".") then s else s ++ text ".";
  is_fqdn = λ s. has_suffix s (text ".");
  type_to_string = itoa;
  pack_domain_name = λ _. none;
}

abbrev pub zone_name : Bytes
zone_name = text "example."

abbrev pub entry : Bytes → Body → Slot
entry name body =
    some (record { header = record { name = name; rrtype = 0; ttl = 300 }; body = body })

abbrev pub ns_record : Slot
ns_record = entry zone_name (ns (text "NS1.example."))

abbrev pub private_record : Slot
private_record = entry (text "ns1.example.") (a (some (10 ∷ 0 ∷ 0 ∷ 1 ∷ [])))

abbrev pub answer_of : List Slot → Msg
answer_of records = record {
  rcode = 0;
  authoritative = true;
  recursion_available = false;
  has_edns = true;
  answer = records;
  ns = [];
}

abbrev pub tcp_finding : Finding
tcp_finding = new auth_tcp_fail (text "ns1.example.") (text "no answer") []

abbrev pub axfr_finding : Finding
axfr_finding = new axfr_allowed (text "ns1.example.") (text "open") (text "12 records" ∷ [])
