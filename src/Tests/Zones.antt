-- ===== src/Tests/Zones.antt =====
-- The checks of records.
use mathlib.Core.List.{Perm, Mem}
use zone_lint.Common.{
  ℕ, take, map, Bytes, text, All, List, [], ◌∷◌, ◌++◌, true, false, some, none, ◌≡◌, ◌↔◌, ◌⊎◌, ◌≤◌,
  ◌<◌, ◌+◌, ◌*◌, ◌^◌, arith, ◌==◌, if◌then◌else◌,
}
use zone_lint.Common.Dict.{IsNodup, member}
use zone_lint.Dns.{Ip, Slot, Soa, a, ns, caa}
use zone_lint.Dns.Wire.{txt_rdata}
use zone_lint.Dns.Wire.Decoded.{read_strings, read_strings-txt_rdata}
use zone_lint.Checks.Addrs.{check_all}
use zone_lint.Checks.Addrs.Ranges.{category_v4, IsDocumentation, classify_v4_ranges}
use zone_lint.Checks.Addrs.Reported.{subjects, flagged_in, check_all_lem}
use zone_lint.Checks.Caa.{caa_records}
use zone_lint.Checks.Caa.Critical.{IsClean, caa_check-nil_iff}
use zone_lint.Checks.Cname.{Graph, walk, walk_loop}
use zone_lint.Checks.Cname.Loops.{Justified, check-Justified}
use zone_lint.Checks.Cname.Walk.{Walked, walk-Walked}
use zone_lint.Checks.Delegation.{ParentView, ChildView, compare_views}
use zone_lint.Checks.Delegation.Consistency.{has_glue, compare_views-nil_iff}
use zone_lint.Checks.Soa.{Day, serial_issues}
use zone_lint.Checks.Soa.Rules.{IsValid, IsAccepted, serial_issues_iff, soa_check-nil_iff}
use zone_lint.Checks.Ttl.{collect_all, new_collector}
use zone_lint.Checks.Ttl.Policy.{IsQuiet, smallest, ttl_check-nil_iff}
use zone_lint.Tests.Data.{plain, zone_name, entry, ns_record, private_record, answer_of}

abbrev two_ns : List Slot
two_ns = ns_record ∷ none ∷ entry zone_name (ns (text "ns1.example.")) ∷ []

abbrev shown : Ip → Bytes
shown none = []
shown (some octets) = octets

check_all_lem_example :
    IsNodup (subjects (check_all shown zone_name (private_record ∷ private_record ∷ [])))
    × (member
          (10 ∷ 0 ∷ 0 ∷ 1 ∷ [])
          (subjects (check_all shown zone_name (private_record ∷ private_record ∷ [])))
        ≡ member (10 ∷ 0 ∷ 0 ∷ 1 ∷ []) (flagged_in shown (private_record ∷ private_record ∷ [])))
check_all_lem_example =
    check_all_lem shown zone_name (private_record ∷ private_record ∷ []) (10 ∷ 0 ∷ 0 ∷ 1 ∷ [])

classify_v4_ranges_example :
    ((category_v4 192 30 252 1 ≡ some (text "loopback")) ↔ (◌≡◌ {A = ℕ} 192 127))
    × (((category_v4 192 30 252 1 ≡ some (text "private")) ↔ (
          (◌≡◌ {A = ℕ} 192 10)
          ⊎ (((◌≡◌ {A = ℕ} 192 172) × ((16 ≤ 30) × (30 ≤ 31))) ⊎ (◌≡◌ {A = ℕ} 192 192))))
        × (((category_v4 192 30 252 1 ≡ some (text "link-local"))
              ↔ ((◌≡◌ {A = ℕ} 192 169) × (◌≡◌ {A = ℕ} 30 254)))
            × (((category_v4 192 30 252 1 ≡ some (text "documentation"))
                  ↔ IsDocumentation 192 30 252)
                × ((category_v4 192 30 252 1 ≡ some (text "reserved")) ↔ (224 ≤ 192)))))
classify_v4_ranges_example = classify_v4_ranges 192 30 252 1

abbrev caa_entry : Slot
caa_entry = entry zone_name (caa (record { flag = 128; tag = text "future"; value = text "x" }))

abbrev caa_issue : Slot
caa_issue =
    entry zone_name (caa (record { flag = 0; tag = text "Issue"; value = text "ca.example; a=b" }))

caa_check-nil_iff_example :
    (zone_lint.Checks.Caa.check zone_name (caa_entry ∷ caa_issue ∷ []) ≡ [])
    ↔ All IsClean (caa_records (caa_entry ∷ caa_issue ∷ []))
caa_check-nil_iff_example = caa_check-nil_iff zone_name (caa_entry ∷ caa_issue ∷ [])

abbrev loop_graph : Graph
loop_graph = (text "a.example.", text "b.example.") ∷ (text "b.example.", text "a.example.") ∷ []

check-Justified_example :
    All
      (Justified zone_name loop_graph (if 8 == 0 then 8 else 8) (λ _. false))
      (zone_lint.Checks.Cname.check zone_name loop_graph 8 (λ _. false))
check-Justified_example = check-Justified zone_name loop_graph 8 (λ _. false)

walk-Walked_example :
    (walk_loop 102 loop_graph (text "a.example.") [] []
      ≡ some (walk (text "a.example.") loop_graph))
    × Walked loop_graph (text "a.example.") (walk (text "a.example.") loop_graph)
walk-Walked_example = walk-Walked loop_graph (text "a.example.")

abbrev parent_view : ParentView
parent_view = record {
  ns = text "ns1.example." ∷ text "ns2.example." ∷ [];
  ns_rr = [];
  glue = (text "ns1.example.", some (192 ∷ 0 ∷ 2 ∷ 1 ∷ []) ∷ []) ∷ [];
  glue_aaaa = [];
}

abbrev child_view : ChildView
child_view = record {
  ns = text "ns2.example." ∷ text "ns1.example." ∷ [];
  ns_rr = [];
  ns_addr = [];
  ns_addr_aaaa = [];
  authoritative = true;
}

compare_views-nil_iff_example : (compare_views plain zone_name parent_view child_view ≡ []) ↔ (
    Perm parent_view.ns child_view.ns
    × ((true ≡ true) ⊎ (child_view.ns ≡ []))
    × ((host : Bytes) → Mem host parent_view.ns → has_glue plain zone_name parent_view host ≡ true))
compare_views-nil_iff_example = compare_views-nil_iff plain zone_name parent_view child_view

abbrev today : Day
today = record { year = 2026; month = 3; day = 9 }

serial_issues_iff_example : (serial_issues today 2026030901 ≡ false) ↔ (
    ((2026 * 10000 + 3 * 100 + 9 ≤ 2026030901 + 2) × (2026030901 ≤ 2026 * 10000 + 3 * 100 + 9 + 2))
    ⊎ (2000010100 < 2026030901))
serial_issues_iff_example =
    serial_issues_iff today 2026030901 (omega arith, omega arith, omega arith, omega arith)
      (omega arith) (omega arith)

abbrev soa_data : Soa
soa_data = record {
  ns = text "ns1.example.";
  mbox = text "admin.example.";
  serial = 2026030901;
  refresh = 7200;
  retry = 3600;
  expire = 1209600;
  minttl = 300;
}

soa_check-nil_iff_example :
    (zone_lint.Checks.Soa.check plain today zone_name (some soa_data) ≡ []) ↔ (
      IsValid plain soa_data.mbox
      × IsValid plain soa_data.ns
      × IsAccepted today soa_data.serial
      × ((soa_data.retry < soa_data.refresh) × (0 < soa_data.expire) × (soa_data.expire < 2 ^ 31))
      × (30 ≤ soa_data.minttl))
soa_check-nil_iff_example =
    soa_check-nil_iff plain today zone_name soa_data
      (omega arith, omega arith, omega arith, omega arith) (omega arith) (omega arith)

-- Two address records, whose TTLs are both low for the conservative profile.
abbrev address : ℕ → Slot
address ttl = some (record {
  header = record { name = zone_name; rrtype = 1; ttl = ttl };
  body = a (some (192 ∷ 0 ∷ 2 ∷ 1 ∷ []));
})

ttl_check-nil_iff_example :
    (zone_lint.Checks.Ttl.check plain zone_name
        (text "conservative")
        (collect_all (answer_of (address 120 ∷ address 60 ∷ [])) new_collector)
      ≡ [])
    ↔ All
        (λ typ.
          IsQuiet (text "conservative") (smallest typ ((address 120 ∷ address 60 ∷ []) ++ []) none))
        (6 ∷ 2 ∷ 1 ∷ 28 ∷ 15 ∷ 5 ∷ 16 ∷ 257 ∷ 48 ∷ 43 ∷ [])
ttl_check-nil_iff_example =
    ttl_check-nil_iff plain zone_name (text "conservative")
      (answer_of (address 120 ∷ address 60 ∷ []))

abbrev strings : List Bytes
strings = text "v=spf1 -all" ∷ [] ∷ text "x" ∷ []

read_strings-txt_rdata_example : read_strings 3 (txt_rdata strings) ≡ some (map (take 255) strings)
read_strings-txt_rdata_example = read_strings-txt_rdata strings
