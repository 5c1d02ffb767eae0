-- ===== src/Tests/Servers.antt =====
-- The steps of an audit and the probes of servers.
use zone_lint.Common.{
  ℕ, ◌+◌, Bytes, text, has_suffix, to_lower, length, List, [], ◌∷◌, ◌++◌, map, Any, true, false,
  some, none, ◌≡◌, ◌≢◌, ◌↔◌, ◌⊎◌, ◌≤◌, ◌==◌, if◌then◌else◌,
}
use zone_lint.Dns.{Msg}
use zone_lint.Findings.Catalog.{auth_tcp_fail, auth_inconsistent}
use zone_lint.Audit.{Result, received, zone_refused, build_resolve_target}
use zone_lint.Audit.Servers.{
  reported, transfer_rule, transfers, transfer_servers-reported, first_answer,
  probe_servers-reported,
}
use zone_lint.Audit.Session.{Outside, Runner, query}
use zone_lint.Audit.Gather.{ask}
use zone_lint.Audit.Run.{transfer_servers, probe_servers}
use zone_lint.Tests.Worlds.{options, env}
use zone_lint.Audit.Targets.{HasRecord, build_resolve_target_iff}
use zone_lint.Checks.Axfr.{Config, parse_transfer_result}
use zone_lint.Checks.Axfr.Bounded.{kept, parse_transfer_result-kept}
use zone_lint.Tests.Data.{plain, zone_name, ns_record, private_record, answer_of}

abbrev empty_result : Result
empty_result = record {
  zone = zone_name;
  findings = [];
  resolver = text "192.0.2.1";
  queries = 0;
  records = 0;
}

abbrev hosts : List Bytes
hosts = text "ns1.example." ∷ text "ns2.example." ∷ []

-- A server that transfers the zone the first time only, and answers every query; the world counts
-- its answers.
abbrev outside : Outside ℕ
outside = record {
  query = λ server req w. (some (answer_of (ns_record ∷ [])), w + 1);
  transfer = λ server req w. (if w == 0 then received (ns_record ∷ []) else zone_refused, w + 1);
  random = λ w. (none, w);
}

abbrev first_runner : Runner ℕ
first_runner = record { queries = 0; world = 0 }

transfer_servers-reported_example :
    reported (transfer_servers env options zone_name outside hosts empty_result first_runner).0
    ≡ reported empty_result
      ++ map
          (λ t. (transfer_rule t).id)
          (transfers env options zone_name outside hosts first_runner)
transfer_servers-reported_example =
    transfer_servers-reported env options zone_name outside hosts empty_result first_runner

hosts-answered : first_answer env options zone_name outside hosts first_runner ≢ none
unfolding first_answer ask query
hosts-answered h = absurd (cc)

probe_servers-reported_example :
    Any
      (λ k. k ≡ auth_tcp_fail.id)
      (reported (probe_servers env options zone_name outside hosts empty_result first_runner).0)
    × Any
        (λ k. k ≡ auth_inconsistent.id)
        (reported (probe_servers env options zone_name outside hosts empty_result first_runner).0)
probe_servers-reported_example =
    probe_servers-reported env options zone_name outside hosts empty_result first_runner
      hosts-answered

build_resolve_target_iff_example :
    (build_resolve_target plain (private_record ∷ []) zone_name (text "NS1.example") ≡ true) ↔ (
      HasRecord plain (private_record ∷ []) (to_lower (plain.fqdn (text "NS1.example")))
      ⊎ ((has_suffix
              (to_lower (plain.fqdn (text "NS1.example")))
              (text "." ++ to_lower (plain.fqdn zone_name))
            ≡ true)
          × HasRecord plain (private_record ∷ []) (to_lower (plain.fqdn zone_name))))
build_resolve_target_iff_example =
    build_resolve_target_iff plain (private_record ∷ []) zone_name (text "NS1.example")

abbrev one_record : Config
one_record = record { max_records = 1; show_records = false }

abbrev zone_data : Msg
zone_data = answer_of (ns_record ∷ private_record ∷ [])

parse_transfer_result-kept_example :
    ((parse_transfer_result (some zone_data) one_record).records ≡ kept zone_data one_record)
    × ((parse_transfer_result (some zone_data) one_record).record_count
        ≡ length (kept zone_data one_record))
    × ((parse_transfer_result (some zone_data) one_record).record_count ≤ (if 1 == 0 then 2 else 1))
parse_transfer_result-kept_example = parse_transfer_result-kept zone_data one_record
