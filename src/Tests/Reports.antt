-- ===== src/Tests/Reports.antt =====
-- The reports, and the exit code of a run.
use zone_lint.Common.{
  Bytes, text, eqb, to_lower, List, [], ◌∷◌, Any, true, false, some, ◌≡◌, ◌≢◌, ◌↔◌, ◌≤◌, ◌+◌, arith,
  refl,
}
use zone_lint.Findings.{Finding}
use zone_lint.Findings.Severity.{parse_severity, parse_in, equal_fold, severity_names}
use zone_lint.Findings.Tally.{max_severity}
use zone_lint.Report.{
  SarifRule, sarif_report, build_summary, render, format_human, format_json, format_sarif,
}
use zone_lint.Report.RuleIds.{sarif_report-rules_iff}
use zone_lint.Report.Totals.{with_level, invalid, build_summary-total}
use zone_lint.Main.{
  World, Flags, exit_code, run_flags, options_of, select_format, known_format, write_report,
}
use zone_lint.Main.ExitCodes.{IsAudit, Written, run_flags_iff}
use zone_lint.Tests.Data.{tcp_finding, axfr_finding, zone_name}

abbrev found : List Finding
found = tcp_finding ∷ axfr_finding ∷ []

build_summary-total_example :
    let s = build_summary found in
    (s.critical ≡ with_level 6 found)
    × ((s.high ≡ with_level 5 found)
        × ((s.medium ≡ with_level 4 found)
            × ((s.low ≡ with_level 3 found)
                × ((s.info ≡ with_level 2 found)
                    × ((s.pass ≡ with_level 1 found)
                        × ((s.total ≡ 2)
                            × (s.total
                                ≡ s.critical
                                  + (s.high
                                      + (s.medium
                                          + (s.low + (s.info + (s.pass + invalid found))))))))))))
build_summary-total_example = build_summary-total found

sarif_report-rules_iff_example :
    Any (λ (r : SarifRule). r.id ≡ text "DNS-AXFR-001") (sarif_report zone_name found).rules
    ↔ Any (λ f. f.id ≡ text "DNS-AXFR-001") found
sarif_report-rules_iff_example = sarif_report-rules_iff zone_name found (text "DNS-AXFR-001")

abbrev world : World
world = record {
  audit = λ domain opts. record {
    zone = domain;
    findings = found;
    resolver = opts.resolver;
    queries = 3;
    records = 2;
  };
  marshal = record { json = λ _. some []; sarif = λ _. some [] };
  write = λ _. true;
}

abbrev flags_of : Bytes → Flags
flags_of fail_on = record {
  json = true;
  format = [];
  active = false;
  resolver = [];
  profile = text "balanced";
  fail_on = fail_on;
  timeout = 10;
  max_qps = 50;
  max_queries = 400;
  show_axfr = false;
  show_version = false;
  domains = zone_name ∷ [];
}

flags_of-IsAudit : (fail_on : Bytes) → IsAudit (flags_of fail_on)
unfolding known_format select_format format_json format_human format_sarif eqb text
flags_of-IsAudit fail_on = (refl, (λ h. absurd (omega (arith, h)), (refl, refl)))

written :
    (fail_on : Bytes)
    → Written world
        (select_format (flags_of fail_on))
        (options_of (flags_of fail_on))
        (zone_name ∷ [])
unfolding write_report render select_format format_json format_human format_sarif eqb text
written fail_on = (refl, tt)

parsed : parse_severity (to_lower (text "HIGH")) ≡ some 5
unfolding parse_severity parse_in equal_fold severity_names to_lower eqb text
parsed = refl

high-given : text "HIGH" ≢ []
unfolding text
high-given h = absurd (cc)

run_flags_iff_example :
    (exit_code (run_flags world (flags_of (text "HIGH"))) ≡ 1)
    ↔ Any (λ d. 5 ≤ max_severity found) (zone_name ∷ [])
run_flags_iff_example =
    run_flags_iff world (flags_of (text "HIGH")) 5 (flags_of-IsAudit (text "HIGH")) high-given
      parsed (written (text "HIGH"))
