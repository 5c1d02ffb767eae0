-- ===== src/Tests/Core.antt =====
-- Findings, severities, rules and budgets.
use mathlib.Core.List.Perm
use zone_lint.Common.{
  text, min, List, [], ◌∷◌, map, true, false, some, ◌≡◌, ◌↔◌, ◌⊎◌, ◌≤◌, ◌-◌, refl, if◌then◌else◌,
  ◌==◌,
}
use zone_lint.Findings.{Finding}
use zone_lint.Findings.Severity.{
  severity_valid, severity_string, parse_severity, Spells, parse_severity_iff,
}
use zone_lint.Findings.Sorting.{sort_findings, key, sort_findings-eq_of_perm}
use zone_lint.Budget.Counter.{Counter, Call, consume_call, remaining_call, run, attempts, run_lem}
use zone_lint.Budget.Limiter.{new_rate_limiter, admitted, admitted-new_rate_limiter}
use zone_lint.Budget.Semaphore.{
  Semaphore, System, Reach, start, later, take_slot, acquired, new_semaphore, release,
  holders_bounded,
}
use zone_lint.Tests.Data.{tcp_finding, axfr_finding}

abbrev two_findings : List Finding
two_findings = tcp_finding ∷ axfr_finding ∷ []

sort_findings-eq_of_perm_example :
    map key (sort_findings (axfr_finding ∷ tcp_finding ∷ [])) ≡ map key (sort_findings two_findings)
sort_findings-eq_of_perm_example = sort_findings-eq_of_perm (Perm.swap tcp_finding axfr_finding [])

parse_severity_iff_example :
    (parse_severity (text "High") ≡ some 5)
    ↔ ((severity_valid 5 ≡ true) × Spells (severity_string 5) (text "High"))
parse_severity_iff_example = parse_severity_iff (text "High") 5

abbrev calls : List Call
calls = consume_call ∷ remaining_call ∷ consume_call ∷ consume_call ∷ []

abbrev two_left : Counter
two_left = record { remaining = 2 }

run_lem_example :
    ((run calls two_left).1 ≡ min (attempts calls) 2)
    × ((run calls two_left).0.remaining ≡ 2 - attempts calls)
run_lem_example = run_lem calls two_left

admitted-new_rate_limiter_example : admitted (7 ∷ 7 ∷ 7 ∷ []) (new_rate_limiter 1 0) ≡ 3
admitted-new_rate_limiter_example = admitted-new_rate_limiter 1 0 (7 ∷ 7 ∷ 7 ∷ [])

abbrev idle : System
idle = record { sem = new_semaphore 2; holders = 0 }

abbrev busy : System
busy = record { sem = record { width = 2; taken = 1 }; holders = 1 }

busy-Reach : Reach 2 busy
unfolding zone_lint.Budget.Semaphore.acquire new_semaphore zone_lint.Budget.positive_or
busy-Reach =
    later {s = idle} (start refl)
      (take_slot false false (record { width = 2; taken = 1 }) refl refl)

holders_bounded_example :
    (busy.holders ≤ (if 2 == 0 then 1 else 2))
    × ((busy.holders ≡ 0) ⊎ ((sem' : Semaphore) × (release busy.sem ≡ some sem')))
holders_bounded_example = holders_bounded busy-Reach
