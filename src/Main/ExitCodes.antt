-- ===== src/Main/ExitCodes.antt =====
-- When the process exits with 1.
use zone_lint.Common.{
  Bytes, eqb_iff, to_lower, length, List, [], ◌∷◌, All, Any, Bool, true, false, some, leb, ◌≡◌, ◌≢◌,
  ◌↔◌, ◌⊎◌, inl, inr, refl, arith, Bool-cases, ◌≤◌, ◌<◌, ◌∙◌,
}
use zone_lint.Audit.{Options}
use zone_lint.Findings.{Severity, Finding}
use zone_lint.Findings.Severity.{parse_severity, parse_severity_iff, severity_valid_iff}
use zone_lint.Findings.Tally.{at_least, at_least-nil_iff, max_severity}
use zone_lint.Report.{Format}
use zone_lint.Main.{
  World, Flags, success, exit_code, reaches, audit_domains, write_report, run_flags, select_format,
  known_format, fail_threshold, options_of, asks_version,
}

reaches-at_least :
    (threshold : Severity) (fs : List Finding)
    → (reaches threshold fs ≡ false) ↔ (at_least fs threshold ≡ [])
unfolding reaches at_least
reaches-at_least threshold [] = (λ _. refl, λ _. refl)
reaches-at_least threshold (f ∷ fs) = elim (Bool-cases (leb threshold f.severity)) [
  | inl e ↦ rw e (λ h. absurd (cc), λ h. absurd (cc))
  | inr e ↦ rw e (reaches-at_least threshold fs)
]

reaches_iff :
    (threshold : Severity) (fs : List Finding)
    → 0 < threshold
    → (reaches threshold fs ≡ true) ↔ (threshold ≤ max_severity fs)
reaches_iff threshold fs h = elim (Bool-cases (reaches threshold fs)) [
  | inl e ↦ (
    λ _. elim (Bool-cases (leb threshold (max_severity fs))) [
      | inl le ↦ ground arith
      | inr gt ↦
          absurd (ground (arith, reaches-at_least threshold fs, at_least-nil_iff fs threshold h))
    ],
    λ _. e,
  )
  | inr e ↦ (
    λ bad. absurd (cc),
    λ le. absurd (ground (arith, reaches-at_least threshold fs, at_least-nil_iff fs threshold h)),
  )
]

-- Every report could be written.
abbrev pub Written : World → Format → Options → List Bytes → Type 0
Written w format opts domains = All (λ d. write_report w d format (w.audit d opts) ≡ true) domains

audit_domains_iff :
    (w : World) (format : Format) (opts : Options) (threshold : Severity) (domains : List Bytes)
    (failing : Bool)
    → 0 < threshold
    → Written w format opts domains
    → (exit_code (audit_domains w format opts threshold domains failing) ≡ 1)
      ↔ ((failing ≡ true) ⊎ Any (λ d. threshold ≤ max_severity (w.audit d opts).findings) domains)
unfolding audit_domains exit_code
audit_domains_iff w format opts threshold [] failing h ok = ground arith
audit_domains_iff w format opts threshold (d ∷ domains) failing h ok =
    let res = w.audit d opts in
    elim (Bool-cases (reaches threshold res.findings)) [
      | inl e ↦ ground (
        arith,
        reaches_iff threshold res.findings h,
        audit_domains_iff w format opts threshold domains true h ok.1,
      )
      | inr e ↦ ground (
        arith,
        reaches_iff threshold res.findings h,
        audit_domains_iff w format opts threshold domains failing h ok.1,
      )
    ]

-- A command line that is carried out: it does not ask for the version, and names at least one
-- domain and a known format.
abbrev pub IsAudit : Flags → Type 0
IsAudit fl =
    (fl.show_version ≡ false)
    × ((length fl.domains ≢ 0)
        × ((asks_version fl.domains ≡ false) × (known_format (select_format fl) ≡ true)))

run_flags-audit_domains :
    (w : World) (fl : Flags) (threshold : Severity)
    → IsAudit fl
    → fail_threshold fl.fail_on ≡ some threshold
    → run_flags w fl ≡ audit_domains w (select_format fl) (options_of fl) threshold fl.domains false
unfolding run_flags
run_flags-audit_domains w fl threshold (shown, (named, (asked, known))) e = ground arith

fail_threshold-given :
    (fl : Flags) (threshold : Severity)
    → fl.fail_on ≢ []
    → parse_severity (to_lower fl.fail_on) ≡ some threshold
    → fail_threshold fl.fail_on ≡ some threshold
unfolding fail_threshold
fail_threshold-given fl threshold given parsed = ground (arith, eqb_iff fl.fail_on [])

audit_domains-success :
    (w : World) (format : Format) (opts : Options) (domains : List Bytes)
    → Written w format opts domains
    → audit_domains w format opts 0 domains false ≡ success
unfolding audit_domains
audit_domains-success w format opts [] ok = refl
audit_domains-success w format opts (d ∷ domains) ok =
    ground (arith, audit_domains-success w format opts domains ok.1)

-- On a command line that is carried out, without --fail-on, and where every report could be
-- written, run succeeds whatever was found.
pub run_flags-success :
    (w : World) (fl : Flags)
    → IsAudit fl
    → fl.fail_on ≡ []
    → Written w (select_format fl) (options_of fl) fl.domains
    → run_flags w fl ≡ success
unfolding fail_threshold zone_lint.Common.eqb
run_flags-success w fl valid none_given ok =
    run_flags-audit_domains w fl 0 valid (rw (none_given, fail_threshold) refl)
    ∙ audit_domains-success w (select_format fl) (options_of fl) fl.domains ok

-- On a command line that is carried out, with a severity in --fail-on, and where every report
-- could be written, the process exits with 1 exactly if the worst finding of some domain is at or
-- above that severity.
pub run_flags_iff :
    (w : World) (fl : Flags) (threshold : Severity)
    → IsAudit fl
    → fl.fail_on ≢ []
    → parse_severity (to_lower fl.fail_on) ≡ some threshold
    → Written w (select_format fl) (options_of fl) fl.domains
    → (exit_code (run_flags w fl) ≡ 1)
      ↔ Any (λ d. threshold ≤ max_severity (w.audit d (options_of fl)).findings) fl.domains
run_flags_iff w fl threshold valid given parsed ok =
    let positive : 0 < threshold =
      ground
        (arith, parse_severity_iff (to_lower fl.fail_on) threshold, severity_valid_iff threshold) in
    rw
      (run_flags-audit_domains w fl threshold valid
        (fail_threshold-given fl threshold given parsed))
      (ground (
        arith,
        audit_domains_iff w (select_format fl) (options_of fl) threshold fl.domains false positive
            ok,
      ))
