-- ===== src/Main.antt =====
-- cmd/zonelint/main.go: run, from the parsed command line to the exit code. The flag package's
-- parser, the audit of a domain and the writing of a report are parameters.
pub mod ExitCodes
use zone_lint.Common.{
  ℕ, Bytes, text, eqb, to_lower, length, List, [], ◌∷◌, Bool, true, false, ◌&&◌, not, Option, none,
  some, ◌==◌, leb, ltb, if◌then◌else◌,
}
use zone_lint.Audit.{Options, Result}
use zone_lint.Findings.{Severity, Finding}
use zone_lint.Findings.Severity.{parse_severity}
use zone_lint.Report.{
  Format, Summary, Marshal, format_human, format_json, format_sarif, build_summary, render,
}

-- The flags and the remaining arguments.
pub record Flags : Type 0 where
  pub json : Bool
  pub format : Bytes
  pub active : Bool
  pub resolver : Bytes
  pub profile : Bytes
  pub fail_on : Bytes
  pub timeout : ℕ
  pub max_qps : ℕ
  pub max_queries : ℕ
  pub show_axfr : Bool
  pub show_version : Bool
  pub domains : List Bytes

-- What fs.Parse does: it asks for the usage text, fails, or sets the flags.
pub data Parsed : Type 0 where
  help_requested : Parsed
  bad_flags : Parsed
  flags : Flags → Parsed

-- The ways in which run returns. `success`, `usage_printed` and `version_printed` are a nil error.
pub data Exit : Type 0 where
  success : Exit
  usage_printed : Exit
  version_printed : Exit
  flag_error : Exit
  no_domain : Exit
  unknown_format : Exit
  unknown_fail_on : Exit
  report_failed : Exit
  at_threshold : Exit

-- main: the exit status of the process.
unfoldable pub exit_code : Exit → ℕ
exit_code success = 0
exit_code usage_printed = 0
exit_code version_printed = 0
exit_code flag_error = 1
exit_code no_domain = 1
exit_code unknown_format = 1
exit_code unknown_fail_on = 1
exit_code report_failed = 1
exit_code at_threshold = 1

-- The outside of run: the audit of a domain, the JSON encoder, and whether a text could be written.
pub record World : Type 0 where
  pub audit : Bytes → Options → Result
  pub marshal : Marshal
  pub write : Bytes → Bool

-- writeReport, up to the line that it prints on stderr: false for an error.
unfoldable pub write_report : World → Bytes → Format → Result → Bool
write_report w domain format res =
    elim (render w.marshal domain format (build_summary res.findings) res.findings res.queries
      res.records) [ none ↦ false | some out ↦ w.write out ]

-- The inner loop, which stops at the first finding at or above the threshold.
unfoldable pub reaches : Severity → List Finding → Bool
reaches threshold [] = false
reaches threshold (f ∷ fs) =
    let rest = reaches threshold fs in if leb threshold f.severity then true else rest

-- The loop over the domains; `failing` is exitCode.
unfoldable pub audit_domains : World → Format → Options → Severity → List Bytes → Bool → Exit
audit_domains w format opts threshold [] failing = if failing then at_threshold else success
audit_domains w format opts threshold (domain ∷ domains) failing =
    let res = w.audit domain opts in
    let next = if ltb 0 threshold && reaches threshold res.findings then true else failing in
    let rest = audit_domains w format opts threshold domains next in
    if write_report w domain format res then rest else report_failed

-- The switch that selects the format.
unfoldable pub select_format : Flags → Format
select_format fl =
    if not (eqb fl.format []) then fl.format else if fl.json then format_json else format_human

unfoldable pub known_format : Format → Bool
known_format format = not (
    not (eqb format format_human)
    && (not (eqb format format_json) && not (eqb format format_sarif)))

-- The threshold of --fail-on: 0 where the flag is empty, `none` for an error.
unfoldable pub fail_threshold : Bytes → Option Severity
fail_threshold fail_on = if not (eqb fail_on []) then parse_severity (to_lower fail_on) else some 0

unfoldable pub options_of : Flags → Options
options_of fl = record {
  resolver = fl.resolver;
  profile = fl.profile;
  timeout = fl.timeout;
  max_qps = fl.max_qps;
  max_queries = fl.max_queries;
  active = fl.active;
  show_axfr = fl.show_axfr;
}

-- Whether the arguments are the one word "version".
abbrev pub asks_version : List Bytes → Bool
asks_version [] = false
asks_version (d ∷ []) = eqb d (text "version")
asks_version (d ∷ e ∷ ds) = false

-- run, after the flags were parsed.
unfoldable pub run_flags : World → Flags → Exit
run_flags w fl =
    if fl.show_version
    then version_printed
    else if length fl.domains == 0
    then no_domain
    else if asks_version fl.domains
    then version_printed
    else if not (known_format (select_format fl))
    then unknown_format
    else elim (fail_threshold fl.fail_on) [
      | none ↦ unknown_fail_on
      | some threshold ↦
          audit_domains w (select_format fl) (options_of fl) threshold fl.domains false
    ]

-- run
unfoldable pub run : (List Bytes → Parsed) → World → List Bytes → Exit
run parse w args = elim (parse args) [
  | help_requested ↦ usage_printed
  | bad_flags ↦ flag_error
  | flags fl ↦ run_flags w fl
]
