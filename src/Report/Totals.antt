-- ===== src/Report/Totals.antt =====
-- The summary of a report counts every finding once.
use zone_lint.Common.{ℕ, length, List, [], ◌∷◌, ◌≡◌, refl, ◌+◌, ◌==◌, arith, if◌then◌else◌}
use zone_lint.Findings.{
  Severity, severity_pass, severity_info, severity_low, severity_medium, severity_high,
  severity_critical, Finding,
}
use zone_lint.Findings.Severity.{severity_valid, severity_names, name_in}
use zone_lint.Report.{Summary, build_summary, count_severity, summary_onto}

-- How many findings have the severity.
abbrev pub with_level : Severity → List Finding → ℕ
with_level s [] = 0
with_level s (f ∷ fs) = (if f.severity == s then 1 else 0) + with_level s fs

-- How many findings have a severity that is none of the six.
abbrev pub invalid : List Finding → ℕ
invalid [] = 0
invalid (f ∷ fs) = (if severity_valid f.severity then 0 else 1) + invalid fs

-- What a summary holds after the findings were counted onto `s`.
abbrev Counted : Summary → List Finding → Summary → Type 0
Counted s fs t =
    (t.critical ≡ s.critical + with_level severity_critical fs)
    × ((t.high ≡ s.high + with_level severity_high fs)
        × ((t.medium ≡ s.medium + with_level severity_medium fs)
            × ((t.low ≡ s.low + with_level severity_low fs)
                × ((t.info ≡ s.info + with_level severity_info fs)
                    × ((t.pass ≡ s.pass + with_level severity_pass fs)
                        × (t.total ≡ s.total + length fs))))))

summary_onto-Counted : (fs : List Finding) (s : Summary) → Counted s fs (summary_onto fs s)
unfolding summary_onto count_severity
summary_onto-Counted [] s = ground arith
summary_onto-Counted (f ∷ fs) s =
    ground (
      arith,
      summary_onto-Counted fs (count_severity f.severity (record s { total = s.total + 1 })),
    )

levels :
    (fs : List Finding)
    → length fs
      ≡ with_level severity_critical fs
        + (with_level severity_high fs
            + (with_level severity_medium fs
                + (with_level severity_low fs
                    + (with_level severity_info fs + (with_level severity_pass fs + invalid fs)))))
unfolding severity_valid severity_names name_in
levels [] = refl
levels (f ∷ fs) = ground (arith, levels fs)

-- Each count of a summary is the number of findings of that severity, and the total is the number
-- of findings, which is the sum of the six counts and of the findings whose severity is none of
-- the six.
pub build_summary-total :
    (fs : List Finding)
    → let s = build_summary fs in
      (s.critical ≡ with_level severity_critical fs)
      × ((s.high ≡ with_level severity_high fs)
          × ((s.medium ≡ with_level severity_medium fs)
              × ((s.low ≡ with_level severity_low fs)
                  × ((s.info ≡ with_level severity_info fs)
                      × ((s.pass ≡ with_level severity_pass fs)
                          × ((s.total ≡ length fs)
                              × (s.total
                                  ≡ s.critical
                                    + (s.high
                                        + (s.medium
                                            + (s.low + (s.info + (s.pass + invalid fs))))))))))))
unfolding build_summary
build_summary-total fs =
    let zeros : Summary = record {
      critical = 0;
      high = 0;
      medium = 0;
      low = 0;
      info = 0;
      pass = 0;
      total = 0;
    } in
    ground (arith, summary_onto-Counted fs zeros, levels fs)
