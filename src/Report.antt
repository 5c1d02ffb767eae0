-- ===== src/Report.antt =====
-- internal/report/report.go: the summary, the human report, and the data of the JSON and SARIF
-- reports. Turning that data into text is encoding/json, which is a parameter of `render`.
pub mod Totals
pub mod RuleIds
use zone_lint.Common.{
  ℕ, Bytes, text, eqb, itoa, join, length, List, [], ◌∷◌, ◌++◌, map, Bool, true, false, ◌&&◌, ◌||◌,
  Option, none, some, ◌+◌, ◌-◌, ◌==◌, leb, ltb, if◌then◌else◌,
}
use zone_lint.Common.Dict.{Dict, find, put}
use zone_lint.Common.Order.{compare_text}
use zone_lint.Common.Sort.{sort_by}
use zone_lint.Findings.{
  Severity, severity_pass, severity_info, severity_low, severity_medium, severity_high,
  severity_critical, Category, Component, Finding,
}
use zone_lint.Findings.Severity.{severity_string}
use zone_lint.Findings.Sorting.{sort_findings}

-- Format is a string type.
abbrev pub Format : Type 0
Format = Bytes

unfoldable pub format_human : Format
format_human = text "human"

unfoldable pub format_json : Format
format_json = text "json"

unfoldable pub format_sarif : Format
format_sarif = text "sarif"

pub record Summary : Type 0 where
  pub critical : ℕ
  pub high : ℕ
  pub medium : ℕ
  pub low : ℕ
  pub info : ℕ
  pub pass : ℕ
  pub total : ℕ

-- One round of the loop of BuildSummary, after `s.Total++`: the switch on the severity.
unfoldable pub count_severity : Severity → Summary → Summary
count_severity sev s =
    if sev == severity_critical
    then record s { critical = s.critical + 1 }
    else if sev == severity_high
    then record s { high = s.high + 1 }
    else if sev == severity_medium
    then record s { medium = s.medium + 1 }
    else if sev == severity_low
    then record s { low = s.low + 1 }
    else if sev == severity_info
    then record s { info = s.info + 1 }
    else if sev == severity_pass
    then record s { pass = s.pass + 1 }
    else s

unfoldable pub summary_onto : List Finding → Summary → Summary
unfolding count_severity
summary_onto [] s = s
summary_onto (f ∷ fs) s =
    summary_onto fs (count_severity f.severity (record s { total = s.total + 1 }))

-- BuildSummary
unfoldable pub build_summary : List Finding → Summary
build_summary fs =
    summary_onto fs
      (record { critical = 0; high = 0; medium = 0; low = 0; info = 0; pass = 0; total = 0 })

-- strings.ToUpper on ASCII.
unfoldable pub to_upper : Bytes → Bytes
to_upper = map (λ c. if leb b'a' c && leb c b'z' then c - 32 else c)

unfoldable pub evidence_lines : List Bytes → Bytes
evidence_lines [] = []
evidence_lines (e ∷ es) = text "  Evidence: " ++ (e ++ (text "\n" ++ evidence_lines es))

-- The lines of one finding in the human report.
unfoldable pub human_finding : Finding → Bytes
human_finding f = join [] (
    text "["
    ∷ to_upper (severity_string f.severity)
    ∷ text "] "
    ∷ f.id
    ∷ text " — "
    ∷ f.title
    ∷ text "\n"
    ∷ (if eqb f.subject [] then [] else text "  Subject: " ++ (f.subject ++ text "\n"))
    ∷ text "  "
    ∷ f.description
    ∷ text "\n"
    ∷ evidence_lines f.evidence
    ∷ (if eqb f.recommendation []
        then []
        else text "  Recommendation: " ++ (f.recommendation ++ text "\n"))
    ∷ (if ltb 0 (length f.references)
        then text "  References: " ++ (join (text ", ") f.references ++ text "\n")
        else [])
    ∷ text "\n"
    ∷ [])

unfoldable pub human_findings : List Finding → Bytes
unfolding human_finding
human_findings [] = []
human_findings (f ∷ fs) = human_finding f ++ human_findings fs

-- human
unfoldable pub human : Bytes → Summary → List Finding → Bytes
unfolding human_findings
human zone s fs = join [] (
    text "ZoneLint report for "
    ∷ zone
    ∷ text "\nSeverity: critical="
    ∷ itoa s.critical
    ∷ text " high="
    ∷ itoa s.high
    ∷ text " medium="
    ∷ itoa s.medium
    ∷ text " low="
    ∷ itoa s.low
    ∷ text " info="
    ∷ itoa s.info
    ∷ text " pass="
    ∷ itoa s.pass
    ∷ text " total="
    ∷ itoa s.total
    ∷ text "\n\n"
    ∷ human_findings (sort_findings fs)
    ∷ [])

-- An entry of findingsToJSON; the optional keys are Options.
pub record FindingJson : Type 0 where
  pub id : Bytes
  pub severity : Bytes
  pub category : Category
  pub component : Component
  pub title : Bytes
  pub description : Bytes
  pub evidence : List Bytes
  pub recommendation : Bytes
  pub references : List Bytes
  pub subject : Option Bytes
  pub zone : Option Bytes

-- A key that is left out where its text is empty.
abbrev nonempty : Bytes → Option Bytes
nonempty [] = none
nonempty (c ∷ s) = some (c ∷ s)

-- findingsToJSON
unfoldable pub findings_to_json : List Finding → List FindingJson
findings_to_json = map (λ f. record {
  id = f.id;
  severity = severity_string f.severity;
  category = f.category;
  component = f.component;
  title = f.title;
  description = f.description;
  evidence = f.evidence;
  recommendation = f.recommendation;
  references = f.references;
  subject = nonempty f.subject;
  zone = nonempty f.zone;
})

-- The map that JSON marshals.
pub record JsonReport : Type 0 where
  pub zone : Bytes
  pub summary : Summary
  pub findings : List FindingJson
  pub queries : Option ℕ
  pub records : Option ℕ

-- The keys "queries" and "records" are set above 0 only.
abbrev positive : ℕ → Option ℕ
positive n = if ltb 0 n then some n else none

unfoldable pub json_report : Bytes → Summary → List Finding → ℕ → ℕ → JsonReport
unfolding findings_to_json
json_report zone s fs queries records = record {
  zone = zone;
  summary = s;
  findings = findings_to_json fs;
  queries = positive queries;
  records = positive records;
}

pub record SarifRule : Type 0 where
  pub id : Bytes
  pub text : Bytes

pub record SarifResult : Type 0 where
  pub rule_id : Bytes
  pub level : Bytes
  pub message : Bytes
  pub attachments : Bool
  pub location : Bytes

pub record SarifReport : Type 0 where
  pub rules : List SarifRule
  pub results : List SarifResult

-- sarifLevel
unfoldable pub sarif_level : Severity → Bytes
sarif_level sev =
    if sev == severity_critical || sev == severity_high
    then text "error"
    else if sev == severity_medium
    then text "warning"
    else text "note"

-- The map from the IDs of the findings to their titles.
unfoldable pub titles_onto : List Finding → Dict Bytes → Dict Bytes
unfolding put
titles_onto [] rules = rules
titles_onto (f ∷ fs) rules = titles_onto fs (put f.id f.title rules)

-- A read of the map: a missing key reads as the empty text.
abbrev pub title_of : Bytes → Dict Bytes → Bytes
title_of k rules = elim (find k rules) [ none ↦ [] | some t ↦ t ]

-- ruleList
unfoldable pub rule_list : Dict Bytes → List SarifRule
unfolding find sort_by
rule_list rules =
    map (λ k. record { id = k; text = title_of k rules })
      (sort_by compare_text (map (λ e. e.0) rules))

-- The data that sarif marshals.
unfoldable pub sarif_report : Bytes → List Finding → SarifReport
sarif_report zone fs = record {
  rules = rule_list (titles_onto fs []);
  results =
      map
        (λ f. record {
          rule_id = f.id;
          level = sarif_level f.severity;
          message = f.description;
          attachments = ltb 0 (length f.evidence);
          location = zone;
        })
        fs;
}

-- encoding/json: the text of a value, or an error.
pub record Marshal : Type 0 where
  pub json : JsonReport → Option Bytes
  pub sarif : SarifReport → Option Bytes

-- A marshalled text and its final newline.
abbrev with_newline : Option Bytes → Option Bytes
with_newline none = none
with_newline (some enc) = some (enc ++ text "\n")

-- Render, up to the write of the text: an error of the encoder is `none`.
unfoldable pub render : Marshal → Bytes → Format → Summary → List Finding → ℕ → ℕ → Option Bytes
render encoder zone format s fs queries records =
    if eqb format format_json
    then with_newline (encoder.json (json_report zone s fs queries records))
    else if eqb format format_sarif
    then with_newline (encoder.sarif (sarif_report zone fs))
    else some (human zone s fs)
