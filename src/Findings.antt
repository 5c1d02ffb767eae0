-- ===== src/Findings.antt =====
-- internal/findings/findings.go: severities, rules, findings and how they are built.
pub mod Urls
pub mod Catalog
pub mod Sorting
pub mod Tally
pub mod Severity
use zone_lint.Common.{ℕ, Bytes, List, [], ◌++◌}

-- The zero value is no severity; the defined ones are 1 to 6.
abbrev pub Severity : Type 0
Severity = ℕ

abbrev pub severity_pass : Severity
severity_pass = 1

abbrev pub severity_info : Severity
severity_info = 2

abbrev pub severity_low : Severity
severity_low = 3

abbrev pub severity_medium : Severity
severity_medium = 4

abbrev pub severity_high : Severity
severity_high = 5

abbrev pub severity_critical : Severity
severity_critical = 6

-- The string constants of type Category, by their names.
pub data Category : Type 0 where
  violation weakness hardening informational : Category

-- The string constants of type Component, by their names.
pub data Component : Type 0 where
  delegation auth_server soa axfr dnssec ttl caa cname address wildcard : Component
  recursion transport general : Component

pub record Rule : Type 0 where
  pub id : Bytes
  pub component : Component
  pub category : Category
  pub severity : Severity
  pub title : Bytes
  pub recommendation : Bytes
  pub references : List Bytes

pub record Finding : Type 0 where
  pub id : Bytes
  pub severity : Severity
  pub category : Category
  pub component : Component
  pub title : Bytes
  pub subject : Bytes
  pub description : Bytes
  pub evidence : List Bytes
  pub recommendation : Bytes
  pub references : List Bytes
  pub zone : Bytes

-- Rule.New
unfoldable pub new : Rule → Bytes → Bytes → List Bytes → Finding
new r subject description evidence = record {
  id = r.id;
  severity = r.severity;
  category = r.category;
  component = r.component;
  title = r.title;
  subject = subject;
  description = description;
  evidence = evidence;
  recommendation = r.recommendation;
  references = r.references;
  zone = [];
}

-- Finding.WithSeverity, Rule.WithSeverity, Finding.WithEvidence, Finding.WithZone
unfoldable pub with_severity : Finding → Severity → Finding
with_severity f s = record f { severity = s }

unfoldable pub rule_with_severity : Rule → Severity → Rule
rule_with_severity r s = record r { severity = s }

unfoldable pub with_evidence : Finding → List Bytes → Finding
with_evidence f evidence = record f { evidence = f.evidence ++ evidence }

unfoldable pub with_zone : Finding → Bytes → Finding
with_zone f zone = record f { zone = zone }
