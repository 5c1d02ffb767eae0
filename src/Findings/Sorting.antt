-- ===== src/Findings/Sorting.antt =====
-- internal/findings/findings.go: Compare and Sort, the order of every report.
use mathlib.Core.List.{Perm, Pairwise}
use mathlib.Core.List.Perm
use zone_lint.Common.{Bytes, List, map, true, Ordering, compare, ◌≡◌, refl, sym, ◌∙◌, arith}
use zone_lint.Common.Order.{
  IsOrder, or_else, then_by, then_by-IsOrder, lex, lex-IsOrder, lex-eq, is_le, compare_text,
  compare_text-IsOrder, compare_text-eq,
}
use zone_lint.Common.Sort.{
  sort_by, sort_by-perm, sort_by-IsSorted, sort_by-eq_of_perm, map-sort_by, on-IsOrder,
}
use zone_lint.Findings.{Severity, Finding}

-- Compare: the severities are compared the other way round, so the most severe come first.
unfoldable pub compare_findings : Finding → Finding → Ordering
unfolding compare_text lex
compare_findings a b = or_else (compare b.severity a.severity) (
    or_else (compare_text a.id b.id) (
      or_else (compare_text a.subject b.subject) (
        or_else (compare_text a.description b.description)
          (lex compare_text a.evidence b.evidence))))

-- Sort, on the slice that it leaves behind.
unfoldable pub sort_findings : List Finding → List Finding
unfolding sort_by compare_findings
sort_findings = sort_by compare_findings

-- What a report orders its findings by.
pub record Key : Type 0 where
  pub severity : Severity
  pub id : Bytes
  pub subject : Bytes
  pub description : Bytes
  pub evidence : List Bytes

abbrev pub key : Finding → Key
key f = record {
  severity = f.severity;
  id = f.id;
  subject = f.subject;
  description = f.description;
  evidence = f.evidence;
}

abbrev by_severity : Key → Key → Ordering
by_severity a b = compare b.severity a.severity

abbrev compare_keys : Key → Key → Ordering
compare_keys = then_by by_severity (
    then_by (λ a b. compare_text a.id b.id)
      (then_by (λ a b. compare_text a.subject b.subject)
        (then_by (λ a b. compare_text a.description b.description)
          (λ a b. lex compare_text a.evidence b.evidence))))

compare_findings-key : (a b : Finding) → compare_findings a b ≡ compare_keys (key a) (key b)
unfolding compare_findings
compare_findings-key a b = refl

compare_keys-IsOrder : IsOrder compare_keys
compare_keys-IsOrder =
    then_by-IsOrder _ _ (record { flip = λ x y. ground arith; trans = λ x y z. ground arith })
      (then_by-IsOrder _ _ (on-IsOrder compare_text (λ (k : Key). k.id) compare_text-IsOrder) (
        then_by-IsOrder _ _ (on-IsOrder compare_text (λ (k : Key). k.subject) compare_text-IsOrder)
          (then_by-IsOrder _ _
            (on-IsOrder compare_text (λ (k : Key). k.description) compare_text-IsOrder)
            (on-IsOrder (lex compare_text) (λ (k : Key). k.evidence)
              (lex-IsOrder compare_text compare_text-IsOrder)))))

compare_keys-eq : (a b : Key) → compare_keys a b ≡ Ordering.eq → a ≡ b
compare_keys-eq a b h = ground (
  arith,
  compare_text-eq a.id b.id,
  compare_text-eq a.subject b.subject,
  compare_text-eq a.description b.description,
  lex-eq compare_text compare_text-IsOrder compare_text-eq a.evidence b.evidence,
)

pub compare_findings-IsOrder : IsOrder compare_findings
unfolding compare_findings
compare_findings-IsOrder = on-IsOrder compare_keys key compare_keys-IsOrder

-- Sort rearranges the findings, and no finding stands behind one that Compare puts after it.
pub sort_findings-IsSorted :
    (fs : List Finding)
    → Perm (sort_findings fs) fs
      × Pairwise (λ a b. is_le (compare_findings a b) ≡ true) (sort_findings fs)
unfolding sort_findings
sort_findings-IsSorted fs = (
  sort_by-perm compare_findings fs,
  sort_by-IsSorted compare_findings compare_findings-IsOrder fs,
)

-- Two arrangements of the same findings are sorted to lists that agree in severity, ID, subject,
-- description and evidence at each place.
pub sort_findings-eq_of_perm :
    {fs gs : List Finding} → Perm fs gs → map key (sort_findings fs) ≡ map key (sort_findings gs)
unfolding sort_findings compare_findings
sort_findings-eq_of_perm {fs} {gs} p =
    map-sort_by compare_keys key fs
    ∙ sort_by-eq_of_perm compare_keys compare_keys-IsOrder compare_keys-eq (Perm.map key p)
    ∙ sym (map-sort_by compare_keys key gs)
