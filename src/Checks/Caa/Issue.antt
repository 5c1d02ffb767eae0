-- ===== src/Checks/Caa/Issue.antt =====
-- Which values of an issue or issuewild record the CAA check takes for well formed.
use zone_lint.Common.{
  ℕ, ◌≤◌, ◌==◌, ltb, Bytes, text, eqb_iff, split, length, trim_space, all, All, List, [], ◌∷◌, ◌++◌,
  Bool-cases, inl, inr, not, ◌||◌, none, some, true, ◌≡◌, ◌≢◌, ◌↔◌, ◌⊎◌, refl, sym, ap, ◌∙◌, arith,
}
use zone_lint.Checks.Caa.{valid_domain_label, cut, validate_parts, validate_issue}

-- A domain name as the check wants it: of 1 to 253 bytes, in labels of 1 to 63 bytes.
abbrev pub IsDomain : Bytes → Type 0
IsDomain s =
    (s ≢ [])
    × ((length s ≤ 253) × All (λ label. (1 ≤ length label) × (length label ≤ 63)) (split b'.' s))

all-labels_iff :
    (labels : List Bytes)
    → (all (λ label. not (length label == 0 || ltb 63 (length label))) labels ≡ true)
      ↔ All (λ label. (1 ≤ length label) × (length label ≤ 63)) labels
all-labels_iff [] = ground arith
all-labels_iff (label ∷ labels) = ground (arith, all-labels_iff labels)

valid_domain_label_iff : (s : Bytes) → (valid_domain_label s ≡ true) ↔ IsDomain s
unfolding valid_domain_label
valid_domain_label_iff s = ground (arith, eqb_iff s [], all-labels_iff (split b'.' s))

-- What may stand before the semicolon of an issue value, and behind it: no domain, up to blanks, with
-- whatever stands behind it, or a domain with nothing or a domain behind it.
abbrev pub AreParts : Bytes → Bytes → Type 0
AreParts domain value =
    (trim_space domain ≡ []) ⊎ (IsDomain (trim_space domain) × ((value ≡ []) ⊎ IsDomain value))

validate_parts_iff :
    (domain value : Bytes) → (validate_parts domain value ≡ []) ↔ AreParts domain value
unfolding validate_parts text
validate_parts_iff domain value = ground (
  arith,
  eqb_iff (trim_space domain) [],
  eqb_iff value [],
  valid_domain_label_iff (trim_space domain),
  valid_domain_label_iff value,
)

-- The value is cut at its first semicolon.
abbrev pub IsCut : Bytes → Bytes → Bytes → Type 0
IsCut value before after = (value ≡ before ++ b';' ∷ after) × All (λ c. c ≢ b';') before

data CutCases (value : Bytes) : Type 0 where
  whole : cut value ≡ none → All (λ c. c ≢ b';') value → CutCases value
  parts :
      (before after : Bytes)
      → cut value ≡ some (before, after)
      → IsCut value before after
      → CutCases value

cut-onto : (c : ℕ) (s : Bytes) → c ≢ b';' → CutCases s → CutCases (c ∷ s)
unfolding cut
cut-onto c s other (whole e h) = whole (ground arith) (other, h)
cut-onto c s other (parts before after e (same, h)) =
    parts (c ∷ before) after (ground arith) (ap (◌∷◌ c) same, (other, h))

cut-cases : (value : Bytes) → CutCases value
unfolding cut
cut-cases [] = whole refl tt
cut-cases (c ∷ s) = elim (Bool-cases (c == b';')) [
  | inl e ↦ parts [] s (rw (e, cut) refl) (ground arith, tt)
  | inr e ↦ cut-onto c s (ground arith) (cut-cases s)
]

cut-none : (value : Bytes) → All (λ c. c ≢ b';') value → cut value ≡ none
unfolding cut
cut-none [] h = refl
cut-none (c ∷ s) h = ground (arith, h.0, cut-none s h.1)

cut-append :
    (before after : Bytes)
    → All (λ c. c ≢ b';') before
    → cut (before ++ b';' ∷ after) ≡ some (before, after)
unfolding cut
cut-append [] after h = refl
cut-append (c ∷ s) after h = ground (arith, h.0, cut-append s after h.1)

-- A value without a semicolon is the issuer and what stands behind it at once.
abbrev pub IsIssue : Bytes → Type 0
IsIssue value =
    (All (λ c. c ≢ b';') value × AreParts value value)
    ⊎ ((before : Bytes) × ((after : Bytes) × (IsCut value before after × AreParts before after)))

validate_issue-whole :
    (value : Bytes) → cut value ≡ none → validate_issue value ≡ validate_parts value value
unfolding validate_issue
validate_issue-whole value e = rw (e, validate_issue) refl

validate_issue-parts :
    (value before after : Bytes)
    → cut value ≡ some (before, after)
    → validate_issue value ≡ validate_parts before after
unfolding validate_issue
validate_issue-parts value before after e = rw (e, validate_issue) refl

IsIssue-of : (value : Bytes) → CutCases value → validate_issue value ≡ [] → IsIssue value
IsIssue-of value (whole e h) v =
    inl (h, (validate_parts_iff value value).0 (sym (validate_issue-whole value e) ∙ v))
IsIssue-of value (parts before after e h) v = inr (
  before,
  (
    after,
    (h, (validate_parts_iff before after).0 (sym (validate_issue-parts value before after e) ∙ v)),
  ),
)

validate_issue-of : (value : Bytes) → IsIssue value → validate_issue value ≡ []
validate_issue-of value (inl (h, p)) =
    validate_issue-whole value (cut-none value h) ∙ (validate_parts_iff value value).1 p
validate_issue-of value (inr (before, (after, ((same, h), p)))) =
    validate_issue-parts value before after (ap cut same ∙ cut-append before after h)
    ∙ (validate_parts_iff before after).1 p

pub validate_issue_iff : (value : Bytes) → (validate_issue value ≡ []) ↔ IsIssue value
validate_issue_iff value = (IsIssue-of value (cut-cases value), validate_issue-of value)

pub validate_issue-nil : validate_issue [] ≡ []
unfolding validate_issue cut validate_parts trim_space
validate_issue-nil = refl
