-- ===== src/Findings/Tally.antt =====
-- internal/findings/findings.go: Max, Counts and AtLeast.
use zone_lint.Common.{
  ℕ, Bytes, eqb, eqb_iff, Bool-cases, List, [], ◌∷◌, map, max, leb, if◌then◌else◌, All, Any, ◌+◌,
  ◌≤◌, ◌<◌, ◌≡◌, ◌↔◌, ◌⊎◌, inl, inr, refl, sym, ◌∙◌, arith,
}
use zone_lint.Findings.{Severity, Finding}
use zone_lint.Findings.Severity.{severity_names, severity_string}

-- The loop of Max.
max_from : Severity → List Finding → Severity
max_from m [] = m
max_from m (f ∷ fs) = max_from (max m f.severity) fs

-- Max: 0 on no finding.
unfoldable pub max_severity : List Finding → Severity
unfolding max_from
max_severity = max_from 0

-- AtLeast
unfoldable pub at_least : List Finding → Severity → List Finding
at_least [] threshold = []
at_least (f ∷ fs) threshold =
    let rest = at_least fs threshold in if leb threshold f.severity then f ∷ rest else rest

-- The map of Counts, with an entry for every name from the start; `c[name]++` adds one.
abbrev pub Tally : Type 0
Tally = List (Bytes × ℕ)

unfoldable pub increment : Bytes → Tally → Tally
increment name [] = (name, 1) ∷ []
increment name ((n, k) ∷ c) = if eqb n name then (n, k + 1) ∷ c else (n, k) ∷ increment name c

count_onto : List Finding → Tally → Tally
unfolding increment
count_onto [] c = c
count_onto (f ∷ fs) c = count_onto fs (increment (severity_string f.severity) c)

-- Counts
unfoldable pub counts : List Finding → Tally
unfolding count_onto
counts fs = count_onto fs (map (λ e. (e.1, 0)) severity_names)

max_cases : (a b : ℕ) → (max a b ≡ a) ⊎ (max a b ≡ b)
max_cases a b = ground arith

max_from-le :
    (m : Severity) (fs : List Finding)
    → (m ≤ max_from m fs) × All (λ f. f.severity ≤ max_from m fs) fs
unfolding max_from
max_from-le m [] = (omega arith, tt)
max_from-le m (f ∷ fs) =
    let (above, all) = max_from-le (max m f.severity) fs in (omega arith, (omega arith, all))

max_from-attained :
    (m : Severity) (fs : List Finding)
    → (max_from m fs ≡ m) ⊎ Any (λ f. f.severity ≡ max_from m fs) fs
unfolding max_from
max_from-attained m [] = inl refl
max_from-attained m (f ∷ fs) = elim (max_from-attained (max m f.severity) fs) [
  | inl e ↦ elim (max_cases m f.severity) [
    | inl left ↦ inl (e ∙ left)
    | inr right ↦ inr (inl (sym (e ∙ right)))
  ]
  | inr found ↦ inr (inr found)
]

-- Max bounds the severity of every finding, and if it is not 0 some finding has it.
pub max_severity_lem :
    (fs : List Finding)
    → All (λ f. f.severity ≤ max_severity fs) fs
      × ((max_severity fs ≡ 0) ⊎ Any (λ f. f.severity ≡ max_severity fs) fs)
unfolding max_severity
max_severity_lem fs = ((max_from-le 0 fs).1, max_from-attained 0 fs)

at_least-nil_from :
    (m : Severity) (fs : List Finding) (threshold : Severity)
    → m < threshold
    → (at_least fs threshold ≡ []) ↔ (max_from m fs < threshold)
unfolding at_least max_from
at_least-nil_from m [] threshold h = (λ _. h, λ _. refl)
at_least-nil_from m (f ∷ fs) threshold h = elim (Bool-cases (leb threshold f.severity)) [
  | inl e ↦ rw e (
    λ bad. absurd (ground arith),
    λ less. absurd (ground (arith, (max_from-le (max m f.severity) fs).0)),
  )
  | inr e ↦ rw e (at_least-nil_from (max m f.severity) fs threshold (ground arith))
]

-- AtLeast is empty exactly when Max is below a threshold that is not 0.
pub at_least-nil_iff :
    (fs : List Finding) (threshold : Severity)
    → 0 < threshold
    → (at_least fs threshold ≡ []) ↔ (max_severity fs < threshold)
unfolding max_severity
at_least-nil_iff fs threshold h = at_least-nil_from 0 fs threshold h

-- The value of a key in the map, 0 where there is none.
abbrev pub count_of : Bytes → Tally → ℕ
count_of name [] = 0
count_of name ((n, k) ∷ c) = if eqb n name then k else count_of name c

-- How many findings have a severity that String prints as `name`.
abbrev pub named : Bytes → List Finding → ℕ
named name [] = 0
named name (f ∷ fs) = (if eqb (severity_string f.severity) name then 1 else 0) + named name fs

count_of-increment :
    (name n : Bytes) (c : Tally)
    → count_of name (increment n c) ≡ count_of name c + (if eqb n name then 1 else 0)
unfolding increment
count_of-increment name n [] = ground (arith, eqb_iff n name)
count_of-increment name n ((j, k) ∷ c) =
    ground (arith, eqb_iff n name, eqb_iff j name, eqb_iff j n, count_of-increment name n c)

count_of-count_onto :
    (name : Bytes) (fs : List Finding) (c : Tally)
    → count_of name (count_onto fs c) ≡ count_of name c + named name fs
unfolding count_onto
count_of-count_onto name [] c = omega arith
count_of-count_onto name (f ∷ fs) c = omega (
  arith,
  count_of-count_onto name fs (increment (severity_string f.severity) c),
  count_of-increment name (severity_string f.severity) c,
)

count_of-zero :
    (name : Bytes) (l : List (Severity × Bytes)) → count_of name (map (λ e. (e.1, 0)) l) ≡ 0
count_of-zero name [] = refl
count_of-zero name ((s, n) ∷ l) = ground (arith, count_of-zero name l)

-- Counts gives every name the number of findings whose severity prints as that name.
pub count_of-counts : (name : Bytes) (fs : List Finding) → count_of name (counts fs) ≡ named name fs
unfolding counts
count_of-counts name fs = omega (
  arith,
  count_of-count_onto name fs (map (λ e. (e.1, 0)) severity_names),
  count_of-zero name severity_names,
)
