-- ===== src/Findings/Severity.antt =====
-- internal/findings/findings.go: the names of the severities, String, Valid and ParseSeverity.
use zone_lint.Common.{
  ℕ, Bytes, text, eqb, eqb_iff, itoa, List, [], ◌∷◌, ◌++◌, map, Bool, true, false, ◌&&◌, ◌==◌, leb,
  ◌+◌, ◌≤◌, All, Any, Option, none, some, if◌then◌else◌, ◌≡◌, ◌↔◌, ◌⊎◌, sym, ap₂, arith,
}
use zone_lint.Findings.{
  Severity, severity_pass, severity_info, severity_low, severity_medium, severity_high,
  severity_critical,
}

-- severityNames
unfoldable pub severity_names : List (Severity × Bytes)
severity_names =
    (severity_pass, text "pass")
    ∷ (severity_info, text "info")
    ∷ (severity_low, text "low")
    ∷ (severity_medium, text "medium")
    ∷ (severity_high, text "high")
    ∷ (severity_critical, text "critical")
    ∷ []

-- Severities
unfoldable pub severities : List Severity
severities =
    severity_critical ∷ severity_high ∷ severity_medium ∷ severity_low ∷ severity_info
    ∷ severity_pass ∷ []

-- A look-up in the map of names.
unfoldable pub name_in : List (Severity × Bytes) → Severity → Option Bytes
name_in [] s = none
name_in ((t, n) ∷ names) s = if t == s then some n else name_in names s

-- Severity.String
unfoldable pub severity_string : Severity → Bytes
unfolding name_in
severity_string s = elim (name_in severity_names s) [
  | some n ↦ n
  | none ↦ text "Severity(" ++ (itoa s ++ text ")")
]

-- Severity.Valid
unfoldable pub severity_valid : Severity → Bool
unfolding name_in
severity_valid s = elim (name_in severity_names s) [ some _ ↦ true | none ↦ false ]

-- strings.EqualFold where one of the two texts is ASCII, as a name of a severity is. Two code points
-- outside ASCII fold to an ASCII letter: U+017F to s and U+212A to k.
unfoldable pub fold_point : ℕ → ℕ
fold_point c =
    if leb b'A' c && leb c b'Z'
    then c + 32
    else if c == 0x17f
    then b's'
    else if c == 0x212a
    then b'k'
    else c

unfoldable pub fold_text : Bytes → Bytes
unfolding fold_point
fold_text = map fold_point

unfoldable pub equal_fold : Bytes → Bytes → Bool
unfolding fold_text
equal_fold a b = eqb (fold_text a) (fold_text b)

-- The loop of ParseSeverity; an unknown name is an error.
unfoldable pub parse_in : List (Severity × Bytes) → Bytes → Option Severity
unfolding equal_fold
parse_in [] name = none
parse_in ((s, n) ∷ names) name = if equal_fold n name then some s else parse_in names name

unfoldable pub parse_severity : Bytes → Option Severity
unfolding parse_in
parse_severity = parse_in severity_names

abbrev pub HasName : List (Severity × Bytes) → Severity → Bytes → Type 0
HasName names s name = Any (λ e. (e.0 ≡ s) × (fold_text e.1 ≡ fold_text name)) names

-- Soundness of the loop on any map of names.
pub parse_in-HasName :
    (names : List (Severity × Bytes)) (name : Bytes) (s : Severity)
    → parse_in names name ≡ some s
    → HasName names s name
unfolding parse_in
parse_in-HasName [] name s h = absurd (cc)
parse_in-HasName ((t, n) ∷ names) name s h =
    ground (arith, eqb_iff (fold_text n) (fold_text name), parse_in-HasName names name s)

pub severity_valid_iff :
    (s : Severity) → (severity_valid s ≡ true) ↔ ((severity_pass ≤ s) × (s ≤ severity_critical))
unfolding severity_valid severity_names
severity_valid_iff s = ground arith

-- The second text spells the first: letter by letter it has the small letter, the capital, or the
-- long s for an s, or the Kelvin sign for a k.
abbrev pub Spells : Bytes → Bytes → Type 0
Spells [] [] = Unit
Spells [] (d ∷ ds) = ⊥
Spells (c ∷ cs) [] = ⊥
Spells (c ∷ cs) (d ∷ ds) =
    ((d ≡ c) ⊎ ((d + 32 ≡ c) ⊎ (((c ≡ b's') × (d ≡ 0x17f)) ⊎ ((c ≡ b'k') × (d ≡ 0x212a)))))
    × Spells cs ds

abbrev AllSmall : Bytes → Type 0
AllSmall = All (λ c. (b'a' ≤ c) × (c ≤ b'z'))

fold_point_iff :
    (c d : ℕ)
    → b'a' ≤ c
    → c ≤ b'z'
    → (fold_point d ≡ c)
      ↔ ((d ≡ c) ⊎ ((d + 32 ≡ c) ⊎ (((c ≡ b's') × (d ≡ 0x17f)) ⊎ ((c ≡ b'k') × (d ≡ 0x212a)))))
unfolding fold_point
fold_point_iff c d low high = ground arith

fold_text_iff : (n name : Bytes) → AllSmall n → (n ≡ fold_text name) ↔ Spells n name
unfolding fold_text
fold_text_iff [] [] h = ground arith
fold_text_iff [] (d ∷ ds) h = ground arith
fold_text_iff (c ∷ cs) [] h = ground arith
fold_text_iff (c ∷ cs) (d ∷ ds) h =
    let low = h.0.0 in
    let high = h.0.1 in
    let point = fold_point_iff c d low high in
    let rest = fold_text_iff cs ds h.1 in
    (
      λ e. (point.0 (ground arith), rest.0 (ground arith)),
      λ p. ap₂ (◌∷◌) (sym (point.1 p.0)) (rest.1 p.1),
    )

parse_severity-fold :
    (name : Bytes) (s : Severity)
    → (parse_severity name ≡ some s)
      ↔ ((severity_valid s ≡ true) × (severity_string s ≡ fold_text name))
unfolding parse_severity severity_valid severity_string severity_names equal_fold text fold_text
parse_severity-fold name s = ground (
  arith,
  eqb_iff (fold_text (text "pass")) (fold_text name),
  eqb_iff (fold_text (text "info")) (fold_text name),
  eqb_iff (fold_text (text "low")) (fold_text name),
  eqb_iff (fold_text (text "medium")) (fold_text name),
  eqb_iff (fold_text (text "high")) (fold_text name),
  eqb_iff (fold_text (text "critical")) (fold_text name),
)

AllSmall-severity_string : (s : Severity) → severity_valid s ≡ true → AllSmall (severity_string s)
unfolding severity_valid severity_string severity_names text
AllSmall-severity_string s h = ground arith

-- ParseSeverity accepts exactly the texts that spell one of the six names, and answers with the
-- severity that String prints so. A letter is spelled small or as a capital, and an s also as the
-- long s, U+017F, which EqualFold folds to it.
pub parse_severity_iff :
    (name : Bytes) (s : Severity)
    → (parse_severity name ≡ some s) ↔ ((severity_valid s ≡ true) × Spells (severity_string s) name)
parse_severity_iff name s =
    let folded = parse_severity-fold name s in
    (
      λ e.
          let (valid, same) = folded.0 e in
          (
            valid,
            (fold_text_iff (severity_string s) name (AllSmall-severity_string s valid)).0 same,
          ),
      λ h.
          folded.1
            (h.0, (fold_text_iff (severity_string s) name (AllSmall-severity_string s h.0)).1 h.1),
    )
