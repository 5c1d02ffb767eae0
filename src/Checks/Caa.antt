-- ===== src/Checks/Caa.antt =====
-- internal/caa/caa.go: the check of the CAA records.
pub mod Critical
pub mod Issue
use zone_lint.Common.{
  ℕ, ◌+◌, ◌-◌, ◌*◌, ◌/◌, ◌%◌, Bytes, text, eqb, itoa, to_lower, trim_space, has_prefix, split,
  length, all, when, List, [], ◌∷◌, ◌++◌, Bool, true, false, ◌&&◌, ◌||◌, not, Option, none, some,
  ◌==◌, ltb, leb, if◌then◌else◌,
}
use zone_lint.Common.Dict.{member}
use zone_lint.Dns.{Caa, caa, Slot}
use zone_lint.Findings.{Finding, new, rule_with_severity, severity_low}
use zone_lint.Findings.Catalog.{caa_critical_unknown}

-- knownTags
unfoldable pub known_tags : List Bytes
known_tags = text "issue" ∷ text "issuewild" ∷ text "iodef" ∷ text "validationmode" ∷ []

-- The verb %q (strconv.Quote) on ASCII.
hex_digit : ℕ → ℕ
hex_digit n = if ltb n 10 then b'0' + n else b'a' + (n - 10)

unfoldable pub quote_byte : ℕ → Bytes
unfolding hex_digit
quote_byte c =
    if c == 34 || c == 92
    then 92 ∷ c ∷ []
    else if leb 32 c && ltb c 127
    then c ∷ []
    else if leb 7 c && leb c 13
    then 92
      ∷ (if c == 7
          then b'a'
          else if c == 8
          then b'b'
          else if c == 9
          then b't'
          else if c == 10
          then b'n'
          else if c == 11
          then b'v'
          else if c == 12
          then b'f'
          else b'r')
      ∷ []
    else 92 ∷ b'x' ∷ hex_digit (c / 16) ∷ hex_digit (c % 16) ∷ []

quote_all : Bytes → Bytes
unfolding quote_byte
quote_all [] = []
quote_all (c ∷ s) = quote_byte c ++ quote_all s

unfoldable pub quote : Bytes → Bytes
unfolding quote_all
quote s = 34 ∷ (quote_all s ++ 34 ∷ [])

-- validDomainLabel. The `if` with an empty body in it does nothing.
unfoldable pub valid_domain_label : Bytes → Bool
unfolding eqb
valid_domain_label s =
    if eqb s [] || ltb 253 (length s)
    then false
    else all (λ label. not (length label == 0 || ltb 63 (length label))) (split b'.' s)

-- strings.IndexByte(value, ';') with the two slices that are taken at the index.
unfoldable pub cut : Bytes → Option (Bytes × Bytes)
cut [] = none
cut (c ∷ s) =
    let later = cut s in
    if c == b';'
    then some ([], s)
    else elim later [ none ↦ none | some (before, after) ↦ some (c ∷ before, after) ]

-- The part of validateIssue behind the search, on the variables `domain` and `value`.
unfoldable pub validate_parts : Bytes → Bytes → Bytes
unfolding eqb valid_domain_label
validate_parts domain value =
    if eqb (trim_space domain) []
    then []
    else if not (valid_domain_label (trim_space domain))
    then text "issue issuer domain is malformed"
    else if not (eqb value []) && not (valid_domain_label value)
    then text "issue target domain is malformed"
    else []

-- validateIssue: without a semicolon both variables are the whole value.
unfoldable pub validate_issue : Bytes → Bytes
unfolding cut validate_parts
validate_issue value = elim (cut value) [
  | none ↦ validate_parts value value
  | some (before, after) ↦ validate_parts before after
]

-- validateTag: the empty text, or what is wrong.
unfoldable pub validate_tag : Bytes → ℕ → Bytes → Bytes
unfolding validate_issue eqb
validate_tag tag flag value =
    if eqb tag (text "issue") || eqb tag (text "issuewild")
    then if eqb value [] then [] else validate_issue value
    else if eqb tag (text "iodef")
    then if not (has_prefix value (text "mailto:"))
        && (not (has_prefix value (text "http://")) && not (has_prefix value (text "https://")))
      then text "iodef value must be a mailto: or URL"
      else []
    else []

-- dnsutilCAA
unfoldable pub caa_records : List Slot → List Caa
caa_records [] = []
caa_records (none ∷ rest) = caa_records rest
caa_records (some rr ∷ rest) =
    let later = caa_records rest in elim rr.body [ caa c ↦ c ∷ later | _ ↦ later ]

-- The variable `tag` of the loop.
unfoldable pub tag_of : Caa → Bytes
tag_of c = to_lower (trim_space c.tag)

-- The loop body of Check: c.Flag&0x01 is the lowest bit.
unfoldable pub check_record : Bytes → Caa → List Finding
check_record zone c =
    when (not (c.flag % 2 == 0) && not (member (tag_of c) known_tags)) (
      new caa_critical_unknown zone
        (text
          "A CAA record sets the critical bit for a tag this tool does not recognize; relying on it could block issuance or be ignored.")
        ((text "flags="
            ++ (itoa c.flag
                ++ (text " tag=" ++ (quote c.tag ++ (text " value=" ++ quote c.value)))))
          ∷ []))
    ++ when (not (eqb (validate_tag (tag_of c) c.flag c.value) [])) (
        new (rule_with_severity caa_critical_unknown severity_low) zone
          (validate_tag (tag_of c) c.flag c.value)
          ((text "tag=" ++ (quote c.tag ++ (text " value=" ++ quote c.value))) ∷ []))

unfoldable pub check_records : Bytes → List Caa → List Finding
check_records zone [] = []
check_records zone (c ∷ cs) = check_record zone c ++ check_records zone cs

-- Check. The counters that it keeps are never read.
unfoldable pub check : Bytes → List Slot → List Finding
check zone records = check_records zone (caa_records records)
