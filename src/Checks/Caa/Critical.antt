-- ===== src/Checks/Caa/Critical.antt =====
-- When the CAA check is silent, and which bit of the flags it takes for the critical one.
use zone_lint.Common.{
  ℕ, ◌%◌, ◌∙◌, Bool, Bool-cases, inl, inr, not, false, ◌&&◌, ◌||◌, if◌then◌else◌, Bytes, text, eqb,
  eqb_iff, has_prefix, List, [], ◌∷◌, ◌++◌, true, ◌≡◌, ◌≢◌, ◌↔◌, ◌⊎◌, refl, ap, arith, All,
  append-nil_iff,
}
use zone_lint.Common.Dict.{member}
use zone_lint.Dns.{Caa, Slot}
use zone_lint.Checks.Caa.{
  known_tags, tag_of, validate_issue, validate_tag, check_record, check_records, caa_records, check,
}
use zone_lint.Checks.Caa.Issue.{IsIssue, validate_issue_iff, validate_issue-nil}

abbrev pub StartsWith : Bytes → Bytes → Type 0
StartsWith p value = (rest : Bytes) × (value ≡ p ++ rest)

has_prefix_iff : (value p : Bytes) → (has_prefix value p ≡ true) ↔ StartsWith p value
unfolding has_prefix
has_prefix_iff value [] = (λ h. (value, refl), λ h. refl)
has_prefix_iff [] (y ∷ p) = (λ h. absurd (cc), λ (rest, e). absurd (cc))
has_prefix_iff (x ∷ value) (y ∷ p) =
    let tail = has_prefix_iff value p in
    (
      λ h. let (rest, e) = tail.0 (ground arith) in (rest, ground (arith, h, e)),
      λ (rest, e). ground (arith, e, tail.1 (rest, ground (arith, e))),
    )

-- The value of an iodef record: an address of mail or of the web.
abbrev pub IsContact : Bytes → Type 0
IsContact value =
    StartsWith (text "mailto:") value
    ⊎ (StartsWith (text "http://") value ⊎ StartsWith (text "https://") value)

-- The value fits the tag; the value of any other tag is not looked at.
abbrev pub Fits : Bytes → Bytes → Type 0
Fits tag value =
    (((tag ≡ text "issue") ⊎ (tag ≡ text "issuewild")) × IsIssue value)
    ⊎ (((tag ≡ text "iodef") × IsContact value)
        ⊎ ((tag ≢ text "issue") × ((tag ≢ text "issuewild") × (tag ≢ text "iodef"))))

-- The two branches of validateTag that look at a value.
IsIssue-value_iff :
    (value : Bytes) → ((if eqb value [] then [] else validate_issue value) ≡ []) ↔ IsIssue value
IsIssue-value_iff value = elim (Bool-cases (eqb value [])) [
  | inl e ↦
      let same = (eqb_iff value []).0 e in
      rw e (
        (λ _. (validate_issue_iff value).0 (ap validate_issue same ∙ validate_issue-nil)),
        (λ _. refl),
      )
  | inr e ↦ rw e (validate_issue_iff value)
]

IsContact-value_iff :
    (value : Bytes)
    → (not (has_prefix value (text "mailto:"))
          && (not (has_prefix value (text "http://")) && not (has_prefix value (text "https://")))
        ≡ false)
      ↔ IsContact value
IsContact-value_iff value = ground (
  arith,
  has_prefix_iff value (text "mailto:"),
  has_prefix_iff value (text "http://"),
  has_prefix_iff value (text "https://"),
)

-- A choice between two branches by tests that exclude each other.
choice-nil :
    {FirstTag SecondTag ThirdTag First Third : Type 0} (i w d : Bool) (v c : Bytes)
    → (i ≡ true) ↔ FirstTag
    → (w ≡ true) ↔ SecondTag
    → (d ≡ true) ↔ ThirdTag
    → (i || w) && d ≡ false
    → (v ≡ []) ↔ First
    → (c ≡ []) ↔ Third
    → ((if i || w then v else if d then c else []) ≡ []) ↔ (
        ((FirstTag ⊎ SecondTag) × First)
        ⊎ ((ThirdTag × Third) ⊎ ((¬ FirstTag) × ((¬ SecondTag) × (¬ ThirdTag)))))
choice-nil true w true v c hi hw hd other hv hc = absurd (cc)
choice-nil false true true v c hi hw hd other hv hc = absurd (cc)
choice-nil true w false v c hi hw hd other hv hc = ground arith
choice-nil false true false v c hi hw hd other hv hc = ground arith
choice-nil false false true v c hi hw hd other hv hc = ground arith
choice-nil false false false v c hi hw hd other hv hc = ground arith

guarded-nil :
    (b : Bool) (message : Bytes) → message ≢ [] → ((if b then message else []) ≡ []) ↔ (b ≡ false)
guarded-nil true message h = (λ e. absurd (h e), λ e. absurd (cc))
guarded-nil false message h = (λ e. refl, λ e. refl)

contact_text-ne-nil : text "iodef value must be a mailto: or URL" ≢ []
unfolding text
contact_text-ne-nil e = absurd (cc)

-- The text for a contact that is none of the three.
IsContact-text_iff :
    (value : Bytes)
    → ((if not (has_prefix value (text "mailto:"))
            && (not (has_prefix value (text "http://")) && not (has_prefix value (text "https://")))
          then text "iodef value must be a mailto: or URL"
          else [])
        ≡ [])
      ↔ IsContact value
IsContact-text_iff value =
    let shown = guarded-nil _ (text "iodef value must be a mailto: or URL") contact_text-ne-nil in
    let contact = IsContact-value_iff value in
    (λ e. contact.0 (shown.0 e), λ h. shown.1 (contact.1 h))

exclusive :
    (tag : Bytes)
    → (eqb tag (text "issue") || eqb tag (text "issuewild")) && eqb tag (text "iodef") ≡ false
unfolding text
exclusive tag =
    ground (
      arith,
      eqb_iff tag (text "issue"),
      eqb_iff tag (text "issuewild"),
      eqb_iff tag (text "iodef"),
    )

validate_tag_iff :
    (tag : Bytes) (flag : ℕ) (value : Bytes) → (validate_tag tag flag value ≡ []) ↔ Fits tag value
unfolding validate_tag
validate_tag_iff tag flag value =
    choice-nil (eqb tag (text "issue")) (eqb tag (text "issuewild")) (eqb tag (text "iodef")) _ _
      (eqb_iff tag (text "issue")) (eqb_iff tag (text "issuewild")) (eqb_iff tag (text "iodef"))
      (exclusive tag) (IsIssue-value_iff value) (IsContact-text_iff value)

abbrev pub IsKnown : Bytes → Type 0
IsKnown tag =
    (tag ≡ text "issue")
    ⊎ ((tag ≡ text "issuewild") ⊎ ((tag ≡ text "iodef") ⊎ (tag ≡ text "validationmode")))

IsKnown-iff : (tag : Bytes) → (member tag known_tags ≡ true) ↔ IsKnown tag
unfolding member known_tags
IsKnown-iff tag = ground (
  arith,
  eqb_iff (text "issue") tag,
  eqb_iff (text "issuewild") tag,
  eqb_iff (text "iodef") tag,
  eqb_iff (text "validationmode") tag,
)

-- The lowest bit of the flags is clear or the tag is known, and the value fits the tag. The tag is
-- read in lower case and without the blanks around it.
abbrev pub IsClean : Caa → Type 0
IsClean c = ((c.flag % 2 ≡ 0) ⊎ IsKnown (tag_of c)) × Fits (tag_of c) c.value

critical-known : {P Q : Type 0} (c : Caa) → (P → Q) → (c.flag % 2 ≡ 0) ⊎ P → (c.flag % 2 ≡ 0) ⊎ Q
critical-known c f (inl clear) = inl clear
critical-known c f (inr p) = inr (f p)

check_record-nil_iff : (zone : Bytes) (c : Caa) → (check_record zone c ≡ []) ↔ IsClean c
unfolding check_record
check_record-nil_iff zone c =
    let fits = validate_tag_iff (tag_of c) c.flag c.value in
    let known = IsKnown-iff (tag_of c) in
    let silent : (check_record zone c ≡ []) ↔ (
        ((c.flag % 2 ≡ 0) ⊎ (member (tag_of c) known_tags ≡ true))
        × (validate_tag (tag_of c) c.flag c.value ≡ [])) =
      ground (arith, eqb_iff (validate_tag (tag_of c) c.flag c.value) []) in
    (
      λ e. (critical-known c (known.0) (silent.0 e).0, fits.0 (silent.0 e).1),
      λ h. silent.1 (critical-known c (known.1) h.0, fits.1 h.1),
    )

check_records-nil_iff :
    (zone : Bytes) (cs : List Caa) → (check_records zone cs ≡ []) ↔ All IsClean cs
unfolding check_records
check_records-nil_iff zone [] = (λ _. tt, λ _. refl)
check_records-nil_iff zone (c ∷ cs) =
    let split = append-nil_iff (check_record zone c) (check_records zone cs) in
    let head = check_record-nil_iff zone c in
    let tail = check_records-nil_iff zone cs in
    (λ h. (head.0 (split.0 h).0, tail.0 (split.0 h).1), λ h. split.1 (head.1 h.0, tail.1 h.1))

-- The CAA check is silent exactly if every CAA record is clean: the lowest bit of its flags is
-- clear or its tag is issue, issuewild, iodef or validationmode; its value under iodef starts as
-- an address of mail or of the web; and its value under issue or issuewild has, up to the first
-- semicolon, only blanks, or a domain name that nothing or a domain name follows (a value without
-- a semicolon is both).
pub caa_check-nil_iff :
    (zone : Bytes) (records : List Slot)
    → (check zone records ≡ []) ↔ All IsClean (caa_records records)
unfolding check
caa_check-nil_iff zone records = check_records-nil_iff zone (caa_records records)
