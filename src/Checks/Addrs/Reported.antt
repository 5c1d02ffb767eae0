-- ===== src/Checks/Addrs/Reported.antt =====
-- Which findings `CheckAll` makes of a section.
use mathlib.Core.List.{map-append}
use zone_lint.Common.{
  Bytes, text, eqb_iff, List, [], ◌∷◌, ◌++◌, map, Bool, true, false, ◌||◌, none, some, Option-cases,
  Bool-cases, inl, inr, ◌≡◌, refl, sym, arith, ◌∙◌, ◌⊎◌,
}
use zone_lint.Common.Dict.{IsNodup, IsNodup-snoc, member, member-append}
use zone_lint.Dns.{Ip, Slot}
use zone_lint.Dns.Rdata.{to4}
use zone_lint.Findings.{Finding, new, with_zone}
use zone_lint.Checks.Addrs.{
  Classification, classify_v4, classify_v6, classify, classification_rule, record_addrs, Loop,
  report, visit, visit_all, check_from, check_all,
}

abbrev has_rule : Bytes → Bool
has_rule category = elim (classification_rule category) [ some _ ↦ true | none ↦ false ]

-- The categories that the classification writes are those that have a rule.
rules_known :
    (has_rule (text "private") ≡ true)
    × (has_rule (text "loopback") ≡ true)
    × (has_rule (text "link-local") ≡ true)
    × (has_rule (text "reserved") ≡ true)
    × (has_rule (text "documentation") ≡ true)
unfolding classification_rule text
rules_known = (refl, refl, refl, refl, refl)

classify_v4-has_rule :
    (ip : Bytes) (c : Classification) → classify_v4 ip ≡ some c → has_rule c.category ≡ true
unfolding classify_v4
classify_v4-has_rule ip c h = ground (arith, rules_known)

classify_v6-has_rule :
    (ip : Bytes) (c : Classification) → classify_v6 ip ≡ some c → has_rule c.category ≡ true
unfolding classify_v6
classify_v6-has_rule ip c h = ground (arith, rules_known)

classify-has_rule :
    (ip : Ip) (c : Classification) → classify ip ≡ some c → has_rule c.category ≡ true
unfolding classify
classify-has_rule none c h = absurd (cc)
classify-has_rule (some ip) c h = elim (Option-cases (to4 ip)) [
  | inl e ↦ ground (arith, classify_v6-has_rule ip c)
  | inr (v4, e) ↦ ground (arith, classify_v4-has_rule v4 c)
]

abbrev pub subjects : List Finding → List Bytes
subjects = map (λ f. f.subject)

module _ (ip_string : Ip → Bytes) where
  -- The addresses that are not public, printed.
  abbrev pub flagged : List Ip → List Bytes
  flagged [] = []
  flagged (ip ∷ ips) =
      let later = flagged ips in elim (classify ip) [ none ↦ later | some _ ↦ ip_string ip ∷ later ]

  abbrev pub flagged_in : List Slot → List Bytes
  flagged_in [] = []
  flagged_in (rr ∷ rest) = flagged (record_addrs rr) ++ flagged_in rest

  module _ (zone : Bytes) where
    -- `seen` holds the subjects of the findings made so far, and no subject stands twice.
    record Inv (l : Loop) : Type 0 where
      agree : (s : Bytes) → member s l.seen ≡ member s (subjects l.out)
      distinct : IsNodup (subjects l.out)

    report-subjects :
        (ip : Ip) (c : Classification) (l : Loop)
        → has_rule c.category ≡ true
        → ((report ip_string zone ip c l).seen ≡ l.seen)
          × (subjects (report ip_string zone ip c l).out ≡ subjects l.out ++ ip_string ip ∷ [])
    unfolding report new with_zone
    report-subjects ip c l h = elim (Option-cases (classification_rule c.category)) [
      | inl e ↦ absurd (ground arith)
      | inr (rule, e) ↦ rw (e, report) (refl, map-append _ l.out _)
    ]

    abbrev Fresh : Ip → Loop → Loop → Type 0
    Fresh ip l l' =
        (member (ip_string ip) l.seen ≡ false)
        × (l'.seen ≡ ip_string ip ∷ l.seen)
        × (subjects l'.out ≡ subjects l.out ++ ip_string ip ∷ [])

    -- What one round does: nothing, or one new key with one new subject.
    visit-cases :
        (ip : Ip) (l : Loop)
        → ((visit ip_string zone ip l ≡ l)
            × ((s : Bytes) → (member s (flagged (ip ∷ [])) ≡ true) → member s l.seen ≡ true))
          ⊎ (Fresh ip l (visit ip_string zone ip l) × (flagged (ip ∷ []) ≡ ip_string ip ∷ []))
    unfolding visit
    visit-cases ip l = elim (Option-cases (classify ip)) [
      | inl e ↦ inl (rw (e, visit) (refl, λ s h. absurd (unfold member in cc)))
      | inr (c, e) ↦ elim (Bool-cases (member (ip_string ip) l.seen)) [
        | inl old ↦ inl (
            rw (e, old, visit)
              (refl, λ s h. unfold member in ground (arith, eqb_iff (ip_string ip) s)))
        | inr new_key ↦
            let r =
              report-subjects ip c (record l { seen = ip_string ip ∷ l.seen })
                (classify-has_rule ip c e) in
            inr (rw (e, new_key, visit) ((refl, r.0, r.1), ground arith))
      ]
    ]

    visit-Inv : (ip : Ip) (l : Loop) → Inv l → Inv (visit ip_string zone ip l)
    visit-Inv ip l inv = elim (visit-cases ip l) [
      | inl (same, _) ↦ rw same inv
      | inr ((new_key, seen, out), _) ↦ record {
        agree = λ s.
            unfold member in
            rw (seen, out)
              (ground (arith, inv.agree s, member-append s (subjects l.out) (ip_string ip ∷ [])));
        distinct = rw out (
            IsNodup-snoc (ip_string ip) (subjects l.out) (sym (inv.agree (ip_string ip)) ∙ new_key)
              inv.distinct);
      }
    ]

    member-visit :
        (s : Bytes) (ip : Ip) (l : Loop)
        → member s (visit ip_string zone ip l).seen
          ≡ (member s l.seen || member s (flagged (ip ∷ [])))
    unfolding member
    member-visit s ip l = elim (visit-cases ip l) [
      | inl (same, old) ↦ ground (arith, same, old s)
      | inr ((new_key, seen, out), flag) ↦ rw (seen, flag) (ground arith)
    ]

    member-flagged :
        (s : Bytes) (ip : Ip) (ips : List Ip)
        → member s (flagged (ip ∷ ips)) ≡ (member s (flagged (ip ∷ [])) || member s (flagged ips))
    unfolding member
    member-flagged s ip ips = ground arith

    visit_all-Inv :
        (ips : List Ip) (l : Loop)
        → Inv l
        → Inv (visit_all ip_string zone ips l)
          × ((s : Bytes)
              → member s (visit_all ip_string zone ips l).seen
                ≡ (member s l.seen || member s (flagged ips)))
    unfolding visit_all
    visit_all-Inv [] l inv = (inv, λ s. unfold member in ground arith)
    visit_all-Inv (ip ∷ ips) l inv =
        let (inv', seen) = visit_all-Inv ips (visit ip_string zone ip l) (visit-Inv ip l inv) in
        (inv', λ s. ground (arith, seen s, member-visit s ip l, member-flagged s ip ips))

    check_from-Inv :
        (records : List Slot) (l : Loop)
        → Inv l
        → Inv (check_from ip_string zone records l)
          × ((s : Bytes)
              → member s (check_from ip_string zone records l).seen
                ≡ (member s l.seen || member s (flagged_in records)))
    unfolding check_from
    check_from-Inv [] l inv = (inv, λ s. unfold member in ground arith)
    check_from-Inv (rr ∷ rest) l inv =
        let (inv', seen) = visit_all-Inv (record_addrs rr) l inv in
        let (inv'', seen') =
          check_from-Inv rest (visit_all ip_string zone (record_addrs rr) l) inv' in
        (
          inv'',
          λ s. ground (
            arith,
            seen s,
            seen' s,
            member-append s (flagged (record_addrs rr)) (flagged_in rest),
          ),
        )

    -- CheckAll reports each address once, however often it stands in the section, and it reports
    -- exactly the addresses that Classify does not take for public, both as they are printed.
    pub check_all_lem :
        (records : List Slot) (s : Bytes)
        → IsNodup (subjects (check_all ip_string zone records))
          × (member s (subjects (check_all ip_string zone records)) ≡ member s (flagged_in records))
    unfolding check_all
    check_all_lem records s =
        let empty : Loop = record { seen = []; out = [] } in
        let start : Inv empty = record { agree = λ s. refl; distinct = tt } in
        let (inv, seen) = check_from-Inv records empty start in
        (inv.distinct, sym (inv.agree s) ∙ unfold member in seen s)
