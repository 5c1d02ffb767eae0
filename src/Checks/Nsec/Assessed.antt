-- ===== src/Checks/Nsec/Assessed.antt =====
-- What `Analyze` finds in a section, and when the check of it is silent.
use zone_lint.Common.{
  Bytes, List, [], ◌∷◌, any, Bool, true, false, ◌&&◌, ◌||◌, none, some, ◌≡◌, ◌↔◌, arith, ◌==◌, ltb,
}
use zone_lint.Dns.{nsec, nsec3, Slot}
use zone_lint.Checks.Nsec.{Assessment, assess, analyze_from, analyze, check, unassessed}

abbrev pub is_nsec : Slot → Bool
is_nsec none = false
is_nsec (some rr) = elim rr.body [ nsec _ _ ↦ true | _ ↦ false ]

abbrev pub is_nsec3 : Slot → Bool
is_nsec3 none = false
is_nsec3 (some rr) = elim rr.body [ nsec3 _ ↦ true | _ ↦ false ]

-- Parameters that the program calls malformed: no iterations and no salt, or more than 10,000.
abbrev pub is_malformed : Slot → Bool
is_malformed none = false
is_malformed (some rr) = elim rr.body [
  | nsec3 r ↦ (r.iterations == 0 && r.salt_length == 0) || ltb 10000 r.iterations
  | _ ↦ false
]

abbrev Summary : Assessment → Assessment → List Slot → Type 0
Summary out s records =
    (out.has_nsec ≡ (s.has_nsec || any is_nsec records))
    × (out.has_nsec3 ≡ (s.has_nsec3 || any is_nsec3 records))
    × (out.malformed ≡ (s.malformed || any is_malformed records))

assess-Summary : (rr : Slot) (s : Assessment) → Summary (assess rr s) s (rr ∷ [])
unfolding assess
assess-Summary none s = ground arith
assess-Summary (some rr) s = ground arith

analyze_from-Summary :
    (records : List Slot) (s : Assessment) → Summary (analyze_from records s) s records
unfolding analyze_from
analyze_from-Summary [] s = ground arith
analyze_from-Summary (rr ∷ rest) s =
    ground (arith, analyze_from-Summary rest (assess rr s), assess-Summary rr s)

-- The NSEC check of a section is silent exactly if the section holds an NSEC or an NSEC3 record,
-- and no NSEC3 record in it has malformed parameters.
pub check-analyze-nil_iff :
    (zone : Bytes) (records : List Slot)
    → (check zone (analyze records) ≡ []) ↔ (
        ((any is_nsec records || any is_nsec3 records) ≡ true) × (any is_malformed records ≡ false))
unfolding check analyze
check-analyze-nil_iff zone records = ground (arith, analyze_from-Summary records unassessed)
