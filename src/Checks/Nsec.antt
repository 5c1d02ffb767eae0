-- ===== src/Checks/Nsec.antt =====
-- internal/nsec/nsec.go: the assessment of NSEC and NSEC3 records.
pub mod Assessed
use zone_lint.Common.{
  ℕ, Bytes, text, itoa, when, List, [], ◌∷◌, ◌++◌, Bool, true, false, ◌&&◌, ◌||◌, not, Option, none,
  some, ◌==◌, ltb, if◌then◌else◌,
}
use zone_lint.Dns.{nsec, nsec3, Nsec3, Body, Slot}
use zone_lint.Findings.{Finding, new}
use zone_lint.Findings.Catalog.{dnssec_no_nsec, dnssec_malformed_nsec3}

pub record Assessment : Type 0 where
  pub has_nsec : Bool
  pub has_nsec3 : Bool
  pub nsec3_iter : ℕ
  pub nsec3_salt : ℕ
  pub malformed : Bool

-- The loop body of Analyze.
unfoldable pub assess_nsec3 : Nsec3 → Assessment → Assessment
assess_nsec3 r s = record {
  has_nsec = s.has_nsec;
  has_nsec3 = true;
  nsec3_iter = r.iterations;
  nsec3_salt = r.salt_length;
  malformed =
      if r.iterations == 0 && r.salt_length == 0
      then true
      else if ltb 10000 r.iterations
      then true
      else s.malformed;
}

unfoldable pub assess : Slot → Assessment → Assessment
unfolding assess_nsec3
assess none s = s
assess (some rr) s = elim rr.body [
  | nsec _ _ ↦ record s { has_nsec = true }
  | nsec3 r ↦ assess_nsec3 r s
  | _ ↦ s
]

unfoldable pub analyze_from : List Slot → Assessment → Assessment
unfolding assess
analyze_from [] s = s
analyze_from (rr ∷ rest) s = analyze_from rest (assess rr s)

abbrev pub unassessed : Assessment
unassessed = record {
  has_nsec = false;
  has_nsec3 = false;
  nsec3_iter = 0;
  nsec3_salt = 0;
  malformed = false;
}

-- Analyze
unfoldable pub analyze : List Slot → Assessment
unfolding analyze_from
analyze records = analyze_from records unassessed

-- Check
unfoldable pub check : Bytes → Assessment → List Finding
check zone s =
    when (not s.has_nsec && not s.has_nsec3) (
      new dnssec_no_nsec zone
        (text
          "The zone does not publish NSEC or NSEC3 records; NSEC/NSEC3 provides authenticated denial of existence.")
        [])
    ++ when s.malformed (
        new dnssec_malformed_nsec3 zone
          (text
            "NSEC3 has zero or excessive iterations, or no salt, which weakens or breaks the hash.")
          ((text "iterations="
              ++ (itoa s.nsec3_iter ++ (text " salt_length=" ++ itoa s.nsec3_salt)))
            ∷ []))
