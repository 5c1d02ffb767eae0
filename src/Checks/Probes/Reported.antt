-- ===== src/Checks/Probes/Reported.antt =====
-- When the two probes report something.
use zone_lint.Common.{
  Bytes, text, eqb, to_lower, contains_text, any, List, [], ◌∷◌, Bool, true, false, ◌||◌, none,
  some, ◌≡◌, ◌≢◌, ◌↔◌, refl, arith,
}
use zone_lint.Dns.{Slot, Msg, Package}
use zone_lint.Dns.Codes.{rcode_success}
use zone_lint.Checks.Probes.{
  check_recursion, check_active, check_wildcard, answers_probe, is_wildcard_response,
}

-- A server is reported as an open resolver exactly if it offers recursion and answers the random
-- name with success and at least one record.
pub check_active-nil_iff :
    (server zone : Bytes) (resp : Msg)
    → (check_active server zone (some (check_recursion server zone (some resp))) ≢ [])
      ↔ ((resp.recursion_available ≡ true) × (resp.rcode ≡ rcode_success) × (resp.answer ≢ []))
unfolding check_active check_recursion
check_active-nil_iff server zone resp = ground arith

-- A record of the answer is owned by a wildcard, or by the very name that was asked for.
abbrev pub is_answer_to : Package → Bytes → Slot → Bool
is_answer_to pkg queried none = false
is_answer_to pkg queried (some rr) =
    contains_text (to_lower (pkg.fqdn rr.header.name)) (text "*.")
    || eqb (to_lower (pkg.fqdn rr.header.name)) queried

answers_probe-any :
    (pkg : Package) (queried : Bytes) (records : List Slot)
    → answers_probe pkg queried records ≡ any (is_answer_to pkg queried) records
unfolding answers_probe
answers_probe-any pkg queried [] = refl
answers_probe-any pkg queried (none ∷ rest) = answers_probe-any pkg queried rest
answers_probe-any pkg queried (some rr ∷ rest) = ground (arith, answers_probe-any pkg queried rest)

-- The wildcard probe reports a zone exactly if the response is a success, and a record of its
-- answer is owned by a wildcard or by the random name.
pub check_wildcard-nil_iff :
    (pkg : Package) (zone probe_name : Bytes) (resp : Msg)
    → (check_wildcard zone probe_name (is_wildcard_response pkg (some resp) probe_name) ≢ []) ↔ (
        (resp.rcode ≡ rcode_success)
        × (any (is_answer_to pkg (to_lower (pkg.fqdn probe_name))) resp.answer ≡ true))
unfolding check_wildcard is_wildcard_response
check_wildcard-nil_iff pkg zone probe_name resp =
    ground (arith, answers_probe-any pkg (to_lower (pkg.fqdn probe_name)) resp.answer)
