-- ===== src/Checks/Probes.antt =====
-- internal/active/active.go and internal/wildcard/wildcard.go: what the recursion probe and the
-- wildcard probe make of a response. The random label of the name comes from outside.
pub mod Reported
use zone_lint.Common.{
  ℕ, Bytes, text, eqb, itoa, to_lower, contains_text, length, List, [], ◌∷◌, ◌++◌, Bool, true,
  false, ◌&&◌, ◌||◌, not, Option, none, some, ◌==◌, ltb, if◌then◌else◌,
}
use zone_lint.Dns.{Rr, Slot, Msg, Package}
use zone_lint.Dns.Codes.{rcode_success}
use zone_lint.Findings.{Finding, new, with_zone}
use zone_lint.Findings.Catalog.{recursion_open, wildcard_present}

-- RecursionResult
pub record RecursionResult : Type 0 where
  pub server : Bytes
  pub recursive : Bool
  pub queries_sent : ℕ

-- CheckRecursion; `none` is a nil message.
unfoldable pub check_recursion : Bytes → Bytes → Option Msg → RecursionResult
check_recursion server zone none = record { server = server; recursive = false; queries_sent = 1 }
check_recursion server zone (some resp) = record {
  server = server;
  recursive =
      if resp.recursion_available && (resp.rcode == rcode_success && ltb 0 (length resp.answer))
      then true
      else false;
  queries_sent = 1;
}

-- Check of internal/active; `none` is a nil result.
unfoldable pub check_active : Bytes → Bytes → Option RecursionResult → List Finding
check_active server zone none = []
check_active server zone (some r) =
    if not r.recursive
    then []
    else with_zone
        (new recursion_open server
          (text
            "The authoritative server answers recursive queries for arbitrary names, exposing it as an open resolver.")
          ((text "server "
              ++ (server
                  ++ (text " answered recursion with "
                      ++ (itoa r.queries_sent ++ text " query(s)"))))
            ∷ []))
        zone
      ∷ []

-- Check of internal/wildcard
unfoldable pub check_wildcard : Bytes → Bytes → Bool → List Finding
check_wildcard zone probe_name has_wildcard =
    if not has_wildcard
    then []
    else new wildcard_present zone
        (text
          "The zone answers a non-existent, randomly-generated name with a record. Wildcards can mask typosquatting and cause unexpected resolution.")
        ((text "queried "
            ++ (probe_name ++ text " and received a wildcard/nxdomain-clobbering answer"))
          ∷ [])
      ∷ []

-- The loop of IsWildcardResponse.
unfoldable pub answers_probe : Package → Bytes → List Slot → Bool
answers_probe pkg queried [] = false
answers_probe pkg queried (none ∷ rest) = answers_probe pkg queried rest
answers_probe pkg queried (some rr ∷ rest) =
    let name = to_lower (pkg.fqdn rr.header.name) in
    if contains_text name (text "*.") || eqb name queried
    then true
    else answers_probe pkg queried rest

-- IsWildcardResponse; `none` is a nil message.
unfoldable pub is_wildcard_response : Package → Option Msg → Bytes → Bool
is_wildcard_response pkg none probe_name = false
is_wildcard_response pkg (some resp) probe_name =
    if not (resp.rcode == rcode_success)
    then false
    else answers_probe pkg (to_lower (pkg.fqdn probe_name)) resp.answer
