-- ===== src/Audit.antt =====
-- internal/audit/audit.go: the options and the result of an audit, and the helpers of Run that do
-- not query the network. Run itself is in the child modules.
pub mod Session
pub mod Gather
pub mod Signatures
pub mod Reading
pub mod Run
pub mod Network
pub mod Servers
pub mod Targets
use zone_lint.Common.{
  ℕ, Bytes, text, eqb, to_lower, split, trim_space, has_suffix, List, [], ◌∷◌, ◌++◌, Bool, true,
  false, ◌&&◌, not, Option, none, some, if◌then◌else◌,
}
use zone_lint.Common.Dict.{member}
use zone_lint.Dns.{Slot, Msg, Package}
use zone_lint.Dns.Codes.{rcode_success}
use zone_lint.Findings.{Finding, with_zone}
use zone_lint.Checks.AuthServer.{ProbeResult, probe_response, check_server}
use zone_lint.Checks.Axfr.{Outcome, default_config, evaluate, parse_transfer_result}

-- Options
pub record Options : Type 0 where
  pub resolver : Bytes
  pub profile : Bytes
  pub timeout : ℕ
  pub max_qps : ℕ
  pub max_queries : ℕ
  pub active : Bool
  pub show_axfr : Bool

-- Result; its duration, which comes from the clock, is left out.
pub record Result : Type 0 where
  pub zone : Bytes
  pub findings : List Finding
  pub resolver : Bytes
  pub queries : ℕ
  pub records : ℕ

-- AddFinding
unfoldable pub add_finding : Result → Finding → Result
add_finding r f = record r { findings = r.findings ++ with_zone f r.zone ∷ [] }

-- The loop that adds the findings of a check.
unfoldable pub add_findings : Result → List Finding → Result
add_findings r [] = r
add_findings r (f ∷ fs) = add_findings (add_finding r f) fs

-- splitResolvers; the nil slice is the empty one.
unfoldable pub keep_parts : List Bytes → List Bytes
keep_parts [] = []
keep_parts (p ∷ ps) =
    let rest = keep_parts ps in let p' = trim_space p in if eqb p' [] then rest else p' ∷ rest

unfoldable pub split_resolvers : Bytes → List Bytes
split_resolvers s = if eqb (trim_space s) [] then [] else keep_parts (split b',' s)

-- childZone
unfoldable pub child_zone : Bytes → Bytes
child_zone zone = text "sub." ++ zone

-- buildResolveTarget: the names of the records, and the function on them.
unfoldable pub present_names : Package → List Slot → List Bytes
unfolding to_lower
present_names pkg [] = []
present_names pkg (none ∷ rest) = present_names pkg rest
present_names pkg (some rr ∷ rest) = to_lower (pkg.fqdn rr.header.name) ∷ present_names pkg rest

unfoldable pub build_resolve_target : Package → List Slot → Bytes → Bytes → Bool
build_resolve_target pkg records zone name =
    let in_zone = present_names pkg records in
    let apex = to_lower (pkg.fqdn zone) in
    let target = to_lower (pkg.fqdn name) in
    if member target in_zone
    then true
    else if has_suffix target (text "." ++ apex)
    then member apex in_zone
    else false

-- makeTransferResp; `none` is an error of the transfer, and then a nil message.
unfoldable pub make_transfer_resp : Option (List Slot) → Option Msg
make_transfer_resp none = none
make_transfer_resp (some records) = some (record {
  rcode = rcode_success;
  authoritative = false;
  recursion_available = false;
  has_edns = false;
  answer = records;
  ns = [];
})

-- The result of a call of Transfer: its records, the error ErrZoneRefused, or another error.
pub data Transfer : Type 0 where
  received : List Slot → Transfer
  zone_refused : Transfer
  failed : Transfer

abbrev records_of : Transfer → Option (List Slot)
records_of (received records) = some records
records_of zone_refused = none
records_of failed = none

-- Step 10 of Run for one server: the outcome of its transfer, after the override of the status.
unfoldable pub transfer_outcome : Options → Bytes → Transfer → Outcome
transfer_outcome opt host t =
    let cfg = record default_config { show_records = opt.show_axfr } in
    let o = record (parse_transfer_result (make_transfer_resp (records_of t)) cfg) {
      server = host;
    } in
    elim t [ received _ ↦ o | zone_refused ↦ record o { status = text "refused" } | failed ↦ o ]
