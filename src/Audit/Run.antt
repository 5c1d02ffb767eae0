-- ===== src/Audit/Run.antt =====
-- internal/audit/audit.go: Run, which takes the steps of an audit one after the other.
pub mod Steps
pub mod Counted
pub mod Final
use zone_lint.Audit.Reading.{Env, delegation_step, record_steps, dnssec_steps}
use zone_lint.Common.{
  ℕ, Bytes, text, itoa, eqb, length, Bool, true, false, ◌||◌, ◌&&◌, not, Option, none, some, List,
  [], ◌∷◌, ◌++◌, ◌+◌, ltb, if◌then◌else◌,
}
use zone_lint.Dns.{Ip, Rr, Slot, Msg, Package}
use zone_lint.Dns.Codes.{
  type_ns, type_soa, type_any, type_axfr, type_nsec, type_nsec3, type_caa, rcode_success,
}
use zone_lint.Dns.Query.{safe_new_msg}
use zone_lint.Dns.Records.{first_soa, rrs_of_type}
use zone_lint.Findings.{Finding, new}
use zone_lint.Findings.Catalog.{general_error, dnssec_no_ds, dnssec_broken_chain, dnssec_valid}
use zone_lint.Findings.Sorting.{sort_findings}
use zone_lint.Checks.Addrs
use zone_lint.Checks.AuthServer.{probe_response, check_server}
use zone_lint.Checks.Axfr.{evaluate}
use zone_lint.Checks.Caa
use zone_lint.Checks.Cname
use zone_lint.Checks.Delegation.{
  ParentView, ChildView, compare_views, extract_ns_from_response, extract_child_from_response,
}
use zone_lint.Checks.Nsec
use zone_lint.Checks.Probes.{check_recursion, check_active, check_wildcard, is_wildcard_response}
use zone_lint.Checks.Soa.{Day}
use zone_lint.Checks.Soa
use zone_lint.Checks.Ttl
use zone_lint.Dnssec.Keys.{Codec}
use zone_lint.Dnssec.Chain.{
  ZoneKeys, ChainResult, collect, in_zone, has_dnskey, has_rrsig, has_ds, validate_chain,
}
use zone_lint.Dnssec.Presence.{check_zone}
use zone_lint.Dnssec.Verify.{Primitives}
use zone_lint.Audit.{
  Options, Result, add_finding, add_findings, child_zone, build_resolve_target, transfer_outcome,
}
use zone_lint.Audit.Session.{Outside, Runner, query, transfer, random_name}
use zone_lint.Audit.Gather.{
  Gathered, DnssecData, ask, ask_random, collect_apex_records, collect_dnssec, sections,
}
use zone_lint.Audit.Signatures.{verify_signatures}

-- The answers of the ANY query are added to the first response.
unfoldable pub with_any : Msg → Option Msg → Msg
with_any resp none = resp
with_any resp (some any_resp) = record resp {
  answer = resp.answer ++ any_resp.answer;
  ns = resp.ns ++ any_resp.ns;
}

module _ (env : Env) (opt : Options) (zone : Bytes) where
  module _ {W : Type 0} (out : Outside W) where
    -- Step 2b: the first server whose query is answered is probed, and no other.
    unfoldable pub probe_servers : List Bytes → Result → Runner W → Result × Runner W
    probe_servers [] res r = (res, r)
    probe_servers (host ∷ hosts) res r =
        let answer = ask out opt env.pkg zone type_soa r in
        elim answer.0 [
          | none ↦ probe_servers hosts res answer.1
          | some resp ↦ elim (probe_response (some resp)) [
            | none ↦ (res, answer.1)
            | some pr ↦ (
              add_findings res (check_server zone host (some (record pr { udp_reachable = true }))),
              answer.1,
            )
          ]
        ]

    -- It is taken only where the first response is authoritative.
    unfoldable pub probe_step : Bool → List Bytes → Result → Runner W → Result × Runner W
    probe_step authoritative hosts res r =
        elim (not (eqb opt.resolver (text "fake")) && authoritative) [
          | true ↦ probe_servers hosts res r
          | false ↦ (res, r)
        ]

    -- Step 10, for every server.
    unfoldable pub transfer_servers : List Bytes → Result → Runner W → Result × Runner W
    transfer_servers [] res r = (res, r)
    transfer_servers (host ∷ hosts) res r =
        let answer = transfer out opt (safe_new_msg env.pkg zone type_axfr) r in
        transfer_servers hosts
          (add_findings res (evaluate zone host (some (transfer_outcome opt host answer.0))))
          answer.1

    -- Step 11: the findings of the wildcard probe.
    unfoldable pub wildcard_findings : Option (Bytes × Option Msg) → List Finding
    wildcard_findings none = []
    wildcard_findings (some (name, none)) = []
    wildcard_findings (some (name, some resp)) =
        if is_wildcard_response env.pkg (some resp) name then check_wildcard zone name true else []

    unfoldable pub wildcard_step : Result → Runner W → Result × Runner W
    wildcard_step res r =
        let probe = ask_random out opt env.pkg zone r in
        (add_findings res (wildcard_findings probe.0), probe.1)

    -- Step 12, for every server.
    unfoldable pub recursion_findings : Bytes → Option (Bytes × Option Msg) → List Finding
    recursion_findings host none = []
    recursion_findings host (some (name, none)) = []
    recursion_findings host (some (name, some resp)) =
        check_active host zone (some (check_recursion host zone (some resp)))

    unfoldable pub recursion_servers : List Bytes → Result → Runner W → Result × Runner W
    recursion_servers [] res r = (res, r)
    recursion_servers (host ∷ hosts) res r =
        let probe = ask_random out opt env.pkg zone r in
        recursion_servers hosts (add_findings res (recursion_findings host probe.0)) probe.1

    -- Steps 10 and 12 are taken only in an active audit.
    unfoldable pub when_active :
        (Result → Runner W → Result × Runner W) → Result → Runner W → Result × Runner W
    when_active step res r = if opt.active then step res r else (res, r)

    -- Steps 10 to 12.
    unfoldable pub active_steps : List Bytes → Result → Runner W → Result × Runner W
    active_steps hosts res r =
        let transferred = when_active (transfer_servers hosts) res r in
        let probed = wildcard_step transferred.0 transferred.1 in
        when_active (recursion_servers hosts) probed.0 probed.1

    -- The end of Run: the findings are sorted, and the totals are set.
    unfoldable pub finish : Msg → Gathered → DnssecData → Result × Runner W → Result × Runner W
    finish resp g d (res, r) = (
      record res {
        findings = sort_findings res.findings;
        records =
            length resp.answer
            + length resp.ns
            + length g.all
            + length d.combined.answer
            + length d.combined.ns;
        queries = r.queries;
      },
      r,
    )

    -- Run behind its first two queries.
    unfoldable pub audit_answer : Msg → Result → Runner W → Result × Runner W
    audit_answer resp res r =
        let gathered = collect_apex_records out opt env.pkg zone resp r in
        let parent = extract_ns_from_response env.pkg resp zone in
        let child = ask out opt env.pkg (child_zone zone) type_ns gathered.1 in
        let compared = delegation_step env opt zone parent child.0 res in
        let probed = probe_step resp.authoritative parent.ns compared child.1 in
        let read = record_steps env opt zone resp gathered.0.all probed.0 in
        let signed =
          collect_dnssec out opt env.pkg env.codec.decoders env.show_record zone resp gathered.0
            probed.1 in
        finish resp gathered.0 signed.0
          (active_steps parent.ns (dnssec_steps env opt zone signed.0 read) signed.1)

    -- The result that Run starts with.
    unfoldable pub start_result : Result
    start_result = record {
      zone = zone;
      findings = [];
      resolver = opt.resolver;
      queries = 0;
      records = 0;
    }

    -- Run
    unfoldable pub run : Runner W → Result × Runner W
    run r =
        let first = ask out opt env.pkg zone type_ns r in
        elim first.0 [
          | none ↦ (
            add_finding start_result
                (new general_error zone (text "Initial resolution failed.") []),
            first.1,
          )
          | some resp ↦
              let second = ask out opt env.pkg zone type_any first.1 in
              audit_answer (with_any resp second.0) start_result second.1
        ]
