-- ===== src/Audit/Reading.antt =====
-- internal/audit/audit.go: the steps of Run that only read what was gathered.
use zone_lint.Common.{
  ℕ, Bytes, text, itoa, eqb, length, ◌||◌, ◌&&◌, not, Option, none, some, List, [], ◌∷◌, ◌++◌, ltb,
  if◌then◌else◌,
}
use zone_lint.Dns.{Ip, Rr, Slot, Msg, Package}
use zone_lint.Dns.Codes.{type_nsec, type_nsec3, type_caa}
use zone_lint.Dns.Records.{first_soa, rrs_of_type}
use zone_lint.Findings.{Finding, new}
use zone_lint.Findings.Catalog.{dnssec_no_ds, dnssec_broken_chain, dnssec_valid}
use zone_lint.Checks.Addrs
use zone_lint.Checks.Caa
use zone_lint.Checks.Cname
use zone_lint.Checks.Delegation.{ParentView, compare_views, extract_child_from_response}
use zone_lint.Checks.Nsec
use zone_lint.Checks.Soa.{Day}
use zone_lint.Checks.Soa
use zone_lint.Checks.Ttl
use zone_lint.Dnssec.Keys.{Codec}
use zone_lint.Dnssec.Chain.{
  ZoneKeys, ChainResult, collect, in_zone, has_dnskey, has_rrsig, has_ds, validate_chain,
}
use zone_lint.Dnssec.Presence.{check_zone}
use zone_lint.Dnssec.Verify.{Primitives}
use zone_lint.Audit.{Options, Result, add_findings, child_zone, build_resolve_target}
use zone_lint.Audit.Gather.{DnssecData, sections}
use zone_lint.Audit.Signatures.{verify_signatures}

-- The libraries that the checks call, and the time of the audit: seconds of the Unix epoch, and
-- the date.
pub record Env : Type 0 where
  pub pkg : Package
  pub codec : Codec
  pub prim : Primitives
  pub ip_string : Ip → Bytes
  pub show_record : Rr → Bytes
  pub now : ℕ
  pub today : Day

module _ (env : Env) (opt : Options) (zone : Bytes) where
  -- Step 2: the comparison with the view of the child, where it answers.
  unfoldable pub delegation_step : ParentView → Option Msg → Result → Result
  delegation_step parent none res = res
  delegation_step parent (some resp) res =
      let name = child_zone zone in
      let child = record (extract_child_from_response env.pkg resp name) {
        authoritative = resp.authoritative;
      } in
      if ltb 0 (length resp.answer)
      then add_findings res (compare_views env.pkg zone parent child)
      else res

  -- Steps 3 to 7, which only read what was gathered.
  unfoldable pub record_steps : Msg → List Slot → Result → Result
  record_steps resp apex_records res =
      let soa_done : Result = elim (first_soa resp.answer) [
        | none ↦ res
        | some s ↦ add_findings res (Soa.check env.pkg env.today zone (some s))
      ] in
      let ttl_done =
        add_findings soa_done
          (Ttl.check env.pkg zone opt.profile (Ttl.collect_all resp Ttl.new_collector)) in
      let caa_done = add_findings ttl_done (Caa.check zone (rrs_of_type apex_records type_caa)) in
      let addrs_done = add_findings caa_done (Addrs.check_all env.ip_string zone apex_records) in
      add_findings addrs_done (
        Cname.check zone (Cname.build env.pkg apex_records) 8
          (build_resolve_target env.pkg apex_records zone))

  -- The reason that a broken chain is reported with.
  unfoldable pub chain_reason : ChainResult → Bytes
  chain_reason cr =
      let reason : Bytes = if eqb cr.reason [] then cr.broken_at else cr.reason in
      if eqb reason [] then text "validation failed" else reason

  -- Step 8 behind the presence check: the verdict on the chain.
  unfoldable pub chain_finding : ZoneKeys → ZoneKeys → List Finding → ℕ → List Finding
  chain_finding zk anchor failures verified =
      let cr = validate_chain env.prim.hashes env.pkg anchor zk env.now in
      if not (has_ds anchor)
      then new dnssec_no_ds zone
          (text
            "The zone is DNSSEC-signed but the parent publishes no DS record, so the chain of trust cannot be established.")
          []
        ∷ []
      else if not cr.valid
      then new dnssec_broken_chain zone
          (text "The DNSSEC chain of trust does not validate for this zone.") (chain_reason cr ∷ [])
        ∷ []
      else if ltb 0 verified && not (ltb 0 (length failures))
      then new dnssec_valid zone
          (text
            "The DNSSEC chain of trust validates and all in-zone RRSIGs verify against the zone DNSKEY.")
          ((text "verified_rrsets=" ++ itoa verified) ∷ [])
        ∷ []
      else []

  -- Step 9: the records that the NSEC check reads.
  unfoldable pub nsec_records : Msg → List Slot
  nsec_records combined =
      rrs_of_type combined.answer type_nsec
      ++ (rrs_of_type combined.ns type_nsec
          ++ (rrs_of_type combined.answer type_nsec3 ++ rrs_of_type combined.ns type_nsec3))

  -- Steps 8 and 9 on what collectDNSSEC gathered.
  unfoldable pub dnssec_steps : DnssecData → Result → Result
  dnssec_steps d res =
      let combined = sections d.combined.answer d.combined.ns in
      let zk = in_zone env.pkg (collect env.codec env.pkg combined) zone in
      let anchor = collect env.codec env.pkg d.ds in
      let sigs = verify_signatures env.prim env.codec env.pkg zone d in
      if has_dnskey zk || (has_rrsig zk || has_ds anchor)
      then add_findings
          (add_findings
            (add_findings (add_findings res (check_zone env.pkg zone zk env.now)) sigs.0)
            (chain_finding zk anchor sigs.0 sigs.1))
          (Nsec.check zone (Nsec.analyze (nsec_records combined)))
      else res
