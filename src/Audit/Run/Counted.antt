-- ===== src/Audit/Run/Counted.antt =====
-- How many queries Run makes, and how many it reports.
use zone_lint.Common.{
  ℕ, Bytes, length, List, [], ◌∷◌, map, none, ◌≡◌, ◌≢◌, ◌⊎◌, ◌≤◌, ◌+◌, ◌*◌, refl, arith,
  Option-cases, inl, inr,
}
use zone_lint.Dns.{Msg}
use zone_lint.Dns.Codes.{type_ns, type_any}
use zone_lint.Findings.{new, with_zone}
use zone_lint.Findings.Catalog.{general_error}
use zone_lint.Audit.{Options, Result, add_finding, child_zone}
use zone_lint.Audit.Session.{Outside, Runner, query}
use zone_lint.Audit.Session.Trace.{Calls, still, Spends, Spends-then, Spends-le}
use zone_lint.Audit.Gather.{ask, collect_apex_records, collect_dnssec}
use zone_lint.Audit.Reading.{Env, delegation_step, record_steps, dnssec_steps}
use zone_lint.Audit.Run.{with_any, probe_step, finish, start_result, audit_answer, run}
use zone_lint.Audit.Run.Steps.{
  Spends-ask, Spends-collect_apex_records, Spends-collect_dnssec, Spends-probe_step,
  Spends-active_steps,
}
use zone_lint.Checks.Delegation.{extract_ns_from_response}
use zone_lint.Checks.Delegation.Short.{extract_ns_from_response-short}

module _ {W : Type 0} (env : Env) (opt : Options) (zone : Bytes) (out : Outside W) where
  -- The servers of the zone, as the first two responses name them.
  abbrev pub servers : Msg → List Bytes
  servers resp = (extract_ns_from_response env.pkg resp zone).ns

  pub Spends-audit_answer :
      (resp : Msg) (res : Result) (r : Runner W)
      → Spends out opt
          (11 + (2 * length resp.answer + 3 * length (servers resp)))
          r
          (audit_answer env opt zone out resp res r).1
  unfolding audit_answer finish
  Spends-audit_answer resp res r =
      let gathered = collect_apex_records out opt env.pkg zone resp r in
      let parent = extract_ns_from_response env.pkg resp zone in
      let child = ask out opt env.pkg (child_zone zone) type_ns gathered.1 in
      let compared = delegation_step env opt zone parent child.0 res in
      let probed = probe_step env opt zone out resp.authoritative parent.ns compared child.1 in
      let read = record_steps env opt zone resp gathered.0.all probed.0 in
      let signed =
        collect_dnssec out opt env.pkg env.codec.decoders env.show_record zone resp gathered.0
          probed.1 in
      Spends-le (omega arith) (
        Spends-then (Spends-collect_apex_records out opt env.pkg zone resp r) (
          Spends-then (Spends-ask out opt env.pkg (child_zone zone) type_ns gathered.1) (
            Spends-then
              (Spends-probe_step env opt zone out resp.authoritative parent.ns compared child.1)
              (Spends-then
                (Spends-collect_dnssec out opt env.pkg env.codec.decoders env.show_record zone resp
                  gathered.0 probed.1)
                (Spends-active_steps env opt zone out parent.ns
                  (dnssec_steps env opt zone signed.0 read) signed.1)))))

  -- The total of records is at least that of the first two responses.
  records-audit_answer :
      (resp : Msg) (res : Result) (r : Runner W)
      → length resp.answer + length resp.ns ≤ (audit_answer env opt zone out resp res r).0.records
  unfolding audit_answer finish
  records-audit_answer resp res r = omega arith

  servers-audit_answer :
      (resp : Msg) (res : Result) (r : Runner W)
      → (audit_answer env opt zone out resp res r).1.queries
        ≤ r.queries + (11 + 5 * (audit_answer env opt zone out resp res r).0.records)
  servers-audit_answer resp res r =
      let spent = Spends-audit_answer resp res r in
      let few = spent.few in
      omega
        (arith, records-audit_answer resp res r, extract_ns_from_response-short env.pkg resp zone)

  -- Every call that Run makes on the resolver is a query of the configured server with EDNS0 and
  -- the DO bit, or in an active audit an AXFR from it, and the counter of the runner counts these
  -- calls; there are at most 13 and five for each record of the total that the audit reports.
  pub run-Calls :
      (w : W)
      → let end = run env opt zone out (record { queries = 0; world = w }) in
        Calls out opt w end.1.queries end.1.world × (end.1.queries ≤ 13 + 5 * end.0.records)
  unfolding run
  run-Calls w =
      let start : Runner W = record { queries = 0; world = w } in
      let first = ask out opt env.pkg zone type_ns start in
      let asked = Spends-ask out opt env.pkg zone type_ns start in
      let few = asked.few in
      elim (Option-cases first.0) [
        | inl e ↦ rw (e, run) (asked.made w still, omega arith)
        | inr (resp, e) ↦
            let second = ask out opt env.pkg zone type_any first.1 in
            let more = Spends-ask out opt env.pkg zone type_any first.1 in
            let few_more = more.few in
            let whole = with_any resp second.0 in
            let rest = Spends-audit_answer whole (start_result env opt zone out) second.1 in
            rw (e, run)
              (
                rest.made w (more.made w (asked.made w still)),
                omega (arith, servers-audit_answer whole (start_result env opt zone out) second.1),
              )
      ]

  ask-queries :
      (typ : ℕ) (r : Runner W) → (ask out opt env.pkg zone typ r).1.queries ≡ r.queries + 1
  unfolding ask query
  ask-queries typ r = refl

  reported-audit_answer :
      (resp : Msg) (res : Result) (r : Runner W)
      → (audit_answer env opt zone out resp res r).0.queries
        ≡ (audit_answer env opt zone out resp res r).1.queries
  unfolding audit_answer finish
  reported-audit_answer resp res r = refl

  -- The audit reports as its queries all calls that its runner has counted, at least two of its own,
  -- where its first query is answered. Where that fails, it has made this one query, reports 0
  -- queries and 0 records, and has the general error as its only finding.
  pub run-queries :
      (r : Runner W)
      → let first = (ask out opt env.pkg zone type_ns r).0 in
        let end = run env opt zone out r in
        ((first ≢ none) × ((end.0.queries ≡ end.1.queries) × (r.queries + 2 ≤ end.1.queries)))
        ⊎ ((first ≡ none)
            × ((map (λ f. f.id) end.0.findings ≡ general_error.id ∷ [])
                × ((end.0.records ≡ 0) × ((end.0.queries ≡ 0) × (end.1.queries ≡ r.queries + 1)))))
  unfolding run start_result add_finding with_zone new
  run-queries r =
      let first = ask out opt env.pkg zone type_ns r in
      let one = ask-queries type_ns r in
      elim (Option-cases first.0) [
        | inl e ↦ inr (e, rw (e, run) (refl, (refl, (refl, one))))
        | inr (resp, e) ↦
            let second = ask out opt env.pkg zone type_any first.1 in
            let two = ask-queries type_any first.1 in
            let whole = with_any resp second.0 in
            let start = start_result env opt zone out in
            let rest = Spends-audit_answer whole start second.1 in
            let kept = rest.kept in
            inl (
              λ n. absurd (cc),
              rw (e, run) (reported-audit_answer whole start second.1, omega arith),
            )
      ]
