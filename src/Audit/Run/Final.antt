-- ===== src/Audit/Run/Final.antt =====
-- What a finished audit returns.
use mathlib.Core.List.{Pairwise, Pairwise-singleton}
use zone_lint.Common.{
  Bytes, text, All, All-append, List, [], ◌∷◌, Bool, true, false, ◌&&◌, not, Option, none, some,
  ◌≡◌, refl, eqb, length, ltb, Option-cases, Bool-cases, inl, inr, if◌then◌else◌,
}
use zone_lint.Common.Order.{is_le}
use zone_lint.Common.Sort.{All-sort_by}
use zone_lint.Dns.{Msg, Slot}
use zone_lint.Dns.Codes.{type_ns, type_soa, type_any}
use zone_lint.Dns.Records.{first_soa}
use zone_lint.Checks.AuthServer.{probe_response}
use zone_lint.Checks.Delegation.{ParentView}
use zone_lint.Findings.{Finding, with_zone}
use zone_lint.Findings.Sorting.{compare_findings, sort_findings, sort_findings-IsSorted}
use zone_lint.Audit.{Options, Result, add_finding, add_findings}
use zone_lint.Audit.Session.{Outside, Runner}
use zone_lint.Audit.Gather.{Gathered, DnssecData, ask}
use zone_lint.Audit.Reading.{Env, delegation_step, record_steps, dnssec_steps}
use zone_lint.Audit.Run.{
  probe_servers, probe_step, transfer_servers, wildcard_step, recursion_servers, when_active,
  active_steps, start_result, finish, audit_answer, with_any, run,
}

-- The findings of a result carry its zone.
abbrev pub InZone : Bytes → Result → Type 0
InZone zone res = (res.zone ≡ zone) × All (λ f. f.zone ≡ zone) res.findings

InZone-add_findings :
    (zone : Bytes) (res : Result) (fs : List Finding)
    → InZone zone res
    → InZone zone (add_findings res fs)
unfolding add_findings add_finding with_zone
InZone-add_findings zone res [] h = h
InZone-add_findings zone res (f ∷ fs) h =
    InZone-add_findings zone (add_finding res f) fs
      (h.0, All-append (λ f. f.zone ≡ zone) res.findings (with_zone f res.zone ∷ []) h.1 (h.0, tt))

module _ {W : Type 0} (env : Env) (opt : Options) (zone : Bytes) (out : Outside W) where
  InZone-delegation_step :
      (parent : ParentView) (resp : Option Msg) (res : Result)
      → InZone zone res
      → InZone zone (delegation_step env opt zone parent resp res)
  unfolding delegation_step
  InZone-delegation_step parent none res h = h
  InZone-delegation_step parent (some resp) res h = elim (Bool-cases (ltb 0 (length resp.answer))) [
    | inl e ↦ rw (e, delegation_step) (InZone-add_findings zone res _ h)
    | inr e ↦ rw (e, delegation_step) h
  ]

  InZone-record_steps :
      (resp : Msg) (records : List Slot) (res : Result)
      → InZone zone res
      → InZone zone (record_steps env opt zone resp records res)
  unfolding record_steps
  InZone-record_steps resp records res h = elim (Option-cases (first_soa resp.answer)) [
    | inl e ↦
        rw (e, record_steps)
          (InZone-add_findings zone _ _ (
            InZone-add_findings zone _ _
              (InZone-add_findings zone _ _ (InZone-add_findings zone _ _ h))))
    | inr (s, e) ↦
        rw (e, record_steps)
          (InZone-add_findings zone _ _ (
            InZone-add_findings zone _ _ (
              InZone-add_findings zone _ _
                (InZone-add_findings zone _ _ (InZone-add_findings zone _ _ h)))))
  ]

  InZone-when :
      (b : Bool) (res done : Result)
      → InZone zone res
      → InZone zone done
      → InZone zone (if b then done else res)
  InZone-when true res done h k = k
  InZone-when false res done h k = h

  InZone-dnssec_steps :
      (d : DnssecData) (res : Result)
      → InZone zone res
      → InZone zone (dnssec_steps env opt zone d res)
  unfolding dnssec_steps
  InZone-dnssec_steps d res h = InZone-when _ res _ h (
      InZone-add_findings zone _ _ (
        InZone-add_findings zone _ _
          (InZone-add_findings zone _ _ (InZone-add_findings zone _ _ h))))

  InZone-probe_servers :
      (hosts : List Bytes) (res : Result) (r : Runner W)
      → InZone zone res
      → InZone zone (probe_servers env opt zone out hosts res r).0
  unfolding probe_servers
  InZone-probe_servers [] res r h = h
  InZone-probe_servers (host ∷ hosts) res r h =
      let answer = ask out opt env.pkg zone type_soa r in
      elim (Option-cases answer.0) [
        | inl e ↦ rw (e, probe_servers) (InZone-probe_servers hosts res answer.1 h)
        | inr (resp, e) ↦ elim (Option-cases (probe_response (some resp))) [
          | inl p ↦ rw (e, probe_servers, p) h
          | inr (pr, p) ↦ rw (e, probe_servers, p) (InZone-add_findings zone res _ h)
        ]
      ]

  InZone-probe_step :
      (authoritative : Bool) (hosts : List Bytes) (res : Result) (r : Runner W)
      → InZone zone res
      → InZone zone (probe_step env opt zone out authoritative hosts res r).0
  unfolding probe_step
  InZone-probe_step authoritative hosts res r h =
      elim (Bool-cases (not (eqb opt.resolver (text "fake")) && authoritative)) [
        | inl e ↦ rw (e, probe_step) (InZone-probe_servers hosts res r h)
        | inr e ↦ rw (e, probe_step) h
      ]

  InZone-transfer_servers :
      (hosts : List Bytes) (res : Result) (r : Runner W)
      → InZone zone res
      → InZone zone (transfer_servers env opt zone out hosts res r).0
  unfolding transfer_servers
  InZone-transfer_servers [] res r h = h
  InZone-transfer_servers (host ∷ hosts) res r h =
      InZone-transfer_servers hosts _ _ (InZone-add_findings zone res _ h)

  InZone-recursion_servers :
      (hosts : List Bytes) (res : Result) (r : Runner W)
      → InZone zone res
      → InZone zone (recursion_servers env opt zone out hosts res r).0
  unfolding recursion_servers
  InZone-recursion_servers [] res r h = h
  InZone-recursion_servers (host ∷ hosts) res r h =
      InZone-recursion_servers hosts _ _ (InZone-add_findings zone res _ h)

  InZone-branch :
      (b : Bool) (res : Result) (r : Runner W) (done : Result × Runner W)
      → InZone zone res
      → InZone zone done.0
      → InZone zone (if b then done else (res, r)).0
  InZone-branch true res r done h k = k
  InZone-branch false res r done h k = h

  InZone-active_steps :
      (hosts : List Bytes) (res : Result) (r : Runner W)
      → InZone zone res
      → InZone zone (active_steps env opt zone out hosts res r).0
  unfolding active_steps when_active wildcard_step
  InZone-active_steps hosts res r h =
      let transferred =
        when_active env opt zone out (transfer_servers env opt zone out hosts) res r in
      let probed = wildcard_step env opt zone out transferred.0 transferred.1 in
      let h_transferred : InZone zone transferred.0 =
        InZone-branch opt.active res r (transfer_servers env opt zone out hosts res r) h
          (InZone-transfer_servers hosts res r h) in
      let h_probed : InZone zone probed.0 =
        InZone-add_findings zone transferred.0 _ h_transferred in
      InZone-branch opt.active probed.0 probed.1
        (recursion_servers env opt zone out hosts probed.0 probed.1) h_probed
        (InZone-recursion_servers hosts probed.0 probed.1 h_probed)

  -- What a finished result has: its findings carry the zone and are sorted.
  abbrev pub IsFinal : Result → Type 0
  IsFinal res = InZone zone res × Pairwise (λ a b. is_le (compare_findings a b) ≡ true) res.findings

  IsFinal-finish :
      (resp : Msg) (g : Gathered) (d : DnssecData) (res : Result) (r : Runner W)
      → InZone zone res
      → IsFinal (finish env opt zone out resp g d (res, r)).0
  unfolding finish sort_findings
  IsFinal-finish resp g d res r h = (
    (h.0, All-sort_by compare_findings (λ f. f.zone ≡ zone) res.findings h.1),
    (sort_findings-IsSorted res.findings).1,
  )

  IsFinal-audit_answer :
      (resp : Msg) (res : Result) (r : Runner W)
      → InZone zone res
      → IsFinal (audit_answer env opt zone out resp res r).0
  unfolding audit_answer
  IsFinal-audit_answer resp res r h = IsFinal-finish resp _ _ _ _ (
      InZone-active_steps _ _ _ (
        InZone-dnssec_steps _ _ (
          InZone-record_steps resp _ _
            (InZone-probe_step resp.authoritative _ _ _ (InZone-delegation_step _ _ res h)))))

  -- Whatever the resolver answers, and where it fails too, the findings of an audit all carry its
  -- zone and stand in the order of Compare.
  pub run-IsFinal : (r : Runner W) → IsFinal (run env opt zone out r).0
  unfolding run start_result add_finding with_zone
  run-IsFinal r =
      let first = ask out opt env.pkg zone type_ns r in
      elim (Option-cases first.0) [
        | inl e ↦ rw (e, run) ((refl, (refl, tt)), Pairwise-singleton _ _)
        | inr (resp, e) ↦
            let second = ask out opt env.pkg zone type_any first.1 in
            rw (e, run)
              (IsFinal-audit_answer (with_any resp second.0) (start_result env opt zone out)
                second.1 (refl, tt))
      ]
