-- ===== src/Audit/Run/Steps.antt =====
-- What the steps of Run spend.
use zone_lint.Common.{
  ℕ, Bytes, text, eqb, to_lower, length, Bool, true, false, ◌&&◌, not, some, List, [], ◌∷◌, ◌++◌,
  ◌≡◌, ◌+◌, ◌*◌, refl, arith, Option-cases, Bool-cases, inl, inr, if◌then◌else◌,
}
use zone_lint.Common.Dict.{member}
use zone_lint.Dns.{Rr, Slot, Msg, Package, Decoders}
use zone_lint.Dns.Codes.{type_a, type_aaaa, type_soa, type_axfr, type_dnskey, type_ds}
use zone_lint.Dns.Query.{safe_new_msg}
use zone_lint.Dns.Records.{as_ns}
use zone_lint.Checks.AuthServer.{probe_response}
use zone_lint.Checks.Axfr.{evaluate}
use zone_lint.Audit.{Options, Result, add_findings, transfer_outcome}
use zone_lint.Audit.Session.{Outside, Runner, transfer, random_name}
use zone_lint.Audit.Session.Trace.{
  Spends, Spends-none, Spends-then, Spends-le, Spends-query, Spends-transfer, Spends-random_name,
}
use zone_lint.Audit.Gather.{
  Gathered, gather_answer, ask, ask_random, gather_types, gather_hosts, apex_types,
  collect_apex_records, collect_dnssec,
}
use zone_lint.Audit.Reading.{Env}
use zone_lint.Audit.Run.{
  probe_servers, probe_step, transfer_servers, wildcard_step, recursion_servers, recursion_findings,
  when_active, active_steps,
}

module _ {W : Type 0} (out : Outside W) (opt : Options) (pkg : Package) where
  pub Spends-ask :
      (name : Bytes) (typ : ℕ) (r : Runner W) → Spends out opt 1 r (ask out opt pkg name typ r).1
  unfolding ask safe_new_msg
  Spends-ask name typ r = Spends-query out opt (safe_new_msg pkg name typ) r refl

  pub Spends-gather_types :
      (authority : Bool) (name : Bytes) (types : List ℕ) (g : Gathered) (r : Runner W)
      → Spends out opt (length types) r (gather_types out opt pkg authority name types g r).1
  unfolding gather_types
  Spends-gather_types authority name [] g r = Spends-none r
  Spends-gather_types authority name (typ ∷ types) g r =
      let answer = ask out opt pkg name typ r in
      Spends-le (omega arith) (
        Spends-then (Spends-ask name typ r)
          (Spends-gather_types authority name types (gather_answer authority answer.0 g) answer.1))

  pub Spends-gather_hosts :
      (rrs : List Slot) (seen : List Bytes) (g : Gathered) (r : Runner W)
      → Spends out opt (2 * length rrs) r (gather_hosts out opt pkg rrs seen g r).1
  unfolding gather_hosts
  Spends-gather_hosts [] seen g r = Spends-none r
  Spends-gather_hosts (rr ∷ rest) seen g r = elim (Option-cases (as_ns rr)) [
    | inl e ↦ rw (e, gather_hosts) (Spends-le (omega arith) (Spends-gather_hosts rest seen g r))
    | inr (host, e) ↦
        let name = to_lower (pkg.fqdn host) in
        let asked = gather_types out opt pkg false name (type_a ∷ type_aaaa ∷ []) g r in
        elim (Bool-cases (member name seen)) [
          | inl m ↦
              rw (e, gather_hosts, m) (Spends-le (omega arith) (Spends-gather_hosts rest seen g r))
          | inr m ↦
              rw (e, gather_hosts, m)
                (Spends-le (omega arith) (
                  Spends-then (Spends-gather_types false name (type_a ∷ type_aaaa ∷ []) g r)
                    (Spends-gather_hosts rest (name ∷ seen) asked.0 asked.1)))
        ]
  ]

  pub Spends-collect_apex_records :
      (zone : Bytes) (initial : Msg) (r : Runner W)
      → Spends out opt
          (6 + 2 * length initial.answer)
          r
          (collect_apex_records out opt pkg zone initial r).1
  unfolding collect_apex_records
  Spends-collect_apex_records zone initial r =
      let start : Gathered = record { all = initial.answer ++ initial.ns; units = [] } in
      let apex = gather_types out opt pkg true zone apex_types start r in
      Spends-then (Spends-gather_types true zone apex_types start r)
        (Spends-gather_hosts initial.answer [] apex.0 apex.1)

  pub Spends-ask_random :
      (zone : Bytes) (r : Runner W) → Spends out opt 1 r (ask_random out opt pkg zone r).1
  unfolding ask_random
  Spends-ask_random zone r =
      let named = random_name out opt zone r in
      elim (Option-cases named.0) [
        | inl e ↦ rw (e, ask_random) (Spends-le (omega arith) (Spends-random_name out opt zone r))
        | inr (name, e) ↦
            rw (e, ask_random)
              (Spends-then (Spends-random_name out opt zone r) (Spends-ask name type_a named.1))
      ]

  pub Spends-collect_dnssec :
      (dec : Decoders) (show : Rr → Bytes) (zone : Bytes) (initial : Msg) (g : Gathered)
      (r : Runner W)
      → Spends out opt 3 r (collect_dnssec out opt pkg dec show zone initial g r).1
  unfolding collect_dnssec
  Spends-collect_dnssec dec show zone initial g r =
      let dnskey = ask out opt pkg zone type_dnskey r in
      let ds = ask out opt pkg zone type_ds dnskey.1 in
      Spends-then (Spends-ask zone type_dnskey r)
        (Spends-then (Spends-ask zone type_ds dnskey.1) (Spends-ask_random zone ds.1))

module _ {W : Type 0} (env : Env) (opt : Options) (zone : Bytes) (out : Outside W) where
  Spends-probe_servers :
      (hosts : List Bytes) (res : Result) (r : Runner W)
      → Spends out opt (length hosts) r (probe_servers env opt zone out hosts res r).1
  unfolding probe_servers
  Spends-probe_servers [] res r = Spends-none r
  Spends-probe_servers (host ∷ hosts) res r =
      let asked = Spends-ask out opt env.pkg zone type_soa r in
      let answer = ask out opt env.pkg zone type_soa r in
      elim (Option-cases answer.0) [
        | inl e ↦
            rw (e, probe_servers)
              (Spends-le (omega arith)
                (Spends-then asked (Spends-probe_servers hosts res answer.1)))
        | inr (resp, e) ↦ elim (Option-cases (probe_response (some resp))) [
          | inl p ↦ rw (e, probe_servers, p) (Spends-le (omega arith) asked)
          | inr (pr, p) ↦ rw (e, probe_servers, p) (Spends-le (omega arith) asked)
        ]
      ]

  pub Spends-probe_step :
      (authoritative : Bool) (hosts : List Bytes) (res : Result) (r : Runner W)
      → Spends out opt (length hosts) r (probe_step env opt zone out authoritative hosts res r).1
  unfolding probe_step
  Spends-probe_step authoritative hosts res r =
      elim (Bool-cases (not (eqb opt.resolver (text "fake")) && authoritative)) [
        | inl e ↦ rw (e, probe_step) (Spends-probe_servers hosts res r)
        | inr e ↦ rw (e, probe_step) (Spends-le (omega arith) (Spends-none r))
      ]

  Spends-transfer_servers :
      (hosts : List Bytes) (res : Result) (r : Runner W)
      → opt.active ≡ true
      → Spends out opt (length hosts) r (transfer_servers env opt zone out hosts res r).1
  unfolding transfer_servers safe_new_msg
  Spends-transfer_servers [] res r h = Spends-none r
  Spends-transfer_servers (host ∷ hosts) res r h =
      let req = safe_new_msg env.pkg zone type_axfr in
      let answer = transfer out opt req r in
      Spends-le (omega arith) (
        Spends-then (Spends-transfer out opt req r h refl) (
          Spends-transfer_servers hosts
            (add_findings res (evaluate zone host (some (transfer_outcome opt host answer.0))))
            answer.1 h))

  Spends-recursion_servers :
      (hosts : List Bytes) (res : Result) (r : Runner W)
      → Spends out opt (length hosts) r (recursion_servers env opt zone out hosts res r).1
  unfolding recursion_servers
  Spends-recursion_servers [] res r = Spends-none r
  Spends-recursion_servers (host ∷ hosts) res r =
      let probe = ask_random out opt env.pkg zone r in
      Spends-le (omega arith) (
        Spends-then (Spends-ask_random out opt env.pkg zone r) (
          Spends-recursion_servers hosts
            (add_findings res (recursion_findings env opt zone out host probe.0)) probe.1))

  Spends-when :
      (n : ℕ) (step : Result → Runner W → Result × Runner W) (res : Result) (r : Runner W)
      (active : Bool)
      → opt.active ≡ active
      → (opt.active ≡ true → Spends out opt n r (step res r).1)
      → Spends out opt n r (if active then step res r else (res, r)).1
  Spends-when n step res r true e h = h e
  Spends-when n step res r false e h = Spends-le (omega arith) (Spends-none r)

  Spends-when_active :
      (n : ℕ) (step : Result → Runner W → Result × Runner W) (res : Result) (r : Runner W)
      → (opt.active ≡ true → Spends out opt n r (step res r).1)
      → Spends out opt n r (when_active env opt zone out step res r).1
  unfolding when_active
  Spends-when_active n step res r h = Spends-when n step res r opt.active refl h

  pub Spends-active_steps :
      (hosts : List Bytes) (res : Result) (r : Runner W)
      → Spends out opt
          (length hosts + (1 + length hosts))
          r
          (active_steps env opt zone out hosts res r).1
  unfolding active_steps wildcard_step
  Spends-active_steps hosts res r =
      let transferred =
        when_active env opt zone out (transfer_servers env opt zone out hosts) res r in
      let probed = wildcard_step env opt zone out transferred.0 transferred.1 in
      Spends-then
        (Spends-when_active (length hosts) (transfer_servers env opt zone out hosts) res r
          (λ h. Spends-transfer_servers hosts res r h))
        (Spends-then (Spends-ask_random out opt env.pkg zone transferred.1) (
          Spends-when_active (length hosts) (recursion_servers env opt zone out hosts) probed.0
            probed.1 (λ _. Spends-recursion_servers hosts probed.0 probed.1)))
