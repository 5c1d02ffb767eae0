-- ===== src/Audit/Servers.antt =====
-- What the steps of Run report about the servers of a zone.
use zone_lint.Common.{
  append-nil, append_assoc, ◌||◌, Bytes, text, List, [], ◌∷◌, ◌++◌, map, Any, true, false, Option,
  none, some, ◌≡◌, ◌≢◌, inl, inr, refl, ap, sym, ◌∙◌, arith, Option-cases,
}
use zone_lint.Dns.{Msg}
use zone_lint.Findings.{Finding, Rule, with_zone, new}
use zone_lint.Findings.Catalog.{
  auth_tcp_fail, auth_inconsistent, axfr_allowed, axfr_refused, axfr_failed,
}
use zone_lint.Checks.AuthServer.{ProbeResult, check_server, check_result, server_finding}
use zone_lint.Checks.AuthServer.Silent.{probe_response_lem, holds_soa, holds_ns}
use zone_lint.Checks.Axfr.{evaluate, parse_transfer_result}
use zone_lint.Checks.Axfr.Bounded.{evaluate-status}
use zone_lint.Audit.{
  Options, Result, Transfer, received, zone_refused, failed, add_finding, add_findings,
  make_transfer_resp, transfer_outcome,
}
use zone_lint.Audit.Session.{Outside, Runner, transfer}
use zone_lint.Audit.Gather.{ask}
use zone_lint.Audit.Reading.{Env}
use zone_lint.Audit.Run.{transfer_servers, probe_servers}
use zone_lint.Dns.Codes.{type_soa, type_axfr}
use zone_lint.Dns.Query.{safe_new_msg}

-- The IDs of the findings of a result.
abbrev pub reported : Result → List Bytes
reported r = map (λ f. f.id) r.findings

map-snoc :
    (xs : List Finding) (f : Finding) (ys : List Bytes)
    → map {B = Bytes} (λ f. f.id) (xs ++ f ∷ []) ++ ys ≡ map (λ f. f.id) xs ++ f.id ∷ ys
map-snoc [] f ys = refl
map-snoc (x ∷ xs) f ys = ap (◌∷◌ x.id) (map-snoc xs f ys)

reported-add_findings :
    (r : Result) (fs : List Finding)
    → reported (add_findings r fs) ≡ reported r ++ map (λ f. f.id) fs
unfolding add_findings add_finding with_zone
reported-add_findings r [] = sym (append-nil (reported r))
reported-add_findings r (f ∷ fs) =
    reported-add_findings (add_finding r f) fs
    ∙ map-snoc r.findings (with_zone f r.zone) (map (λ f. f.id) fs)

-- The rule that a transfer stands for.
abbrev pub transfer_rule : Transfer → Rule
transfer_rule (received _) = axfr_allowed
transfer_rule zone_refused = axfr_refused
transfer_rule failed = axfr_failed

evaluate-transfer_outcome :
    (opt : Options) (zone host : Bytes) (t : Transfer)
    → map {B = Bytes} (λ f. f.id) (evaluate zone host (some (transfer_outcome opt host t)))
      ≡ (transfer_rule t).id ∷ []
unfolding transfer_outcome make_transfer_resp parse_transfer_result
evaluate-transfer_outcome opt zone host (received records) =
    evaluate-status zone host (transfer_outcome opt host (received records)) (text "allowed")
      axfr_allowed (ground arith) (inl (refl, refl))
evaluate-transfer_outcome opt zone host zone_refused =
    evaluate-status zone host (transfer_outcome opt host zone_refused) (text "refused") axfr_refused
      (ground arith) (inr (inl (refl, refl)))
evaluate-transfer_outcome opt zone host failed =
    evaluate-status zone host (transfer_outcome opt host failed) (text "failed") axfr_failed
      (ground arith) (inr (inr (refl, refl)))

module _ {W : Type 0} (env : Env) (opt : Options) (zone : Bytes) (out : Outside W) where
  -- The answers of the transfers that are asked for one after the other.
  abbrev pub transfers : List Bytes → Runner W → List Transfer
  transfers [] r = []
  transfers (host ∷ hosts) r =
      let answer = transfer out opt (safe_new_msg env.pkg zone type_axfr) r in
      answer.0 ∷ transfers hosts answer.1

  -- The transfer step adds one finding for every server, in the order of the servers: that the
  -- transfer was allowed, that it was refused, or that it failed.
  pub transfer_servers-reported :
      (hosts : List Bytes) (res : Result) (r : Runner W)
      → reported (transfer_servers env opt zone out hosts res r).0
        ≡ reported res ++ map (λ t. (transfer_rule t).id) (transfers hosts r)
  unfolding transfer_servers
  transfer_servers-reported [] res r = sym (append-nil (reported res))
  transfer_servers-reported (host ∷ hosts) res r =
      let answer = transfer out opt (safe_new_msg env.pkg zone type_axfr) r in
      let fs = evaluate zone host (some (transfer_outcome opt host answer.0)) in
      let later = map (λ t. (transfer_rule t).id) (transfers hosts answer.1) in
      transfer_servers-reported hosts (add_findings res fs) answer.1
      ∙ ap (λ l. l ++ later)
          (reported-add_findings res fs
            ∙ ap (λ l. reported res ++ l) (evaluate-transfer_outcome opt zone host answer.0))
      ∙ append_assoc (reported res) ((transfer_rule answer.0).id ∷ []) later

Any-append : (k : Bytes) (xs ys : List Bytes) → Any (λ x. x ≡ k) ys → Any (λ x. x ≡ k) (xs ++ ys)
Any-append k [] ys h = h
Any-append k (x ∷ xs) ys h = inr (Any-append k xs ys h)

-- A probe of a message as Run makes it: UDP is set, and TCP and consistency never are.
check_server-probed :
    (zone host : Bytes) (r : ProbeResult)
    → r.tcp_reachable ≡ false
    → r.consistent ≡ false
    → Any (λ k. k ≡ auth_tcp_fail.id) (map (λ f. f.id) (check_server zone host (some r)))
      × Any (λ k. k ≡ auth_inconsistent.id) (map (λ f. f.id) (check_server zone host (some r)))
unfolding check_server check_result server_finding new with_zone
check_server-probed zone host r h k = ground arith

reported-probed :
    (zone host : Bytes) (res : Result) (r : ProbeResult)
    → r.tcp_reachable ≡ false
    → r.consistent ≡ false
    → Any
        (λ k. k ≡ auth_tcp_fail.id)
        (reported (add_findings res (check_server zone host (some r))))
      × Any
          (λ k. k ≡ auth_inconsistent.id)
          (reported (add_findings res (check_server zone host (some r))))
reported-probed zone host res r h k =
    let fs = check_server zone host (some r) in
    let (tcp, inconsistent) = check_server-probed zone host r h k in
    rw (reported-add_findings res fs) (
      Any-append auth_tcp_fail.id (reported res) (map (λ f. f.id) fs) tcp,
      Any-append auth_inconsistent.id (reported res) (map (λ f. f.id) fs) inconsistent,
    )

module _ {W : Type 0} (env : Env) (opt : Options) (zone : Bytes) (out : Outside W) where
  -- The first answer to the SOA query, which is repeated for every server until one comes.
  unfoldable pub first_answer : List Bytes → Runner W → Option Msg
  first_answer [] r = none
  first_answer (host ∷ hosts) r =
      let answer = ask out opt env.pkg zone type_soa r in
      elim answer.0 [ none ↦ first_answer hosts answer.1 | some resp ↦ some resp ]

  -- If the query is answered for some server, the probe step reports that TCP failed and that the
  -- answers were inconsistent, whatever the answer was.
  pub probe_servers-reported :
      (hosts : List Bytes) (res : Result) (r : Runner W)
      → first_answer hosts r ≢ none
      → Any (λ k. k ≡ auth_tcp_fail.id) (reported (probe_servers env opt zone out hosts res r).0)
        × Any
            (λ k. k ≡ auth_inconsistent.id)
            (reported (probe_servers env opt zone out hosts res r).0)
  unfolding probe_servers first_answer
  probe_servers-reported [] res r h = absurd (h refl)
  probe_servers-reported (host ∷ hosts) res r h =
      let answer = ask out opt env.pkg zone type_soa r in
      elim (Option-cases answer.0) [
        | inl silent ↦
            let still_answered : first_answer hosts answer.1 ≢ none =
              λ k. h (rw (silent, first_answer) k) in
            rw (silent, probe_servers) (probe_servers-reported hosts res answer.1 still_answered)
        | inr (resp, answered) ↦
            rw (answered, probe_servers, probe_response_lem (some resp))
              (reported-probed zone host res
                (record {
                  udp_reachable = true;
                  tcp_reachable = false;
                  aa = resp.authoritative;
                  has_soa = holds_soa resp.answer || holds_soa resp.ns;
                  has_ns = holds_ns resp.answer;
                  has_edns = resp.has_edns;
                  consistent = false;
                })
                refl refl)
      ]
