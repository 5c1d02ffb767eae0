-- ===== src/Checks/AuthServer/Silent.antt =====
-- What a probe of a server reports.
use zone_lint.Common.{
  Bytes, List, [], ◌∷◌, any, Bool, true, false, ◌||◌, Option, none, some, ◌≡◌, ◌↔◌, refl, arith,
  if◌then◌else◌, ◌∙◌,
}
use zone_lint.Dns.{Slot, Msg}
use zone_lint.Dns.Records.{as_ns, first_soa}
use zone_lint.Checks.AuthServer.{
  ProbeResult, check_result, check_server, probe_answer, probe_authority, probe_response, is_some,
}

-- CheckServer finds nothing in a probe exactly if the probe passes the seven tests: UDP, TCP, the
-- AA flag, SOA, NS, EDNS and consistency.
pub check_server-nil_iff :
    (zone server : Bytes) (r : ProbeResult)
    → (check_server zone server (some r) ≡ []) ↔ (
        (r.udp_reachable ≡ true)
        × (r.tcp_reachable ≡ true)
        × (r.aa ≡ true)
        × (r.has_soa ≡ true)
        × (r.has_ns ≡ true)
        × (r.has_edns ≡ true)
        × (r.consistent ≡ true))
unfolding check_server check_result
check_server-nil_iff zone server r = ground arith

-- A record of the section is an SOA record, or an NS record.
abbrev pub holds_soa : List Slot → Bool
holds_soa = any (λ rr. is_some (first_soa (rr ∷ [])))

abbrev pub holds_ns : List Slot → Bool
holds_ns = any (λ rr. is_some (as_ns rr))

probe_answer_lem :
    (records : List Slot) (r : ProbeResult)
    → probe_answer records r
      ≡ record r { has_soa = r.has_soa || holds_soa records; has_ns = r.has_ns || holds_ns records }
unfolding probe_answer
probe_answer_lem [] r = ground arith
probe_answer_lem (rr ∷ rest) r =
    probe_answer_lem rest (record r {
      has_soa = if is_some (first_soa (rr ∷ [])) then true else r.has_soa;
      has_ns = if is_some (as_ns rr) then true else r.has_ns;
    })
    ∙ ground arith

probe_authority_lem :
    (records : List Slot) (r : ProbeResult)
    → probe_authority records r ≡ record r { has_soa = r.has_soa || holds_soa records }
unfolding probe_authority
probe_authority_lem [] r = ground arith
probe_authority_lem (rr ∷ rest) r =
    probe_authority_lem rest
      (record r { has_soa = if is_some (first_soa (rr ∷ [])) then true else r.has_soa })
    ∙ ground arith

-- A probe takes the flags AA and EDNS from the message, finds an SOA record in either section and
-- an NS record in the answer, and leaves the other fields false; on a nil message it panics.
pub probe_response_lem :
    (o : Option Msg)
    → probe_response o ≡ elim o [
      | none ↦ none
      | some resp ↦ some (record {
        udp_reachable = false;
        tcp_reachable = false;
        aa = resp.authoritative;
        has_soa = holds_soa resp.answer || holds_soa resp.ns;
        has_ns = holds_ns resp.answer;
        has_edns = resp.has_edns;
        consistent = false;
      })
    ]
unfolding probe_response
probe_response_lem none = refl
probe_response_lem (some resp) =
    let start : ProbeResult = record {
      udp_reachable = false;
      tcp_reachable = false;
      aa = resp.authoritative;
      has_soa = false;
      has_ns = false;
      has_edns = resp.has_edns;
      consistent = false;
    } in
    ground (
      arith,
      probe_answer_lem resp.answer start,
      probe_authority_lem resp.ns (probe_answer resp.answer start),
    )
