-- ===== src/Checks/AuthServer.antt =====
-- internal/authserver/authserver.go: the probe of one authoritative server.
pub mod Silent
use zone_lint.Common.{
  Bytes, text, when, List, [], ◌∷◌, ◌++◌, Bool, true, false, ◌&&◌, not, Option, none, some,
  if◌then◌else◌,
}
use zone_lint.Dns.{ns, soa, Rr, Slot, Msg}
use zone_lint.Dns.Records.{as_ns, first_soa}
use zone_lint.Findings.{Finding, Rule, new, with_zone}
use zone_lint.Findings.Catalog.{
  auth_udp_fail, auth_tcp_fail, auth_no_aa, auth_no_soa, auth_no_ns, auth_no_edns,
  auth_inconsistent,
}

-- ProbeResult, with the fields that CheckServer reads.
pub record ProbeResult : Type 0 where
  pub udp_reachable : Bool
  pub tcp_reachable : Bool
  pub aa : Bool
  pub has_soa : Bool
  pub has_ns : Bool
  pub has_edns : Bool
  pub consistent : Bool

-- A finding of CheckServer: its rule, its description and its evidence.
unfoldable pub server_finding : Bytes → Bytes → Rule → Bytes → List Bytes → Finding
server_finding zone server rule description evidence =
    with_zone (new rule server description evidence) zone

unfoldable pub check_result : Bytes → Bytes → ProbeResult → List Finding
check_result zone server r =
    when (not r.udp_reachable) (
      server_finding zone server auth_udp_fail
        (text "The authoritative server did not answer over UDP.")
        ((text "server " ++ server) ∷ []))
    ++ (when (not r.tcp_reachable) (
          server_finding zone server auth_tcp_fail
            (text
              "The authoritative server did not answer over TCP (needed for large responses and AXFR).")
            [])
        ++ (when (r.udp_reachable && not r.aa) (
              server_finding zone server auth_no_aa
                (text "The server answered but did not set the AA flag for a zone NS/SOA query.")
                [])
            ++ (when (r.udp_reachable && not r.has_soa) (
                  server_finding zone server auth_no_soa
                    (text
                      "The authoritative server did not include the zone SOA in the authority section.")
                    [])
                ++ (when (r.udp_reachable && not r.has_ns) (
                      server_finding zone server auth_no_ns
                        (text
                          "The authoritative server did not include NS records for the zone apex.")
                        [])
                    ++ (when (r.udp_reachable && not r.has_edns) (
                          server_finding zone server auth_no_edns
                            (text
                              "The server does not support EDNS0 with the DO bit; DNSSEC responses may be truncated.")
                            [])
                        ++ when (not r.consistent) (
                            server_finding zone server auth_inconsistent
                              (text
                                "The server returned inconsistent answers across repeated queries.")
                              []))))))

-- CheckServer; `none` is a nil result.
unfoldable pub check_server : Bytes → Bytes → Option ProbeResult → List Finding
check_server zone server none =
    server_finding zone server auth_udp_fail (text "The name server could not be reached.")
      ((text "server " ++ server) ∷ [])
    ∷ []
check_server zone server (some r) = check_result zone server r

-- The loops of ProbeResponse over the two sections.
abbrev is_some {ℓ} : {A : Type ℓ} → Option A → Bool
is_some none = false
is_some (some _) = true

unfoldable pub probe_answer : List Slot → ProbeResult → ProbeResult
probe_answer [] r = r
probe_answer (rr ∷ rest) r = probe_answer rest (record r {
  has_soa = if is_some (first_soa (rr ∷ [])) then true else r.has_soa;
  has_ns = if is_some (as_ns rr) then true else r.has_ns;
})

unfoldable pub probe_authority : List Slot → ProbeResult → ProbeResult
probe_authority [] r = r
probe_authority (rr ∷ rest) r =
    probe_authority rest
      (record r { has_soa = if is_some (first_soa (rr ∷ [])) then true else r.has_soa })

-- ProbeResponse. The first line reads fields of the message before the test for nil, so a nil
-- message panics, which is `none` here. What it does not set is false.
unfoldable pub probe_response : Option Msg → Option ProbeResult
probe_response none = none
probe_response (some resp) = some (
    probe_authority resp.ns (
      probe_answer resp.answer (record {
        udp_reachable = false;
        tcp_reachable = false;
        aa = resp.authoritative;
        has_soa = false;
        has_ns = false;
        has_edns = resp.has_edns;
        consistent = false;
      })))
