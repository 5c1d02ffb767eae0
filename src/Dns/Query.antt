-- ===== src/Dns/Query.antt =====
-- internal/dns/util.go: the query messages that the audit sends.
use zone_lint.Common.{ℕ, Bytes, Bool, true, Option, none, some, ◌%◌, ◌^◌, ◌==◌, if◌then◌else◌}
use zone_lint.Dns.{Package}

-- A query message: its question, and its EDNS0 record, with the UDP size and the DO bit.
pub record Question : Type 0 where
  pub name : Bytes
  pub qtype : ℕ
  pub recursion_desired : Bool
  pub edns : Option (ℕ × Bool)

-- SafeNewMsg
unfoldable pub safe_new_msg : Package → Bytes → ℕ → Question
safe_new_msg pkg name qtype = record {
  name = pkg.fqdn name;
  qtype = qtype;
  recursion_desired = true;
  edns = none;
}

-- SetEDNS; a size that is not positive is 0 here.
unfoldable pub set_edns : Question → ℕ → Bool → Question
set_edns m udp_size dnssec =
    let size : ℕ = if udp_size == 0 then 1232 else udp_size in
    elim m.edns [ none ↦ m | some _ ↦ record m { edns = some (size % 2 ^ 16, dnssec) } ]
