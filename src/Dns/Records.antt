-- ===== src/Dns/Records.antt =====
-- internal/dns/util.go: the functions that pick records out of a section.
pub mod Names
use zone_lint.Common.{
  ℕ, Bytes, to_lower, List, [], ◌∷◌, ◌++◌, Bool, Option, none, some, ◌==◌, if◌then◌else◌,
}
use zone_lint.Common.Dict.{Dict, member, push}
use zone_lint.Dns.{
  Ip, Header, Soa, Body, a, aaaa, ns, soa, txt, cname, ptr, mx, srv, caa, dnskey, ds, nsec, nsec3,
  rrsig, other, Rr, Slot, Package,
}

-- normName
unfoldable pub norm_name : Bytes → Bytes
unfolding to_lower
norm_name = to_lower

-- RRByName, with its loop.
unfoldable pub rr_by_name_onto : Package → List Slot → Dict (List Rr) → Dict (List Rr)
unfolding norm_name
rr_by_name_onto pkg [] out = out
rr_by_name_onto pkg (none ∷ rest) out = rr_by_name_onto pkg rest out
rr_by_name_onto pkg (some rr ∷ rest) out =
    rr_by_name_onto pkg rest (push (norm_name (pkg.fqdn rr.header.name)) rr out)

unfoldable pub rr_by_name : Package → List Slot → Dict (List Rr)
unfolding rr_by_name_onto
rr_by_name pkg records = rr_by_name_onto pkg records []

-- The assertion rr.(*dns.NS), which is false on nil.
unfoldable pub as_ns : Slot → Option Bytes
as_ns (some rr) = elim rr.body [ ns n ↦ some n | _ ↦ none ]
as_ns none = none

-- NSNames, with its loop: `seen` and `out` hold the same names.
unfoldable pub ns_names_onto : List Slot → List Bytes → List Bytes
unfolding as_ns norm_name
ns_names_onto [] out = out
ns_names_onto (rr ∷ rest) out = ns_names_onto rest (elim (as_ns rr) [
  | none ↦ out
  | some host ↦ let n = norm_name host in if member n out then out else out ++ n ∷ []
])

unfoldable pub ns_names : List Slot → List Bytes
unfolding ns_names_onto
ns_names records = ns_names_onto records []

-- TTL
unfoldable pub ttl : Slot → ℕ
ttl none = 0
ttl (some rr) = rr.header.ttl

-- SOA: the first SOA record.
unfoldable pub as_soa : Slot → Option Soa
as_soa (some rr) = elim rr.body [ soa s ↦ some s | _ ↦ none ]
as_soa none = none

unfoldable pub first_soa : List Slot → Option Soa
unfolding as_soa
first_soa [] = none
first_soa (rr ∷ rest) = elim (as_soa rr) [ some s ↦ some s | none ↦ first_soa rest ]

-- First
unfoldable pub first : List Slot → ℕ → Slot
first [] typ = none
first (none ∷ rest) typ = first rest typ
first (some rr ∷ rest) typ = if rr.header.rrtype == typ then some rr else first rest typ

-- RRsOfType
unfoldable pub rrs_of_type : List Slot → ℕ → List Slot
rrs_of_type [] typ = []
rrs_of_type (none ∷ rest) typ = rrs_of_type rest typ
rrs_of_type (some rr ∷ rest) typ =
    let later = rrs_of_type rest typ in if rr.header.rrtype == typ then some rr ∷ later else later

-- Addrs: the addresses of A and AAAA records that are not nil.
unfoldable pub address_of : Slot → List Ip
address_of none = []
address_of (some rr) = elim rr.body [
  | a (some ip) ↦ some ip ∷ []
  | aaaa (some ip) ↦ some ip ∷ []
  | _ ↦ []
]

unfoldable pub addrs : List Slot → List Ip
unfolding address_of
addrs [] = []
addrs (rr ∷ rest) = address_of rr ++ addrs rest
