-- ===== src/Findings/Catalog.antt =====
-- internal/findings/catalog.go: the map of all rules, `register`, `Lookup` and `Rules`.
pub mod Delegation
pub mod Servers
pub mod Records
pub mod Dnssec
pub mod Exposure
pub mod Laws
unfoldable pub use Delegation.*
unfoldable pub use Servers.*
unfoldable pub use Records.*
unfoldable pub use Dnssec.*
unfoldable pub use Exposure.*
use zone_lint.Common.{
  Bytes, eqb, Bool, true, false, List, [], ◌∷◌, ◌++◌, Option, none, some, Option-cases,
  if◌then◌else◌,
}
use zone_lint.Common.Order.{compare_text}
use zone_lint.Common.Sort.{sort_by}
use zone_lint.Findings.{Rule}

-- The map, as the list of its entries. A key is the ID of its rule.
abbrev pub Entries : Type 0
Entries = List Rule

-- Lookup
unfoldable pub lookup : Bytes → Entries → Option Rule
lookup id [] = none
lookup id (r ∷ rest) = if eqb r.id id then some r else lookup id rest

-- register: a second rule with one ID panics, which is `none` here.
unfoldable pub register : Rule → Entries → Option Entries
unfolding lookup
register r entries = elim (lookup r.id entries) [ some _ ↦ none | none ↦ some (r ∷ entries) ]

-- Package initialisation: the declarations in turn, on the empty map.
unfoldable pub register_all : List Rule → Entries → Option Entries
unfolding register
register_all [] entries = some entries
register_all (r ∷ rs) entries = elim (register r entries) [
  | none ↦ none
  | some entries' ↦ register_all rs entries'
]

-- The rules in the order of their declarations.
unfoldable pub declared : List Rule
declared =
    deleg_missing ∷ deleg_lame ∷ deleg_stale_glue ∷ deleg_missing_glue ∷ deleg_unreachable
    ∷ deleg_inconsistent_ns ∷ deleg_non_auth_ns ∷ deleg_inconsistent_answer ∷ auth_udp_fail
    ∷ auth_tcp_fail ∷ auth_no_aa ∷ auth_no_soa ∷ auth_no_ns ∷ auth_no_edns ∷ auth_inconsistent
    ∷ soa_invalid_mname ∷ soa_invalid_rname ∷ soa_serial_format ∷ soa_schedule ∷ soa_negative_ttl
    ∷ axfr_allowed ∷ axfr_refused ∷ axfr_failed ∷ dnssec_no_dnskey ∷ dnssec_no_rrsig
    ∷ dnssec_sign_expired ∷ dnssec_sign_not_yet ∷ dnssec_deprecated_algo ∷ dnssec_broken_chain
    ∷ dnssec_no_ds ∷ dnssec_no_nsec ∷ dnssec_malformed_nsec3 ∷ dnssec_invalid_sig ∷ dnssec_valid
    ∷ ttl_short ∷ ttl_extreme ∷ caa_malformed ∷ caa_critical_unknown ∷ cname_loop ∷ cname_chain_long
    ∷ cname_coexist ∷ cname_dangling ∷ addr_private ∷ addr_loopback ∷ addr_local ∷ addr_reserved
    ∷ addr_documentation ∷ wildcard_present ∷ recursion_open ∷ transport_timeout ∷ general_error
    ∷ []

-- Rules: the map's values in some order, sorted by ID.
unfoldable pub rules : Entries → List Rule
unfolding sort_by
rules = sort_by (λ a b. compare_text a.id b.id)
