-- ===== src/Audit/Targets.antt =====
-- Which names the CNAME check takes as resolving.
use zone_lint.Common.{
  Bytes, text, to_lower, has_suffix, List, [], ◌∷◌, ◌++◌, Any, true, none, some, ◌≡◌, ◌↔◌, ◌⊎◌,
  arith,
}
use zone_lint.Common.Dict.{member_iff}
use zone_lint.Dns.{Slot, Package}
use zone_lint.Audit.{build_resolve_target, present_names}

-- Some record that is not nil has the name, up to case and the final dot.
abbrev pub HasRecord : Package → List Slot → Bytes → Type 0
HasRecord pkg [] name = ⊥
HasRecord pkg (none ∷ rest) name = HasRecord pkg rest name
HasRecord pkg (some rr ∷ rest) name =
    (to_lower (pkg.fqdn rr.header.name) ≡ name) ⊎ HasRecord pkg rest name

present_names-HasRecord :
    (pkg : Package) (records : List Slot) (name : Bytes)
    → Any (λ n. n ≡ name) (present_names pkg records) ↔ HasRecord pkg records name
unfolding present_names
present_names-HasRecord pkg [] name = ground arith
present_names-HasRecord pkg (none ∷ rest) name = present_names-HasRecord pkg rest name
present_names-HasRecord pkg (some rr ∷ rest) name =
    ground (arith, present_names-HasRecord pkg rest name)

-- A target counts as resolving exactly when some record has its name, inside the zone or not, or
-- when it lies below the zone and some record has the name of the zone.
pub build_resolve_target_iff :
    (pkg : Package) (records : List Slot) (zone name : Bytes)
    → (build_resolve_target pkg records zone name ≡ true) ↔ (
        HasRecord pkg records (to_lower (pkg.fqdn name))
        ⊎ ((has_suffix (to_lower (pkg.fqdn name)) (text "." ++ to_lower (pkg.fqdn zone)) ≡ true)
            × HasRecord pkg records (to_lower (pkg.fqdn zone))))
unfolding build_resolve_target
build_resolve_target_iff pkg records zone name =
    let target = to_lower (pkg.fqdn name) in
    let apex = to_lower (pkg.fqdn zone) in
    ground (
      arith,
      member_iff target (present_names pkg records),
      member_iff apex (present_names pkg records),
      present_names-HasRecord pkg records target,
      present_names-HasRecord pkg records apex,
    )
