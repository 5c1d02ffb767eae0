-- ===== src/Checks/Delegation/Short.antt =====
-- How many servers a view names.
use zone_lint.Common.{
  suc, Bytes, eqb, eqb_iff, to_lower, length, length-append, List, [], ◌∷◌, ◌++◌, none, some, ◌≡◌,
  ◌≤◌, ◌+◌, refl, ap, arith, Option-cases, Bool-cases, inl, inr,
}
use zone_lint.Common.Dict.{Dict, member, find, items, push, items-push}
use zone_lint.Dns.{Rr, Slot, Msg, Package}
use zone_lint.Dns.Records.{as_ns, norm_name, ns_names_onto, ns_names, rr_by_name_onto, rr_by_name}
use zone_lint.Checks.Delegation.{ns_records, slots, extract_ns_from_response}

slots-length : (rrs : List Rr) → length (slots rrs) ≡ length rrs
slots-length [] = refl
slots-length (rr ∷ rrs) = ap suc (slots-length rrs)

ns_names_onto-short :
    (records : List Slot) (out : List Bytes)
    → length (ns_names_onto records out) ≤ length records + length out
unfolding ns_names_onto
ns_names_onto-short [] out = omega arith
ns_names_onto-short (rr ∷ rest) out = elim (Option-cases (as_ns rr)) [
  | inl e ↦ rw e (omega (arith, ns_names_onto-short rest out))
  | inr (host, e) ↦ elim (Bool-cases (member (norm_name host) out)) [
    | inl old ↦ rw (e, old) (omega (arith, ns_names_onto-short rest out))
    | inr new ↦
        rw (e, new)
          (omega (
            arith,
            ns_names_onto-short rest (out ++ norm_name host ∷ []),
            length-append out (norm_name host ∷ []),
          ))
  ]
]

rr_by_name_onto-short :
    (pkg : Package) (k : Bytes) (records : List Slot) (m : Dict (List Rr))
    → length (items k (rr_by_name_onto pkg records m)) ≤ length (items k m) + length records
unfolding rr_by_name_onto
rr_by_name_onto-short pkg k [] m = omega arith
rr_by_name_onto-short pkg k (none ∷ rest) m = omega (arith, rr_by_name_onto-short pkg k rest m)
rr_by_name_onto-short pkg k (some rr ∷ rest) m =
    let name = norm_name (pkg.fqdn rr.header.name) in
    let next = rr_by_name_onto-short pkg k rest (push name rr m) in
    elim (Bool-cases (eqb name k)) [
      | inl e ↦
          let here : items k (push name rr m) ≡ items name m ++ rr ∷ [] =
            ground (arith, items-push name k rr m) in
          let same : items name m ≡ items k m = ap (λ j. items j m) ((eqb_iff name k).0 e) in
          omega
            (arith, next, ap length here, ap length same, length-append (items name m) (rr ∷ []))
      | inr e ↦
          let here : items k (push name rr m) ≡ items k m =
            ground (arith, items-push name k rr m) in
          omega (arith, next, ap length here)
    ]

-- The view of a response names at most as many servers as the response has records.
pub extract_ns_from_response-short :
    (pkg : Package) (resp : Msg) (zone : Bytes)
    → length (extract_ns_from_response pkg resp zone).ns ≤ length resp.answer + length resp.ns
unfolding extract_ns_from_response ns_names ns_records rr_by_name items find
extract_ns_from_response-short pkg resp zone =
    let fqdn = pkg.fqdn (to_lower zone) in
    let answer = items fqdn (rr_by_name pkg resp.answer) in
    let authority = items fqdn (rr_by_name pkg resp.ns) in
    omega (
      arith,
      ns_names_onto-short (slots (answer ++ authority)) [],
      slots-length (answer ++ authority),
      length-append answer authority,
      rr_by_name_onto-short pkg fqdn resp.answer [],
      rr_by_name_onto-short pkg fqdn resp.ns [],
    )
