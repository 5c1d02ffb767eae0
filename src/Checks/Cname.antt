-- ===== src/Checks/Cname.antt =====
-- internal/cname/cname.go: the graph of CNAME records, chains through it, loops and dangling
-- targets. A map is the list of its entries, and the iterations over it go through that list;
-- the theorems hold of every list, and so of every order that a run may have.
pub mod Walk
pub mod Loops
use zone_lint.Common.{
  ℕ, zero, suc, Bytes, text, itoa, join, to_lower, length, last?, List, [], ◌∷◌, ◌++◌, map, when,
  Bool, true, false, not, Option, none, some, ◌==◌, ltb, if◌then◌else◌,
}
use zone_lint.Common.Dict.{Dict, find, put, member}
use zone_lint.Dns.{cname, Slot, Package}
use zone_lint.Findings.{Finding, new, with_zone}
use zone_lint.Findings.Catalog.{cname_chain_long, cname_dangling, cname_loop}

abbrev pub Graph : Type 0
Graph = Dict Bytes

-- dnsutilFqdnLower
unfoldable pub fqdn_lower : Package → Bytes → Bytes
fqdn_lower pkg n = to_lower (pkg.fqdn n)

-- Build
unfoldable pub build_onto : Package → List Slot → Graph → Graph
unfolding fqdn_lower
build_onto pkg [] g = g
build_onto pkg (none ∷ rest) g = build_onto pkg rest g
build_onto pkg (some rr ∷ rest) g = build_onto pkg rest (elim rr.body [
  | cname target ↦ put (fqdn_lower pkg rr.header.name) (fqdn_lower pkg target) g
  | _ ↦ g
])

unfoldable pub build : Package → List Slot → Graph
unfolding build_onto
build pkg records = build_onto pkg records []

-- The loop of walk; `none` means that the fuel ran out. The source stops a chain of 101 names.
unfoldable pub walk_loop : ℕ → Graph → Bytes → List Bytes → List Bytes → Option (List Bytes)
walk_loop zero g cur seen chain = none
walk_loop (suc fuel) g cur seen chain = elim (member cur seen) [
  | true ↦ some chain
  | false ↦ elim (find cur g) [
    | none ↦ some chain
    | some target ↦ elim (ltb 100 (length (chain ++ target ∷ []))) [
      | true ↦ some (chain ++ target ∷ [])
      | false ↦ walk_loop fuel g target (cur ∷ seen) (chain ++ target ∷ [])
    ]
  ]
]

unfoldable pub or_empty : Option (List Bytes) → List Bytes
or_empty none = []
or_empty (some chain) = chain

-- walk. The parameter inPath of the source is not read.
unfoldable pub walk : Bytes → Graph → List Bytes
unfolding walk_loop or_empty
walk start g = or_empty (walk_loop 102 g start [] [])

-- The loop of loopRoots from one start: the root and the path of the loop, if it meets one. The
-- keys of `seen` are the names in `path`.
unfoldable pub root_loop : ℕ → Graph → Bytes → List Bytes → Option (Option (Bytes × Bytes))
root_loop zero g cur path = none
root_loop (suc fuel) g cur path = elim (member cur path) [
  | true ↦ some (some (cur, join (text " -> ") (path ++ cur ∷ [])))
  | false ↦ elim (find cur g) [
    | none ↦ some none
    | some next ↦ elim (ltb 100 (length (path ++ cur ∷ []))) [
      | true ↦ some none
      | false ↦ root_loop fuel g next (path ++ cur ∷ [])
    ]
  ]
]

-- One round of the outer loop, on what the inner loop has found.
abbrev pub record_root : Option (Option (Bytes × Bytes)) → Dict Bytes → Dict Bytes
record_root (some (some (root, path))) out = put root path out
record_root _ out = out

unfoldable pub roots_onto : Graph → List (Bytes × Bytes) → Dict Bytes → Dict Bytes
unfolding root_loop
roots_onto g [] out = out
roots_onto g ((start, _) ∷ rest) out =
    roots_onto g rest (record_root (root_loop 102 g start []) out)

-- loopRoots
unfoldable pub loop_roots : Graph → Dict Bytes
unfolding roots_onto
loop_roots g = roots_onto g g []

-- The findings of Check: a long chain, a dangling end, a loop.
unfoldable pub long_finding : Bytes → ℕ → Bytes → List Bytes → Finding
long_finding zone max_chain start chain =
    with_zone
      (new cname_chain_long start
        (text "The CNAME chain from "
          ++ (start ++ (text " exceeds " ++ (itoa max_chain ++ text " hops."))))
        ((text "chain: " ++ join (text " -> ") chain) ∷ []))
      zone

unfoldable pub dangling_finding : Bytes → Bytes → Finding
dangling_finding zone target =
    with_zone
      (new cname_dangling target
        (text
          "The final CNAME target does not resolve to any record; the chain is dangling (potential takeover surface).")
        ((text "target " ++ (target ++ text " does not resolve")) ∷ []))
      zone

unfoldable pub loop_finding : Bytes → Bytes × Bytes → Finding
loop_finding zone (root, path) =
    with_zone
      (new cname_loop root (text "A CNAME loop was detected starting at " ++ (root ++ text "."))
        ((text "loop: " ++ path) ∷ []))
      zone

-- The body of the first loop of Check, behind the test of `visited`.
unfoldable pub dangling_part : Bytes → (Bytes → Bool) → Option Bytes → List Finding
dangling_part zone resolves none = []
dangling_part zone resolves (some target) =
    when (not (resolves target)) (dangling_finding zone target)

unfoldable pub check_chain : Bytes → ℕ → (Bytes → Bool) → Bytes → List Bytes → List Finding
check_chain zone max_chain resolves start chain =
    when (ltb max_chain (length chain)) (long_finding zone max_chain start chain)
    ++ dangling_part zone resolves (last? chain)

-- The first loop of Check over the starts, with the names in `visited`.
unfoldable pub check_starts :
    Bytes → Graph → ℕ → (Bytes → Bool) → List (Bytes × Bytes) → List Bytes → List Finding
check_starts zone g max_chain resolves [] visited = []
check_starts zone g max_chain resolves ((start, _) ∷ rest) visited =
    let chain = walk start g in
    let later = check_starts zone g max_chain resolves rest (visited ++ chain) in
    let skipped = check_starts zone g max_chain resolves rest visited in
    if member start visited
    then skipped
    else check_chain zone max_chain resolves start chain ++ later

-- Check
unfoldable pub check : Bytes → Graph → ℕ → (Bytes → Bool) → List Finding
check zone g max_chain resolves =
    let bound : ℕ = if max_chain == 0 then 8 else max_chain in
    check_starts zone g bound resolves g [] ++ map (loop_finding zone) (loop_roots g)
