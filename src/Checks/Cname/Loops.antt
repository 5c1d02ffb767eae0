-- ===== src/Checks/Cname/Loops.antt =====
-- Every finding of the CNAME check is justified by the graph.
pub mod Roots
use zone_lint.Common.{
  ℕ, zero, suc, ◌≤◌, ◌<◌, Bytes, length, last?, List, [], ◌∷◌, ◌++◌, map, when, Bool, true, false,
  not, Option, none, some, Option-cases, Bool-cases, ◌≡◌, ◌≢◌, inl, inr, refl, sym, ◌∙◌, arith, ltb,
  All, All-append, ◌==◌, if◌then◌else◌,
}
use zone_lint.Common.Dict.{Dict, find, member}
use zone_lint.Findings.{Finding}
use zone_lint.Checks.Cname.{
  Graph, walk, check_chain, check_starts, check, dangling_part, long_finding, dangling_finding,
  loop_finding, loop_roots,
}
use zone_lint.Checks.Cname.Walk.{Walked, walk-Walked}
use Roots.{IsCycle, AllCycles, loop_roots-AllCycles}

-- What a finding of the check stands for.
pub data Justified (zone : Bytes) (g : Graph) (bound : ℕ) (resolves : Bytes → Bool) (f : Finding)
    : Type 0 where
  long :
      (start : Bytes) (chain : List Bytes)
      → Walked g start chain
      → bound < length chain
      → f ≡ long_finding zone bound start chain
      → Justified zone g bound resolves f
  dangling :
      (start target : Bytes) (chain : List Bytes)
      → Walked g start chain
      → last? chain ≡ some target
      → resolves target ≡ false
      → f ≡ dangling_finding zone target
      → Justified zone g bound resolves f
  loop :
      (root path : Bytes)
      → IsCycle g root
      → f ≡ loop_finding zone (root, path)
      → Justified zone g bound resolves f

module _ (zone : Bytes) (g : Graph) (bound : ℕ) (resolves : Bytes → Bool) where
  abbrev Js : List Finding → Type 0
  Js = All (Justified zone g bound resolves)

  check_chain-Justified :
      (start : Bytes) (chain : List Bytes)
      → Walked g start chain
      → Js (check_chain zone bound resolves start chain)
  unfolding check_chain dangling_part
  check_chain-Justified start chain p = All-append _ _ _ first second
    where
      first : Js (when (ltb bound (length chain)) (long_finding zone bound start chain))
      first = elim (Bool-cases (ltb bound (length chain))) [
        | inl e ↦ rw e (long start chain p (ground arith) refl, tt)
        | inr e ↦ rw e tt
      ]

      second : Js (dangling_part zone resolves (last? chain))
      second = elim (Option-cases (last? chain)) [
        | inl e ↦ rw e tt
        | inr (t, e) ↦ rw e (elim (Bool-cases (resolves t)) [
          | inl known ↦ rw known tt
          | inr lost ↦ rw lost (dangling start t chain p e lost refl, tt)
        ])
      ]

  check_starts-Justified :
      (starts : List (Bytes × Bytes)) (seen : List Bytes)
      → Js (check_starts zone g bound resolves starts seen)
  unfolding check_starts
  check_starts-Justified [] seen = tt
  check_starts-Justified ((start, t) ∷ rest) seen = elim (Bool-cases (member start seen)) [
    | inl old ↦ rw (old, check_starts) (check_starts-Justified rest seen)
    | inr new ↦
        rw (new, check_starts)
          (All-append _ _ _ (check_chain-Justified start (walk start g) (walk-Walked g start).1)
            (check_starts-Justified rest (seen ++ walk start g)))
  ]

  loops-Justified : (roots : Dict Bytes) → AllCycles g roots → Js (map (loop_finding zone) roots)
  loops-Justified [] h = tt
  loops-Justified ((root, path) ∷ rest) h = (loop root path h.0 refl, loops-Justified rest h.1)

-- Every finding of the CNAME check is justified: a long chain has more names than the bound (8
-- where it is given as 0), a dangling target is the last name of a chain that is not empty and
-- does not resolve, and the root of a loop lies on a cycle of the graph. Both chains follow CNAME
-- records from a start until no name is left, a name comes again, or 101 names are reached.
pub check-Justified :
    (zone : Bytes) (g : Graph) (max_chain : ℕ) (resolves : Bytes → Bool)
    → All
        (Justified zone g (if max_chain == 0 then 8 else max_chain) resolves)
        (check zone g max_chain resolves)
unfolding check
check-Justified zone g max_chain resolves =
    let bound : ℕ = if max_chain == 0 then 8 else max_chain in
    All-append _ _ _ (check_starts-Justified zone g bound resolves g [])
      (loops-Justified zone g bound resolves (loop_roots g) (loop_roots-AllCycles g))
