-- ===== src/Checks/Cname/Loops/Roots.antt =====
-- Every root that `loopRoots` finds lies on a cycle of the graph.
use zone_lint.Common.{
  ℕ, zero, suc, Bytes, eqb, eqb_iff, length, List, [], ◌∷◌, ◌++◌, true, Option, none, some,
  Option-cases, Bool-cases, ◌≡◌, ◌≢◌, inl, inr, refl, sym, subst, ◌∙◌, arith, ltb, All,
}
use zone_lint.Common.Dict.{Dict, find, put, member}
use zone_lint.Checks.Cname.{Graph, root_loop, record_root, roots_onto, loop_roots}
use zone_lint.Checks.Cname.Walk.{IsChain, end}

-- Following CNAME records from the name leads back to it, in one step or more.
abbrev pub IsCycle : Graph → Bytes → Type 0
IsCycle g root = (p : List Bytes) × (IsChain g root p) × (end g root p ≡ root) × (p ≢ [])

-- The names of `path`, as the loop collects them, with `cur` next.
abbrev Links : Graph → List Bytes → Bytes → Type 0
Links g [] cur = Unit
Links g (x ∷ []) cur = find x g ≡ some cur
Links g (x ∷ y ∷ ys) cur = (find x g ≡ some y) × Links g (y ∷ ys) cur

Links-snoc :
    (g : Graph) (path : List Bytes) (cur next : Bytes)
    → Links g path cur
    → find cur g ≡ some next
    → Links g (path ++ cur ∷ []) next
Links-snoc g [] cur next h e = e
Links-snoc g (x ∷ []) cur next h e = (h, e)
Links-snoc g (x ∷ y ∷ ys) cur next h e = (h.0, Links-snoc g (y ∷ ys) cur next h.1 e)

-- From a name of the path the chain goes on to `cur`.
Links-IsChain :
    (g : Graph) (x : Bytes) (rest : List Bytes) (cur : Bytes)
    → Links g (x ∷ rest) cur
    → IsChain g x (rest ++ cur ∷ []) × (end g x (rest ++ cur ∷ []) ≡ cur)
Links-IsChain g x [] cur h = ((h, tt), refl)
Links-IsChain g x (y ∷ ys) cur h = let (p, e) = Links-IsChain g y ys cur h.1 in ((h.0, p), e)

snoc-ne-nil : (rest : List Bytes) (x : Bytes) → rest ++ x ∷ [] ≢ []
snoc-ne-nil [] x h = cc
snoc-ne-nil (y ∷ ys) x h = cc

head-IsCycle :
    (g : Graph) (x : Bytes) (rest : List Bytes) (cur : Bytes)
    → x ≡ cur
    → Links g (x ∷ rest) cur
    → IsCycle g cur
head-IsCycle g x rest cur e h =
    let (p, q) = Links-IsChain g x rest cur h in
    subst (IsCycle g) e (rest ++ cur ∷ [], p, q ∙ sym e, snoc-ne-nil rest cur)

Links-IsCycle :
    (g : Graph) (path : List Bytes) (cur : Bytes)
    → Links g path cur
    → member cur path ≡ true
    → IsCycle g cur
unfolding member
Links-IsCycle g [] cur h m = absurd (cc)
Links-IsCycle g (x ∷ []) cur h m = head-IsCycle g x [] cur (ground (arith, eqb_iff x cur)) h
Links-IsCycle g (x ∷ y ∷ ys) cur h m = elim (Bool-cases (eqb x cur)) [
  | inl same ↦ head-IsCycle g x (y ∷ ys) cur ((eqb_iff x cur).0 same) h
  | inr other ↦ Links-IsCycle g (y ∷ ys) cur h.1 (ground arith)
]

root_loop-IsCycle :
    (fuel : ℕ) (g : Graph) (cur : Bytes) (path : List Bytes) (root shown : Bytes)
    → Links g path cur
    → root_loop fuel g cur path ≡ some (some (root, shown))
    → IsCycle g root
unfolding root_loop
root_loop-IsCycle zero g cur path root shown h e = absurd (cc)
root_loop-IsCycle (suc fuel) g cur path root shown h e = elim (Bool-cases (member cur path)) [
  | inl repeat ↦ subst (IsCycle g) (ground arith) (Links-IsCycle g path cur h repeat)
  | inr fresh ↦ elim (Option-cases (find cur g)) [
    | inl last ↦ absurd (ground arith)
    | inr (next, link) ↦ elim (Bool-cases (ltb 100 (length (path ++ cur ∷ [])))) [
      | inl full ↦ absurd (ground arith)
      | inr room ↦
          root_loop-IsCycle fuel g next (path ++ cur ∷ []) root shown
            (Links-snoc g path cur next h link) (ground arith)
    ]
  ]
]

-- Every entry of a map of roots lies on a cycle.
abbrev pub AllCycles : Graph → Dict Bytes → Type 0
AllCycles g = All (λ e. IsCycle g e.0)

put-AllCycles :
    (g : Graph) (root shown : Bytes) (out : Dict Bytes)
    → IsCycle g root
    → AllCycles g out
    → AllCycles g (put root shown out)
unfolding put
put-AllCycles g root shown [] c h = (c, tt)
put-AllCycles g root shown ((k, v) ∷ out) c h = elim (Bool-cases (eqb k root)) [
  | inl e ↦ rw (e, put) h
  | inr e ↦ rw (e, put) (h.0, put-AllCycles g root shown out c h.1)
]

record_root-AllCycles :
    (g : Graph) (start : Bytes) (o : Option (Option (Bytes × Bytes))) (out : Dict Bytes)
    → root_loop 102 g start [] ≡ o
    → AllCycles g out
    → AllCycles g (record_root o out)
record_root-AllCycles g start none out e h = h
record_root-AllCycles g start (some none) out e h = h
record_root-AllCycles g start (some (some (root, shown))) out e h =
    put-AllCycles g root shown out (root_loop-IsCycle 102 g start [] root shown tt e) h

roots_onto-AllCycles :
    (g : Graph) (starts : List (Bytes × Bytes)) (out : Dict Bytes)
    → AllCycles g out
    → AllCycles g (roots_onto g starts out)
unfolding roots_onto
roots_onto-AllCycles g [] out h = h
roots_onto-AllCycles g ((start, t) ∷ rest) out h =
    roots_onto-AllCycles g rest (record_root (root_loop 102 g start []) out)
      (record_root-AllCycles g start (root_loop 102 g start []) out refl h)

pub loop_roots-AllCycles : (g : Graph) → AllCycles g (loop_roots g)
unfolding loop_roots
loop_roots-AllCycles g = roots_onto-AllCycles g g [] tt
