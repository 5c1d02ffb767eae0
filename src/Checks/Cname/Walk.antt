-- ===== src/Checks/Cname/Walk.antt =====
-- `walk` ends within its fuel, and the chain that it returns is a path through the graph.
use zone_lint.Common.{
  ℕ, zero, suc, ◌+◌, ◌≤◌, Bytes, length, length-append, List, [], ◌∷◌, ◌++◌, true, false, none,
  some, Option-cases, Bool-cases, ◌≡◌, ◌⊎◌, inl, inr, refl, sym, ◌∙◌, arith, ltb, ap,
}
use zone_lint.Common.Dict.{IsNodup, IsNodup-snoc, member-append, find, member}
use zone_lint.Checks.Cname.{Graph, walk_loop, or_empty, walk}

module _ (g : Graph) where
  -- From `start`, each name of the chain is the CNAME target of the one before.
  abbrev pub IsChain : Bytes → List Bytes → Type 0
  IsChain start [] = Unit
  IsChain start (t ∷ ts) = (find start g ≡ some t) × IsChain t ts

  -- The last name that a chain reaches.
  abbrev pub end : Bytes → List Bytes → Bytes
  end start [] = start
  end start (t ∷ ts) = end t ts

  pub end-snoc : (start t : Bytes) (ts : List Bytes) → end start (ts ++ t ∷ []) ≡ t
  end-snoc start t [] = refl
  end-snoc start t (u ∷ us) = end-snoc u t us

  pub IsChain-snoc :
      (start t : Bytes) (ts : List Bytes)
      → IsChain start ts
      → find (end start ts) g ≡ some t
      → IsChain start (ts ++ t ∷ [])
  IsChain-snoc start t [] h e = (e, tt)
  IsChain-snoc start t (u ∷ us) h e = (h.0, IsChain-snoc u t us h.1 e)

  -- The names from which a step of the chain is made.
  abbrev pub visited : Bytes → List Bytes → List Bytes
  visited start [] = []
  visited start (t ∷ ts) = start ∷ visited t ts

  visited-snoc :
      (start t : Bytes) (ts : List Bytes)
      → visited start (ts ++ t ∷ []) ≡ visited start ts ++ end start ts ∷ []
  visited-snoc start t [] = refl
  visited-snoc start t (u ∷ us) = ap (◌∷◌ start) (visited-snoc u t us)

  -- What holds of a chain that walk returns.
  pub record Walked (start : Bytes) (chain : List Bytes) : Type 0 where
    pub path : IsChain start chain
    pub bounded : length chain ≤ 101
    pub distinct : IsNodup (visited start chain)
    pub ends :
        (find (end start chain) g ≡ none)
        ⊎ ((member (end start chain) (visited start chain) ≡ true) ⊎ (length chain ≡ 101))

  -- What holds at the head of the loop.
  record Inv (start cur : Bytes) (seen chain : List Bytes) : Type 0 where
    path : IsChain start chain
    here : end start chain ≡ cur
    room : length chain ≤ 100
    distinct : IsNodup (visited start chain)
    keys : (s : Bytes) → member s seen ≡ member s (visited start chain)

  module _ (start cur target : Bytes) (seen chain : List Bytes) (inv : Inv start cur seen chain)
      (next : find cur g ≡ some target) (fresh : member cur seen ≡ false) where
    path_snoc : IsChain start (chain ++ target ∷ [])
    path_snoc = IsChain-snoc start target chain inv.path (rw inv.here next)

    distinct_snoc : IsNodup (visited start (chain ++ target ∷ []))
    distinct_snoc =
        rw (visited-snoc start target chain, inv.here)
          (IsNodup-snoc cur (visited start chain) (sym (inv.keys cur) ∙ fresh) inv.distinct)

    Inv-snoc :
        ltb 100 (length (chain ++ target ∷ [])) ≡ false
        → Inv start target (cur ∷ seen) (chain ++ target ∷ [])
    unfolding member
    Inv-snoc room = record {
      path = path_snoc;
      here = end-snoc start target chain;
      room = ground arith;
      distinct = distinct_snoc;
      keys = λ s.
          rw (visited-snoc start target chain, inv.here)
            (ground (arith, inv.keys s, member-append s (visited start chain) (cur ∷ [])));
    }

    Walked-full :
        ltb 100 (length (chain ++ target ∷ [])) ≡ true → Walked start (chain ++ target ∷ [])
    Walked-full full = record {
      path = path_snoc;
      bounded = omega (arith, length-append chain (target ∷ []), inv.room);
      distinct = distinct_snoc;
      ends = inr (inr (ground (arith, inv.room, length-append chain (target ∷ []))));
    }

  walk_loop-Walked :
      (fuel : ℕ) (start cur : Bytes) (seen chain : List Bytes)
      → Inv start cur seen chain
      → length chain + fuel ≡ 102
      → (out : List Bytes) × (walk_loop fuel g cur seen chain ≡ some out) × Walked start out
  unfolding walk_loop
  walk_loop-Walked zero start cur seen chain inv f = absurd (omega (arith, inv.room))
  walk_loop-Walked (suc fuel) start cur seen chain inv f = elim (Bool-cases (member cur seen)) [
    | inl repeat ↦ (
      chain,
      rw (repeat, walk_loop),
      record {
        path = inv.path;
        bounded = omega (arith, inv.room);
        distinct = inv.distinct;
        ends = inr (inl (rw inv.here (sym (inv.keys cur) ∙ repeat)));
      },
    )
    | inr fresh ↦ elim (Option-cases (find cur g)) [
      | inl last ↦ (
        chain,
        rw (fresh, last, walk_loop),
        record {
          path = inv.path;
          bounded = omega (arith, inv.room);
          distinct = inv.distinct;
          ends = inl (rw inv.here last);
        },
      )
      | inr (target, next) ↦ elim (Bool-cases (ltb 100 (length (chain ++ target ∷ [])))) [
        | inl full ↦ (
          chain ++ target ∷ [],
          rw (fresh, next, full, walk_loop),
          Walked-full start cur target seen chain inv next fresh full,
        )
        | inr room ↦
            rw (fresh, next, room, walk_loop)
              (walk_loop-Walked fuel start target (cur ∷ seen) (chain ++ target ∷ [])
                (Inv-snoc start cur target seen chain inv next fresh room)
                (omega (arith, length-append chain (target ∷ []))))
      ]
    ]
  ]

  -- walk ends on every graph, within the fuel of the model: its chain follows the CNAME records
  -- from the start, has at most 101 names, makes no two steps from one name, and stops at a name
  -- with no CNAME record, at a name from which it has stepped before (a loop), or at 101 names.
  pub walk-Walked :
      (start : Bytes)
      → (walk_loop 102 g start [] [] ≡ some (walk start g)) × Walked start (walk start g)
  unfolding walk or_empty
  walk-Walked start =
      let begin : Inv start start [] [] = record {
        path = tt;
        here = refl;
        room = omega arith;
        distinct = tt;
        keys = λ s. refl;
      } in
      let (out, result, walked) = walk_loop-Walked 102 start start [] [] begin refl in
      (rw (result, or_empty), rw (result, or_empty) walked)
