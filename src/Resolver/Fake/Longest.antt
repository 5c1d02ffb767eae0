-- ===== src/Resolver/Fake/Longest.antt =====
-- Which zone a name is served from.
use zone_lint.Common.{
  ℕ, suc, Bytes, length, All, true, ◌&&◌, Option, none, some, [], ◌∷◌, ◌≡◌, ◌≤◌, arith,
  if◌then◌else◌, Bool-cases, inl, inr,
}
use zone_lint.Common.Dict.{Dict}
use zone_lint.Dns.{Package}
use zone_lint.Resolver.Fake.{Zone, FakeResolver, covers, is_longer, find_from, find_zone}

-- bestLen and one more, so that no zone is 0.
abbrev pub size : Option Zone → ℕ
size none = 0
size (some z) = suc (length z.name)

-- A zone counts only where it covers the name.
abbrev pub size_for : Package → Bytes → Zone → ℕ
size_for pkg name z = if covers pkg name z then suc (length z.name) else 0

abbrev pub Covering : Package → Bytes → Option Zone → Type 0
Covering pkg name none = Unit
Covering pkg name (some z) = covers pkg name z ≡ true

-- The best zone after one round of the loop.
abbrev better : Package → Bytes → Zone → Option Zone → Option Zone
better pkg name z best = if covers pkg name z && is_longer z best then some z else best

better-Covering :
    (pkg : Package) (name : Bytes) (z : Zone) (best : Option Zone)
    → Covering pkg name best
    → Covering pkg name (better pkg name z best)
better-Covering pkg name z best h = elim (Bool-cases (covers pkg name z && is_longer z best)) [
  | inl e ↦ rw e (ground arith)
  | inr e ↦ rw e h
]

better-size :
    (pkg : Package) (name : Bytes) (z : Zone) (best : Option Zone)
    → (size best ≤ size (better pkg name z best))
      × (size_for pkg name z ≤ size (better pkg name z best))
unfolding is_longer
better-size pkg name z none = ground arith
better-size pkg name z (some best) = ground arith

find_from-Covering :
    (pkg : Package) (name : Bytes) (best : Option Zone) (zones : Dict Zone)
    → Covering pkg name best
    → Covering pkg name (find_from pkg name best zones)
unfolding find_from
find_from-Covering pkg name best [] h = h
find_from-Covering pkg name best ((_, z) ∷ zones) h =
    find_from-Covering pkg name (better pkg name z best) zones (better-Covering pkg name z best h)

find_from-size :
    (pkg : Package) (name : Bytes) (best : Option Zone) (zones : Dict Zone)
    → size best ≤ size (find_from pkg name best zones)
unfolding find_from
find_from-size pkg name best [] = omega arith
find_from-size pkg name best ((_, z) ∷ zones) =
    let (kept, _) = better-size pkg name z best in
    omega (arith, find_from-size pkg name (better pkg name z best) zones)

find_from-longest :
    (pkg : Package) (name : Bytes) (best : Option Zone) (zones : Dict Zone)
    → All (λ e. size_for pkg name e.1 ≤ size (find_from pkg name best zones)) zones
unfolding find_from
find_from-longest pkg name best [] = tt
find_from-longest pkg name best ((_, z) ∷ zones) =
    let (_, here) = better-size pkg name z best in
    (
      omega (arith, find_from-size pkg name (better pkg name z best) zones),
      find_from-longest pkg name (better pkg name z best) zones,
    )

-- The zone that findZone returns covers the name, and no zone that covers it has a longer name; it
-- returns none only where no zone covers the name.
pub find_zone-longest :
    (pkg : Package) (name : Bytes) (f : FakeResolver)
    → Covering pkg name (find_zone pkg name f)
      × All (λ e. size_for pkg name e.1 ≤ size (find_zone pkg name f)) f.zones
unfolding find_zone
find_zone-longest pkg name f =
    (find_from-Covering pkg name none f.zones tt, find_from-longest pkg name none f.zones)
