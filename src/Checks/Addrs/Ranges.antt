-- ===== src/Checks/Addrs/Ranges.antt =====
-- By which ranges `classifyV4` sorts the IPv4 addresses.
use zone_lint.Common.{Bytes, Option, ℕ, ◌≤◌, text, [], ◌∷◌, none, some, ◌≡◌, ◌↔◌, ◌⊎◌, arith}
use zone_lint.Checks.Addrs.{classify_v4}

-- The two documentation ranges of the program.
abbrev pub IsDocumentation : ℕ → ℕ → ℕ → Type 0
IsDocumentation a b c = ((a ≡ 198) × ((b ≡ 51) × (c ≡ 100))) ⊎ ((a ≡ 203) × ((b ≡ 0) × (c ≡ 113)))

-- The category of an address; none for a public one.
abbrev pub category_v4 : ℕ → ℕ → ℕ → ℕ → Option Bytes
category_v4 a b c d = elim (classify_v4 (a ∷ b ∷ c ∷ d ∷ [])) [
  | none ↦ none
  | some r ↦ some r.category
]

-- classifyV4 sorts the IPv4 addresses by these ranges: 127/8 is loopback; 10/8, 172.16/12 and all of
-- 192/8, not only 192.168/16, are private; 169.254/16 is link-local; 198.51.100/24 and 203.0.113/24
-- are documentation; and of the rest exactly 224.0.0.0 and up is reserved.
pub classify_v4_ranges :
    (a b c d : ℕ)
    → ((category_v4 a b c d ≡ some (text "loopback")) ↔ (a ≡ 127))
      × (((category_v4 a b c d ≡ some (text "private"))
            ↔ ((a ≡ 10) ⊎ (((a ≡ 172) × ((16 ≤ b) × (b ≤ 31))) ⊎ (a ≡ 192))))
          × (((category_v4 a b c d ≡ some (text "link-local")) ↔ ((a ≡ 169) × (b ≡ 254)))
              × (((category_v4 a b c d ≡ some (text "documentation")) ↔ IsDocumentation a b c)
                  × ((category_v4 a b c d ≡ some (text "reserved")) ↔ (224 ≤ a)))))
unfolding classify_v4 text
classify_v4_ranges a b c d =
    (ground arith, (ground arith, (ground arith, (ground arith, ground arith))))
