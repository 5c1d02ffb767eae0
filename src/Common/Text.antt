-- ===== src/Common/Text.antt =====
-- Texts as lists of code points, which are their bytes where the text is ASCII. Domain names
-- are ASCII: they come in presentation form, which escapes every other byte.
use Prim.Native.Nat.{ℕ, zero, suc, ◌+◌, ◌-◌, ◌/◌, ◌%◌}
use Prim.Native.Char.{code}
use Prim.Native.String.{String}
use mathlib.Core.Path.{◌≡◌, refl}
use mathlib.Core.Logic.{◌↔◌}
use mathlib.Core.Bool.{Bool, true, false, ◌&&◌, ◌||◌}
use mathlib.Core.List.{List, [], ◌∷◌, ◌++◌, map}
use native.Mathlib.Omega.{arith}
use zone_lint.Common.Tests.{ltb, leb, ◌==◌, if◌then◌else◌}
use zone_lint.Common.Lists.{length, drop}

abbrev pub Bytes : Type 0
Bytes = List ℕ

-- A literal of the source. Shut outside tests, so that long texts stay names.
unfoldable pub text : String → Bytes
text String.[] = []
text (String.◌∷◌ c s) = code c ∷ text s

-- Go's `==` on strings.
unfoldable pub eqb : Bytes → Bytes → Bool
eqb [] [] = true
eqb [] (_ ∷ _) = false
eqb (_ ∷ _) [] = false
eqb (x ∷ xs) (y ∷ ys) = x == y && eqb xs ys

pub eqb_iff : (a b : Bytes) → (eqb a b ≡ true) ↔ (a ≡ b)
unfolding eqb
eqb_iff [] [] = ground arith
eqb_iff [] (_ ∷ _) = ground arith
eqb_iff (_ ∷ _) [] = ground arith
eqb_iff (x ∷ xs) (y ∷ ys) = ground (arith, eqb_iff xs ys)

pub eqb_refl : (a : Bytes) → eqb a a ≡ true
eqb_refl a = (eqb_iff a a).1 refl

-- strings.ToLower on ASCII.
unfoldable pub lower_byte : ℕ → ℕ
lower_byte c = if leb b'A' c && leb c b'Z' then c + 32 else c

unfoldable pub to_lower : Bytes → Bytes
unfolding lower_byte
to_lower = map lower_byte

-- strings.HasPrefix, strings.HasSuffix, strings.Contains.
unfoldable pub has_prefix : Bytes → Bytes → Bool
has_prefix s [] = true
has_prefix [] (_ ∷ _) = false
has_prefix (x ∷ s) (y ∷ p) = x == y && has_prefix s p

unfoldable pub has_suffix : Bytes → Bytes → Bool
unfolding eqb
has_suffix s suffix =
    leb (length suffix) (length s) && eqb (drop (length s - length suffix) s) suffix

unfoldable pub contains_text : Bytes → Bytes → Bool
unfolding has_prefix
contains_text [] p = has_prefix [] p
contains_text (x ∷ s) p = has_prefix (x ∷ s) p || contains_text s p

-- strings.Split by one separator byte: always at least one part.
abbrev add_first : ℕ → List Bytes → List Bytes
add_first c [] = (c ∷ []) ∷ []
add_first c (p ∷ ps) = (c ∷ p) ∷ ps

unfoldable pub split : ℕ → Bytes → List Bytes
split sep [] = [] ∷ []
split sep (c ∷ s) = let rest = split sep s in if c == sep then [] ∷ rest else add_first c rest

-- strings.Join
unfoldable pub join : Bytes → List Bytes → Bytes
join sep [] = []
join sep (p ∷ []) = p
join sep (p ∷ q ∷ ps) = p ++ (sep ++ join sep (q ∷ ps))

-- strings.TrimSpace on ASCII.
abbrev is_space : ℕ → Bool
is_space c = c == 32 || leb 9 c && leb c 13

unfoldable pub trim_left : Bytes → Bytes
trim_left [] = []
trim_left (c ∷ s) = let rest = trim_left s in if is_space c then rest else c ∷ s

-- Drops a trailing run of blanks: a blank stays only before something that stays.
abbrev keep : ℕ → Bytes → Bytes
keep c [] = if is_space c then [] else c ∷ []
keep c (d ∷ s) = c ∷ d ∷ s

unfoldable pub trim_right : Bytes → Bytes
trim_right [] = []
trim_right (c ∷ s) = keep c (trim_right s)

unfoldable pub trim_space : Bytes → Bytes
unfolding trim_left trim_right
trim_space s = trim_right (trim_left s)

-- strconv.Itoa and the verb %d, on a number that is not negative. The fuel is the number
-- itself and one more: every round divides it by ten.
unfoldable pub digits_onto : ℕ → ℕ → Bytes → Bytes
digits_onto zero n out = out
digits_onto (suc fuel) n out =
    let out' = (b'0' + n % 10) ∷ out in
    let rest = digits_onto fuel (n / 10) out' in if ltb n 10 then out' else rest

unfoldable pub itoa : ℕ → Bytes
unfolding digits_onto
itoa n = digits_onto (suc n) n []
