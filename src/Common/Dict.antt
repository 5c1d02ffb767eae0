-- ===== src/Common/Dict.antt =====
-- Go's maps with text keys, as association lists in insertion order, and its sets of texts.
use mathlib.Core.Path.{◌≡◌, refl}
use mathlib.Core.Bool.{Bool, true, false, ◌||◌}
use mathlib.Core.Option.{Option, none, some}
use mathlib.Core.List.{List, [], ◌∷◌, ◌++◌}
use mathlib.Core.Logic.{◌↔◌}
use native.Mathlib.Omega.{arith}
use zone_lint.Common.Tests.{if◌then◌else◌}
use zone_lint.Common.Lists.{Any}
use zone_lint.Common.Text.{Bytes, eqb, eqb_iff}

abbrev pub Dict {ℓ} : Type ℓ → Type ℓ
Dict V = List (Bytes × V)

module _ {ℓ} {V : Type ℓ} where
  unfoldable pub find : Bytes → Dict V → Option V
  find k [] = none
  find k ((j, v) ∷ m) = if eqb j k then some v else find k m

  -- m[k] = v
  unfoldable pub put : Bytes → V → Dict V → Dict V
  put k v [] = (k, v) ∷ []
  put k v ((j, w) ∷ m) = if eqb j k then (j, v) ∷ m else (j, w) ∷ put k v m

  pub find-put :
      (k j : Bytes) (v : V) (m : Dict V)
      → find j (put k v m) ≡ (if eqb k j then some v else find j m)
  unfolding find put
  find-put k j v [] = refl
  find-put k j v ((i, w) ∷ m) =
      ground (arith, eqb_iff k j, eqb_iff i k, eqb_iff i j, find-put k j v m)

module _ {ℓ} {A : Type ℓ} where
  -- m[k] of a map to slices: a missing key reads as the empty slice.
  unfoldable pub items : Bytes → Dict (List A) → List A
  unfolding find
  items k m = elim (find k m) [ none ↦ [] | some l ↦ l ]

  -- m[k] = append(m[k], x)
  unfoldable pub push : Bytes → A → Dict (List A) → Dict (List A)
  unfolding put items
  push k x m = put k (items k m ++ x ∷ []) m

  pub items-push :
      (k j : Bytes) (x : A) (m : Dict (List A))
      → items j (push k x m) ≡ (if eqb k j then items k m ++ x ∷ [] else items j m)
  unfolding items push
  items-push k j x m = ground (arith, find-put k j (items k m ++ x ∷ []) m)

-- s[k] of a map[string]bool.
unfoldable pub member : Bytes → List Bytes → Bool
member k [] = false
member k (x ∷ xs) = eqb x k || member k xs

pub member_iff : (k : Bytes) (xs : List Bytes) → (member k xs ≡ true) ↔ Any (λ x. x ≡ k) xs
unfolding member
member_iff k [] = (λ h. cc, λ h. absurd h)
member_iff k (x ∷ xs) = ground (arith, eqb_iff x k, member_iff k xs)

pub member-append :
    (k : Bytes) (xs ys : List Bytes) → member k (xs ++ ys) ≡ member k xs || member k ys
unfolding member
member-append k [] ys = refl
member-append k (x ∷ xs) ys = ground (arith, member-append k xs ys)

-- No text stands twice.
abbrev pub IsNodup : List Bytes → Type 0
IsNodup [] = Unit
IsNodup (x ∷ xs) = (member x xs ≡ false) × IsNodup xs

pub IsNodup-snoc :
    (x : Bytes) (xs : List Bytes) → member x xs ≡ false → IsNodup xs → IsNodup (xs ++ x ∷ [])
unfolding member
IsNodup-snoc x [] h d = (refl, tt)
IsNodup-snoc x (y ∷ xs) h d = (
  ground (arith, member-append y xs (x ∷ []), eqb_iff x y, eqb_iff y x),
  IsNodup-snoc x xs (ground arith) d.1,
)
