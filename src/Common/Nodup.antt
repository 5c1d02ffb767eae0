-- ===== src/Common/Nodup.antt =====
-- Lists of texts without repetitions: two that have the same members are arrangements of each
-- other.
use mathlib.Core.Path.{◌≡◌, refl, sym}
use mathlib.Core.Bool.{true, false}
use mathlib.Core.List.{List, [], ◌∷◌, Perm}
use mathlib.Core.List.Perm
use mathlib.Core.Logic.{inl, inr}
use native.Mathlib.Omega.{arith}
use zone_lint.Common.Tests.{if◌then◌else◌, Bool-cases}
use zone_lint.Common.Text.{Bytes, eqb, eqb_iff, eqb_refl}
use zone_lint.Common.Dict.{member, IsNodup}

-- The list without the first occurrence of a text.
unfoldable pub remove : Bytes → List Bytes → List Bytes
remove k [] = []
remove k (x ∷ xs) = let rest = remove k xs in if eqb x k then xs else x ∷ rest

remove-Perm : (k : Bytes) (xs : List Bytes) → member k xs ≡ true → Perm (k ∷ remove k xs) xs
unfolding remove member
remove-Perm k [] h = absurd (cc)
remove-Perm k (x ∷ xs) h = elim (Bool-cases (eqb x k)) [
  | inl e ↦ rw (e, remove) (Perm.cons' (sym ((eqb_iff x k).0 e)) Perm.rfl)
  | inr e ↦
      rw (e, remove)
        (Perm.trans (Perm.swap x k (remove k xs)) (Perm.cons x (remove-Perm k xs (ground (arith)))))
]

remove-member :
    (k j : Bytes) (xs : List Bytes) → eqb k j ≡ false → member j (remove k xs) ≡ member j xs
unfolding remove member
remove-member k j [] h = refl
remove-member k j (x ∷ xs) h =
    ground (arith, eqb_iff x k, eqb_iff x j, eqb_iff k j, remove-member k j xs h)

remove-absent : (k : Bytes) (xs : List Bytes) → IsNodup xs → member k (remove k xs) ≡ false
unfolding remove member
remove-absent k [] d = refl
remove-absent k (x ∷ xs) d = ground (arith, eqb_iff x k, remove-absent k xs d.1)

remove-IsNodup : (k : Bytes) (xs : List Bytes) → IsNodup xs → IsNodup (remove k xs)
unfolding remove
remove-IsNodup k [] d = tt
remove-IsNodup k (x ∷ xs) d = elim (Bool-cases (eqb x k)) [
  | inl e ↦ rw (e, remove) (d.1)
  | inr e ↦
      rw (e, remove)
        (
          ground (arith, remove-member k x xs, eqb_iff k x, eqb_iff x k, d.0),
          remove-IsNodup k xs d.1,
        )
]

pub IsNodup-Perm :
    (xs ys : List Bytes)
    → IsNodup xs
    → IsNodup ys
    → ((k : Bytes) → member k xs ≡ member k ys)
    → Perm xs ys
unfolding member
IsNodup-Perm [] [] d e h = Perm.rfl
IsNodup-Perm [] (y ∷ ys) d e h = absurd (ground (arith, h y, eqb_refl y))
IsNodup-Perm (x ∷ xs) ys d e h =
    let here : member x ys ≡ true = ground (arith, h x, eqb_refl x) in
    let same : (k : Bytes) → member k xs ≡ member k (remove x ys) =
      λ k. ground (arith, h k, d.0, eqb_iff x k, remove-member x k ys, remove-absent x ys e) in
    Perm.trans (Perm.cons x (IsNodup-Perm xs (remove x ys) d.1 (remove-IsNodup x ys e) same))
      (remove-Perm x ys here)
