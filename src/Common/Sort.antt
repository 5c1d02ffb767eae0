-- ===== src/Common/Sort.antt =====
-- Sorting by a three-way comparison. A stable sort by a total preorder has one result, so
-- insertion stands for the library's algorithm (slices.SortStableFunc, sort.Strings).
use Prim.Native.Nat.{Ordering}
use mathlib.Core.Path.{◌≡◌, refl, ap, ap₂, ◌∙◌}
use mathlib.Core.Bool.{true, false}
use mathlib.Core.List.{
  List, [], ◌∷◌, map, Mem, Perm, Pairwise, Pairwise-singleton, forall_mem-cons, mem-cons_self,
}
use mathlib.Core.List.Pairwise
use mathlib.Core.List.Perm
use mathlib.Core.Logic.{inl, inr}
use native.Mathlib.Omega.{arith}
use zone_lint.Common.Tests.{if◌then◌else◌, Bool-cases}
use zone_lint.Common.Lists.{All}
use zone_lint.Common.Order.{IsOrder, is_le}

module _ {ℓ} {A : Type ℓ} (c : A → A → Ordering) where
  unfoldable pub insert_by : A → List A → List A
  insert_by x [] = x ∷ []
  insert_by x (y ∷ ys) = if is_le (c x y) then x ∷ y ∷ ys else y ∷ insert_by x ys

  unfoldable pub sort_by : List A → List A
  unfolding insert_by
  sort_by [] = []
  sort_by (x ∷ xs) = insert_by x (sort_by xs)

  -- x comes no later than y.
  abbrev pub Precedes : A → A → Type 0
  Precedes x y = is_le (c x y) ≡ true

  abbrev pub IsSorted : List A → Type ℓ
  IsSorted = Pairwise Precedes

  pub insert_by-perm : (x : A) (l : List A) → Perm (insert_by x l) (x ∷ l)
  unfolding insert_by
  insert_by-perm x [] = Perm.rfl
  insert_by-perm x (y ∷ ys) = elim (Bool-cases (is_le (c x y))) [
    | inl h ↦ rw h Perm.rfl
    | inr h ↦ rw h (Perm.trans (Perm.cons y (insert_by-perm x ys)) (Perm.swap x y ys))
  ]

  pub sort_by-perm : (l : List A) → Perm (sort_by l) l
  unfolding sort_by
  sort_by-perm [] = Perm.rfl
  sort_by-perm (x ∷ xs) = Perm.trans (insert_by-perm x (sort_by xs)) (Perm.cons x (sort_by-perm xs))

  -- What every element has, every element of the sorted list has.
  module _ {κ} (P : A → Type κ) where
    All-insert_by : (x : A) (l : List A) → P x → All P l → All P (insert_by x l)
    unfolding insert_by
    All-insert_by x [] h k = (h, tt)
    All-insert_by x (y ∷ ys) h k = elim (Bool-cases (is_le (c x y))) [
      | inl e ↦ rw (e, insert_by) (h, k)
      | inr e ↦ rw (e, insert_by) (k.0, All-insert_by x ys h k.1)
    ]

    pub All-sort_by : (l : List A) → All P l → All P (sort_by l)
    unfolding sort_by
    All-sort_by [] k = tt
    All-sort_by (x ∷ xs) k = All-insert_by x (sort_by xs) k.0 (All-sort_by xs k.1)

  module _ (p : IsOrder c) where
    Precedes-prop : (x y : A) → IsProp (Precedes x y)
    Precedes-prop x y = hlevel

    Precedes-total : (x y : A) → is_le (c x y) ≡ false → Precedes y x
    Precedes-total x y = ground (arith, p.flip x y)

    abbrev IsBelow : A → List A → Type ℓ
    IsBelow x l = (y : A) → Mem y l → Precedes x y

    IsBelow-cons : (x y : A) {l : List A} → Precedes x y → IsBelow x l → IsBelow x (y ∷ l)
    IsBelow-cons x y h k = (forall_mem-cons (λ y. Precedes-prop x y)).1 (h, k)

    IsBelow-head : (x y : A) {l : List A} → Precedes x y → IsSorted (y ∷ l) → IsBelow x (y ∷ l)
    IsBelow-head x y h (Pairwise.cons k _) = IsBelow-cons x y h (λ z m. p.trans x y z h (k z m))

    insert_by-IsSorted : (x : A) {l : List A} → IsSorted l → IsSorted (insert_by x l)
    unfolding insert_by
    insert_by-IsSorted x Pairwise.nil = Pairwise-singleton _ x
    insert_by-IsSorted x (Pairwise.cons {a = y} {l = ys} below s) =
        elim (Bool-cases (is_le (c x y))) [
          | inl h ↦
              let whole = Pairwise.cons below s in
              rw h (Pairwise.cons (IsBelow-head x y h whole) whole)
          | inr h ↦
              let kept : IsBelow y (insert_by x ys) = λ z m.
                IsBelow-cons y x (Precedes-total x y h) below z
                  ((Perm.mem_iff (insert_by-perm x ys)).0 m) in
              rw h (Pairwise.cons kept (insert_by-IsSorted x s))
        ]

    pub sort_by-IsSorted : (l : List A) → IsSorted (sort_by l)
    unfolding sort_by
    sort_by-IsSorted [] = Pairwise.nil
    sort_by-IsSorted (x ∷ xs) = insert_by-IsSorted x (sort_by-IsSorted xs)

    module _ (strict : (x y : A) → c x y ≡ Ordering.eq → x ≡ y) where
      antisymm : (x y : A) → Precedes x y → Precedes y x → x ≡ y
      antisymm x y = ground (arith, p.flip x y, strict x y)

      Precedes-refl : (x : A) → Precedes x x
      Precedes-refl x = ground (arith, p.flip x x)

      heads_le : {x y : A} {l r : List A} → IsSorted (x ∷ l) → Perm (y ∷ r) (x ∷ l) → Precedes x y
      heads_le {x} {y} s q =
          IsBelow-head x x (Precedes-refl x) s y ((Perm.mem_iff q).0 mem-cons_self)

      pub IsSorted-eq_of_perm : {l r : List A} → IsSorted l → IsSorted r → Perm l r → l ≡ r
      IsSorted-eq_of_perm {l = []} _ _ q = Perm.nil-eq q
      IsSorted-eq_of_perm {l = x ∷ l} {r = []} _ _ q = Perm.eq-nil q
      IsSorted-eq_of_perm {l = x ∷ l} {r = y ∷ r} s t q =
          let heads = antisymm x y (heads_le s (Perm.symm q)) (heads_le t q) in
          let tails = Perm.cons_inv (Perm.trans q (Perm.symm (Perm.cons' heads Perm.rfl))) in
          ap₂ ◌∷◌ heads
            (IsSorted-eq_of_perm {l = l} (Pairwise.of_cons s) (Pairwise.of_cons t) tails)

      -- A sort forgets the order of its input.
      pub sort_by-eq_of_perm : {l r : List A} → Perm l r → sort_by l ≡ sort_by r
      sort_by-eq_of_perm {l} {r} q =
          IsSorted-eq_of_perm (sort_by-IsSorted l) (sort_by-IsSorted r)
            (Perm.trans (sort_by-perm l) (Perm.trans q (Perm.symm (sort_by-perm r))))

-- A comparison of keys, on the values that have them.
module _ {ℓ κ} {A : Type ℓ} {B : Type κ} (c : B → B → Ordering) (f : A → B) where
  pub on-IsOrder : IsOrder c → IsOrder (λ x y. c (f x) (f y))
  on-IsOrder p = record {
    flip = λ x y. p.flip (f x) (f y);
    trans = λ x y z. p.trans (f x) (f y) (f z);
  }

  map-insert_by :
      (x : A) (l : List A)
      → map f (insert_by (λ y z. c (f y) (f z)) x l) ≡ insert_by c (f x) (map f l)
  unfolding insert_by
  map-insert_by x [] = refl
  map-insert_by x (y ∷ ys) = elim (Bool-cases (is_le (c (f x) (f y)))) [
    | inl h ↦ rw h
    | inr h ↦ rw h (ap (◌∷◌ (f y)) (map-insert_by x ys))
  ]

  pub map-sort_by : (l : List A) → map f (sort_by (λ y z. c (f y) (f z)) l) ≡ sort_by c (map f l)
  unfolding sort_by
  map-sort_by [] = refl
  map-sort_by (x ∷ xs) =
      map-insert_by x (sort_by (λ y z. c (f y) (f z)) xs) ∙ ap (insert_by c (f x)) (map-sort_by xs)
