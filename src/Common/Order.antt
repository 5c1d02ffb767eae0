-- ===== src/Common/Order.antt =====
-- Three-way comparisons in the style of Go's `cmp` package: the results -1, 0 and 1 are `lt`,
-- `eq` and `gt`. A comparison is lawful when it is a total preorder.
use Prim.Native.Nat.{Ordering, compare}
use mathlib.Core.Path.{◌≡◌, refl}
use mathlib.Core.Logic.{◌⊎◌, inl, inr}
use mathlib.Core.Bool.{Bool, true, false}
use mathlib.Core.List.{List, [], ◌∷◌}
use native.Mathlib.Omega.{arith}
use zone_lint.Common.Text.{Bytes}

abbrev pub swap : Ordering → Ordering
swap Ordering.lt = Ordering.gt
swap Ordering.eq = Ordering.eq
swap Ordering.gt = Ordering.lt

-- One step of cmp.Or: the first result that is not zero.
abbrev pub or_else : Ordering → Ordering → Ordering
or_else Ordering.eq o = o
or_else Ordering.lt o = Ordering.lt
or_else Ordering.gt o = Ordering.gt

abbrev pub is_le : Ordering → Bool
is_le Ordering.gt = false
is_le Ordering.eq = true
is_le Ordering.lt = true

pub Ordering-cases : (o : Ordering) → (o ≡ Ordering.lt) ⊎ ((o ≡ Ordering.eq) ⊎ (o ≡ Ordering.gt))
Ordering-cases Ordering.lt = inl refl
Ordering-cases Ordering.eq = inr (inl refl)
Ordering-cases Ordering.gt = inr (inr refl)

pub record IsOrder {ℓ} {A : Type ℓ} (c : A → A → Ordering) : Type ℓ where
  pub flip : (x y : A) → c y x ≡ swap (c x y)
  pub trans : (x y z : A) → is_le (c x y) ≡ true → is_le (c y z) ≡ true → is_le (c x z) ≡ true

pub compare-IsOrder : IsOrder compare
compare-IsOrder = record { flip = λ x y. ground arith; trans = λ x y z. ground arith }

module _ {ℓ} {A : Type ℓ} where
  -- cmp.Or of two comparisons.
  abbrev pub then_by : (A → A → Ordering) → (A → A → Ordering) → A → A → Ordering
  then_by c d x y = or_else (c x y) (d x y)

  then_by_trans :
      (c d : A → A → Ordering)
      → IsOrder c
      → IsOrder d
      → (x y z : A) → is_le (then_by c d x y) ≡ true
      → is_le (then_by c d y z) ≡ true
      → is_le (then_by c d x z) ≡ true
  then_by_trans c d p q x y z = ground (
    arith,
    p.trans x y z,
    p.trans z x y,
    p.trans y z x,
    p.flip x y,
    p.flip y z,
    p.flip x z,
    q.trans x y z,
  )

  pub then_by-IsOrder : (c d : A → A → Ordering) → IsOrder c → IsOrder d → IsOrder (then_by c d)
  then_by-IsOrder c d p q = record {
    flip = λ x y. ground (arith, p.flip x y, q.flip x y);
    trans = then_by_trans c d p q;
  }

  -- slices.Compare: element by element, and a proper prefix comes first.
  unfoldable pub lex : (A → A → Ordering) → List A → List A → Ordering
  lex c [] [] = Ordering.eq
  lex c [] (_ ∷ _) = Ordering.lt
  lex c (_ ∷ _) [] = Ordering.gt
  lex c (x ∷ xs) (y ∷ ys) = or_else (c x y) (lex c xs ys)

  module _ (c : A → A → Ordering) (p : IsOrder c) where
    lex_flip : (xs ys : List A) → lex c ys xs ≡ swap (lex c xs ys)
    unfolding lex
    lex_flip [] [] = refl
    lex_flip [] (_ ∷ _) = refl
    lex_flip (_ ∷ _) [] = refl
    lex_flip (x ∷ xs) (y ∷ ys) = ground (arith, p.flip x y, lex_flip xs ys)

    lex_trans :
        (xs ys zs : List A)
        → is_le (lex c xs ys) ≡ true
        → is_le (lex c ys zs) ≡ true
        → is_le (lex c xs zs) ≡ true
    unfolding lex
    lex_trans [] [] zs h k = k
    lex_trans [] (_ ∷ _) [] h k = refl
    lex_trans [] (_ ∷ _) (_ ∷ _) h k = refl
    lex_trans (_ ∷ _) [] zs h k = cc
    lex_trans (_ ∷ _) (_ ∷ _) [] h k = cc
    lex_trans (x ∷ xs) (y ∷ ys) (z ∷ zs) h k = ground (
      arith,
      p.trans x y z,
      p.trans z x y,
      p.trans y z x,
      p.flip x y,
      p.flip y z,
      p.flip x z,
      lex_trans xs ys zs,
    )

    pub lex-IsOrder : IsOrder (lex c)
    lex-IsOrder = record { flip = lex_flip; trans = lex_trans }

    pub lex-eq :
        ((x y : A) → c x y ≡ Ordering.eq → x ≡ y)
        → (xs ys : List A) → lex c xs ys ≡ Ordering.eq
        → xs ≡ ys
    unfolding lex
    lex-eq e [] [] h = refl
    lex-eq e [] (_ ∷ _) h = cc
    lex-eq e (_ ∷ _) [] h = cc
    lex-eq e (x ∷ xs) (y ∷ ys) h = ground (arith, e x y, lex-eq e xs ys)

-- cmp.Compare and strings.Compare on texts.
unfoldable pub compare_text : Bytes → Bytes → Ordering
unfolding lex
compare_text = lex compare

pub compare_text-IsOrder : IsOrder compare_text
unfolding compare_text
compare_text-IsOrder = lex-IsOrder compare compare-IsOrder

pub compare_text-eq : (a b : Bytes) → compare_text a b ≡ Ordering.eq → a ≡ b
unfolding compare_text
compare_text-eq = lex-eq compare compare-IsOrder (λ x y h. ground arith)
