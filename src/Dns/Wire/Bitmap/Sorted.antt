-- ===== src/Dns/Wire/Bitmap/Sorted.antt =====
-- What the sorting of typeBitmap keeps of the types.
use zone_lint.Common.{
  ℕ, length, length-append, All, List, [], ◌∷◌, ◌++◌, ◌||◌, ◌≡◌, ◌≤◌, ◌<◌, ◌+◌, refl, ◌∙◌, arith,
  ◌==◌, ltb, Bool-cases, inl, inr, suc,
}
use zone_lint.Dns.Wire.Bitmap.{has_number, distinct_onto, insert_type, sort_onto}

abbrev pub AllU16 : List ℕ → Type 0
AllU16 = All (λ t. t < 65536)

has_number-snoc :
    (t x : ℕ) (xs : List ℕ) → has_number t (xs ++ x ∷ []) ≡ (has_number t xs || x == t)
has_number-snoc t x [] = ground arith
has_number-snoc t x (y ∷ xs) = ground (arith, has_number-snoc t x xs)

-- What sorting without repetitions keeps: the members, the bound, and no more elements.
pub record Keeps (from to : List ℕ) : Type 0 where
  pub members : (t : ℕ) → has_number t to ≡ has_number t from
  pub short : length to ≤ length from
  pub bounded : AllU16 from → AllU16 to

AllU16-snoc : (xs : List ℕ) (x : ℕ) → AllU16 xs → x < 65536 → AllU16 (xs ++ x ∷ [])
AllU16-snoc [] x a h = (h, tt)
AllU16-snoc (y ∷ xs) x a h = (a.0, AllU16-snoc xs x a.1 h)

distinct_onto-members :
    (t : ℕ) (types out : List ℕ)
    → has_number t (distinct_onto types out) ≡ (has_number t out || has_number t types)
unfolding distinct_onto
distinct_onto-members t [] out = ground arith
distinct_onto-members t (x ∷ types) out = ground (
  arith,
  distinct_onto-members t types out,
  distinct_onto-members t types (out ++ x ∷ []),
  has_number-snoc t x out,
)

distinct_onto-short :
    (types out : List ℕ) → length (distinct_onto types out) ≤ length out + length types
unfolding distinct_onto
distinct_onto-short [] out = omega arith
distinct_onto-short (x ∷ types) out = ground (
  arith,
  distinct_onto-short types out,
  distinct_onto-short types (out ++ x ∷ []),
  length-append out (x ∷ []),
)

distinct_onto-AllU16 :
    (types out : List ℕ) → AllU16 types → AllU16 out → AllU16 (distinct_onto types out)
unfolding distinct_onto
distinct_onto-AllU16 [] out a b = b
distinct_onto-AllU16 (x ∷ types) out a b = elim (Bool-cases (has_number x out)) [
  | inl e ↦ rw (e, distinct_onto) (distinct_onto-AllU16 types out a.1 b)
  | inr e ↦
      rw (e, distinct_onto)
        (distinct_onto-AllU16 types (out ++ x ∷ []) a.1 (AllU16-snoc out x b a.0))
]

insert_type-members :
    (t x : ℕ) (xs : List ℕ) → has_number t (insert_type x xs) ≡ (x == t || has_number t xs)
unfolding insert_type
insert_type-members t x [] = refl
insert_type-members t x (y ∷ xs) = ground (arith, insert_type-members t x xs)

insert_type-short : (x : ℕ) (xs : List ℕ) → length (insert_type x xs) ≡ suc (length xs)
unfolding insert_type
insert_type-short x [] = refl
insert_type-short x (y ∷ xs) = ground (arith, insert_type-short x xs)

insert_type-AllU16 : (x : ℕ) (xs : List ℕ) → x < 65536 → AllU16 xs → AllU16 (insert_type x xs)
unfolding insert_type
insert_type-AllU16 x [] h a = (h, tt)
insert_type-AllU16 x (y ∷ xs) h a = elim (Bool-cases (ltb x y)) [
  | inl e ↦ rw (e, insert_type) (h, a)
  | inr e ↦ rw (e, insert_type) (a.0, insert_type-AllU16 x xs h a.1)
]

sort_onto-members :
    (t : ℕ) (types out : List ℕ)
    → has_number t (sort_onto types out) ≡ (has_number t out || has_number t types)
unfolding sort_onto
sort_onto-members t [] out = ground arith
sort_onto-members t (x ∷ types) out =
    ground (arith, sort_onto-members t types (insert_type x out), insert_type-members t x out)

sort_onto-short : (types out : List ℕ) → length (sort_onto types out) ≡ length out + length types
unfolding sort_onto
sort_onto-short [] out = omega arith
sort_onto-short (x ∷ types) out =
    omega (arith, sort_onto-short types (insert_type x out), insert_type-short x out)

sort_onto-AllU16 : (types out : List ℕ) → AllU16 types → AllU16 out → AllU16 (sort_onto types out)
unfolding sort_onto
sort_onto-AllU16 [] out a b = b
sort_onto-AllU16 (x ∷ types) out a b =
    sort_onto-AllU16 types (insert_type x out) a.1 (insert_type-AllU16 x out a.0 b)

pub sorted-Keeps : (types : List ℕ) → Keeps types (sort_onto (distinct_onto types []) [])
sorted-Keeps types =
    let once = distinct_onto types [] in
    record {
      members = λ t. sort_onto-members t once [] ∙ distinct_onto-members t types [];
      short = omega (arith, sort_onto-short once [], distinct_onto-short types []);
      bounded = λ a. sort_onto-AllU16 once [] (distinct_onto-AllU16 types [] a tt) tt;
    }
