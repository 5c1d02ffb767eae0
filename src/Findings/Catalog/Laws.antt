-- ===== src/Findings/Catalog/Laws.antt =====
-- What `register`, `Lookup` and `Rules` do to the map of rules.
use mathlib.Core.List.{Perm}
use mathlib.Core.List.Perm
use zone_lint.Common.{
  Bytes, eqb, eqb_iff, List, [], ◌∷◌, map, none, some, Option-cases, inl, inr, All, ◌≡◌, ◌↔◌, refl,
  sym, ◌∙◌, arith, if◌then◌else◌,
}
use zone_lint.Common.Order.{compare_text, compare_text-IsOrder, compare_text-eq}
use zone_lint.Common.Sort.{sort_by-perm, sort_by-eq_of_perm, map-sort_by}
use zone_lint.Findings.{Rule}
use zone_lint.Findings.Catalog.{Entries, lookup, register, register_all, rules}

-- A registration succeeds exactly if the ID is new.
pub register-some_iff :
    (r : Rule) (es : Entries) → (register r es ≡ some (r ∷ es)) ↔ (lookup r.id es ≡ none)
unfolding register
register-some_iff r es = ground arith

register-cons : (r : Rule) (es es' : Entries) → register r es ≡ some es' → es' ≡ r ∷ es
unfolding register
register-cons r es es' h = ground arith

register-fresh : (r : Rule) (es es' : Entries) → register r es ≡ some es' → lookup r.id es ≡ none
unfolding register
register-fresh r es es' h = ground arith

lookup-cons :
    (r : Rule) (es : Entries) (id : Bytes)
    → lookup id (r ∷ es) ≡ (if eqb r.id id then some r else lookup id es)
unfolding lookup
lookup-cons r es id = refl

-- What an earlier registration stored is not overwritten.
lookup-register_all :
    (rs : List Rule) (es es' : Entries) (id : Bytes) (r : Rule)
    → register_all rs es ≡ some es'
    → lookup id es ≡ some r
    → lookup id es' ≡ some r
unfolding register_all
lookup-register_all [] es es' id r h found = ground arith
lookup-register_all (q ∷ rs) es es' id r h found = elim (Option-cases (register q es)) [
  | inl bad ↦ absurd (ground arith)
  | inr (mid, e) ↦ lookup-register_all rs mid es' id r (ground arith) (
      ground (
        arith,
        register-cons q es mid,
        register-fresh q es mid,
        eqb_iff q.id id,
        lookup-cons q es id,
      ))
]

-- If the initialisation does not panic, Lookup returns every rule that was declared for its ID.
pub register_all-lookup :
    (rs : List Rule) (es es' : Entries)
    → register_all rs es ≡ some es'
    → All (λ r. lookup r.id es' ≡ some r) rs
unfolding register_all
register_all-lookup [] es es' h = tt
register_all-lookup (q ∷ rs) es es' h = elim (Option-cases (register q es)) [
  | inl bad ↦ absurd (ground arith)
  | inr (mid, e) ↦ (
    lookup-register_all rs mid es' q.id q (ground arith)
        (ground (arith, register-cons q es mid, eqb_iff q.id q.id, lookup-cons q es q.id)),
    register_all-lookup rs mid es' (ground arith),
  )
]

-- The list that Rules returns has the IDs in one order, whatever order the iteration over the
-- map had, and it holds the rules of the map.
pub rules-eq_of_perm :
    {es es' : Entries}
    → Perm es es'
    → (map (λ r. r.id) (rules es) ≡ map (λ r. r.id) (rules es')) × Perm (rules es) es
unfolding rules
rules-eq_of_perm {es} {es'} p = (
  map-sort_by compare_text (λ (r : Rule). r.id) es
      ∙ sort_by-eq_of_perm compare_text compare_text-IsOrder compare_text-eq
          (Perm.map (λ (r : Rule). r.id) p)
      ∙ sym (map-sort_by compare_text (λ (r : Rule). r.id) es'),
  sort_by-perm _ es,
)
