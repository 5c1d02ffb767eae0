-- ===== src/Checks/Delegation/Consistency.antt =====
-- The delegation check compares multisets of names, and when it is silent.
use mathlib.Core.Logic.Or
use mathlib.Core.List.{Perm, Mem, mem-cons, mem-cons_self, Mem-prop, not-mem-nil, forall_mem-cons}
use mathlib.Core.List.Perm
use zone_lint.Common.{
  Bytes, eqb, eqb_iff, length, List, [], ◌∷◌, ◌++◌, when, Bool, true, false, ◌&&◌, not, ◌≡◌, ◌↔◌,
  ◌⊎◌, inl, inr, refl, sym, arith, ltb, Bool-cases,
}
use zone_lint.Common.Order.{compare_text, compare_text-IsOrder, compare_text-eq}
use zone_lint.Common.Sort.{sort_by, sort_by-perm, sort_by-eq_of_perm}
use zone_lint.Dns.{Package}
use zone_lint.Findings.{Finding}
use zone_lint.Checks.Delegation.{
  ParentView, ChildView, sorted_names, equal_sets, contains, is_sub_domain, lacks,
  non_auth_findings, glue_findings, compare_views, inconsistent_finding, lame_finding,
}

pub equal_sets_iff : (xs ys : List Bytes) → (equal_sets xs ys ≡ true) ↔ (xs ≡ ys)
unfolding equal_sets
equal_sets_iff [] [] = ground arith
equal_sets_iff [] (_ ∷ _) = ground arith
equal_sets_iff (_ ∷ _) [] = ground arith
equal_sets_iff (x ∷ xs) (y ∷ ys) = ground (arith, eqb_iff x y, equal_sets_iff xs ys)

-- The comparison of the sorted lists decides whether parent and child name the same servers,
-- each as often, in whatever order.
pub equal_sets-sorted_names :
    (xs ys : List Bytes) → (equal_sets (sorted_names xs) (sorted_names ys) ≡ true) ↔ Perm xs ys
unfolding sorted_names
equal_sets-sorted_names xs ys = (
  λ h.
      Perm.trans (Perm.symm (sort_by-perm compare_text xs))
        (rw ((equal_sets_iff _ _).0 h) (sort_by-perm compare_text ys)),
  λ p.
      (equal_sets_iff _ _).1
        (sort_by-eq_of_perm compare_text compare_text-IsOrder compare_text-eq p),
)

-- A name server in the zone has glue, of one kind at least.
abbrev pub has_glue : Package → Bytes → ParentView → Bytes → Bool
has_glue pkg zone parent host =
    not (is_sub_domain pkg host zone && (lacks host parent.glue && lacks host parent.glue_aaaa))

contains_iff : (xs : List Bytes) (s : Bytes) → (contains xs s ≡ true) ↔ Mem s xs
unfolding contains
contains_iff [] s = (λ h. absurd (cc), λ m. absurd (not-mem-nil m))
contains_iff (x ∷ xs) s = elim (Bool-cases (eqb x s)) [
  | inl e ↦ (λ _. mem-cons.1 (Or.inl (sym ((eqb_iff x s).0 e))), λ _. rw (e, contains))
  | inr e ↦ (
    λ h. mem-cons.1 (Or.inr ((contains_iff xs s).0 (rw (e, contains) at h))),
    λ m.
        rw (e, contains)
          ((contains_iff xs s).1 (
            Or.elim Mem-prop (mem-cons.0 m) (λ same. absurd (ground (arith, eqb_iff x s)))
              (λ later. later))),
  )
]

non_auth-nil :
    (zone : Bytes) (child hosts : List Bytes)
    → ((host : Bytes) → Mem host hosts → contains child host ≡ true)
    → non_auth_findings zone child hosts ≡ []
unfolding non_auth_findings
non_auth-nil zone child [] h = refl
non_auth-nil zone child (host ∷ rest) h =
    rw (h host mem-cons_self) (non_auth-nil zone child rest (λ x m. h x (mem-cons.1 (Or.inr m))))

glue-nil_iff :
    (pkg : Package) (zone : Bytes) (parent : ParentView) (hosts : List Bytes)
    → (glue_findings pkg zone parent hosts ≡ [])
      ↔ ((host : Bytes) → Mem host hosts → has_glue pkg zone parent host ≡ true)
unfolding glue_findings
glue-nil_iff pkg zone parent [] = (λ _ host m. absurd (not-mem-nil m), λ _. refl)
glue-nil_iff pkg zone parent (host ∷ rest) =
    let rec = glue-nil_iff pkg zone parent rest in
    let iff =
      forall_mem-cons {p = λ x. has_glue pkg zone parent x ≡ true} (λ x. hlevel) {a = host}
        {l = rest} in
    (
      λ h. iff.1 (ground arith, rec.0 (ground arith)),
      λ h. ground (arith, (iff.0 h).0, rec.1 (iff.0 h).1),
    )

append4-nil_iff {ℓ} :
    {A : Type ℓ} (ks bs cs ds : List A)
    → (ks ++ (bs ++ (cs ++ ds)) ≡ []) ↔ ((ks ≡ []) × (bs ≡ []) × (cs ≡ []) × (ds ≡ []))
append4-nil_iff [] [] [] ds = (λ h. (refl, refl, refl, h), λ h. h.3)
append4-nil_iff [] [] (_ ∷ _) ds = (λ h. absurd (cc), λ h. absurd (cc))
append4-nil_iff [] (_ ∷ _) cs ds = (λ h. absurd (cc), λ h. absurd (cc))
append4-nil_iff (_ ∷ _) bs cs ds = (λ h. absurd (cc), λ h. absurd (cc))

lame_cases {ℓ κ} :
    {A : Type ℓ} {B : Type κ} (aa : Bool) (ns : List A) (f : B)
    → (when (not aa && ltb 0 (length ns)) f ≡ []) ↔ ((aa ≡ true) ⊎ (ns ≡ []))
lame_cases true ns f = (λ _. inl refl, λ _. refl)
lame_cases false [] f = (λ _. inr refl, λ _. refl)
lame_cases false (n ∷ ns) f = (λ h. absurd (ground arith), λ h. absurd (ground arith))

module _ (pkg : Package) (zone : Bytes) (parent : ParentView) (child : ChildView) where
  -- The parts of Compare, each with what makes it silent.
  sets_part : List Finding
  sets_part =
      when (not (equal_sets (sorted_names parent.ns) (sorted_names child.ns)))
        (inconsistent_finding zone (sorted_names parent.ns) (sorted_names child.ns))

  lame_part : List Finding
  lame_part = when (not child.authoritative && ltb 0 (length child.ns)) (lame_finding zone)

  sets-nil_iff : (sets_part ≡ []) ↔ Perm parent.ns child.ns
  unfolding sets_part
  sets-nil_iff =
      let same = equal_sets-sorted_names parent.ns child.ns in
      (λ h. same.0 (ground arith), λ p. ground (arith, same.1 p))

  lame-nil_iff : (lame_part ≡ []) ↔ ((child.authoritative ≡ true) ⊎ (child.ns ≡ []))
  unfolding lame_part
  lame-nil_iff = lame_cases child.authoritative child.ns (lame_finding zone)

  listed :
      Perm parent.ns child.ns
      → non_auth_findings zone (sorted_names child.ns) (sorted_names parent.ns) ≡ []
  unfolding sorted_names
  listed p = non_auth-nil zone _ _ (λ host m. (contains_iff _ host).1 (
      (Perm.mem_iff (Perm.symm (sort_by-perm compare_text child.ns))).0
        ((Perm.mem_iff p).0 ((Perm.mem_iff (sort_by-perm compare_text parent.ns)).0 m))))

  glued-nil_iff :
      (glue_findings pkg zone parent (sorted_names parent.ns) ≡ [])
      ↔ ((host : Bytes) → Mem host parent.ns → has_glue pkg zone parent host ≡ true)
  unfolding sorted_names
  glued-nil_iff =
      let iff = glue-nil_iff pkg zone parent (sort_by compare_text parent.ns) in
      let same = sort_by-perm compare_text parent.ns in
      (
        λ h host m. iff.0 h host ((Perm.mem_iff (Perm.symm same)).0 m),
        λ h. iff.1 (λ host m. h host ((Perm.mem_iff same).0 m)),
      )

  -- The delegation check is silent exactly if the parent and the child name the same servers as
  -- often, the child claims authority or names no server, and each of the parent's name servers
  -- inside the zone has glue.
  pub compare_views-nil_iff : (compare_views pkg zone parent child ≡ []) ↔ (
      Perm parent.ns child.ns
      × ((child.authoritative ≡ true) ⊎ (child.ns ≡ []))
      × ((host : Bytes) → Mem host parent.ns → has_glue pkg zone parent host ≡ true))
  unfolding compare_views sets_part lame_part
  compare_views-nil_iff =
      let split =
        append4-nil_iff sets_part lame_part
          (non_auth_findings zone (sorted_names child.ns) (sorted_names parent.ns))
          (glue_findings pkg zone parent (sorted_names parent.ns)) in
      (
        λ h.
            let parts = split.0 h in
            (sets-nil_iff.0 parts.0, lame-nil_iff.0 parts.1, glued-nil_iff.0 parts.3),
        λ h. split.1 (sets-nil_iff.1 h.0, lame-nil_iff.1 h.1, listed h.0, glued-nil_iff.1 h.2),
      )
