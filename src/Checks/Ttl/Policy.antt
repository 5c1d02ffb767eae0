-- ===== src/Checks/Ttl/Policy.antt =====
-- The collector keeps the smallest TTL of each type, and Check judges exactly that value.
use mathlib.Core.Path.{fun_ext, subst}
use zone_lint.Common.{
  ℕ, ◌≤◌, Bytes, text, eqb_iff, ◌≢◌, List, [], ◌∷◌, ◌++◌, Option, none, some, ◌≡◌, ◌↔◌, ◌⊎◌, refl,
  arith, ◌==◌, if◌then◌else◌, All, min, append-nil_iff, ◌∙◌, ap,
}
use zone_lint.Dns.{Rr, Slot, Msg, Package}
use zone_lint.Checks.Ttl.{
  profile_conservative, profile_balanced, profile_agile, Limits, limits, Collector, new_collector,
  add, collect, collect_all, checked_types, check_type, check_types, check, profile_or_default,
}

-- The smallest of a value that may be missing and a number.
abbrev min_with : Option ℕ → ℕ → Option ℕ
min_with none t = some t
min_with (some s) t = some (min s t)

-- The smallest TTL that records of one type have, over what is known so far.
abbrev pub smallest : ℕ → List Slot → Option ℕ → Option ℕ
smallest typ [] o = o
smallest typ (none ∷ rest) o = smallest typ rest o
smallest typ (some rr ∷ rest) o =
    smallest typ rest (if rr.header.rrtype == typ then min_with o rr.header.ttl else o)

values-add :
    (typ : ℕ) (rr : Rr) (c : Collector)
    → (add (some rr) c).values typ
      ≡ (if rr.header.rrtype == typ then min_with (c.values typ) rr.header.ttl else c.values typ)
unfolding add
values-add typ rr c = ground arith

values-collect :
    (typ : ℕ) (records : List Slot) (c : Collector)
    → (collect records c).values typ ≡ smallest typ records (c.values typ)
unfolding collect
values-collect typ [] c = refl
values-collect typ (none ∷ rest) c = values-collect typ rest c
values-collect typ (some rr ∷ rest) c =
    values-collect typ rest (add (some rr) c) ∙ ap (smallest typ rest) (values-add typ rr c)

-- After CollectAll the collector has, for every record type, the smallest TTL of its records in
-- the answer and authority sections, and nothing where there is no record of the type.
pub values-collect_all :
    (typ : ℕ) (resp : Msg)
    → (collect_all resp new_collector).values typ ≡ smallest typ (resp.answer ++ resp.ns) none
unfolding collect_all new_collector
values-collect_all typ resp = values-collect typ (resp.answer ++ resp.ns) new_collector

-- A TTL that the profile does not object to; 0 and a missing type are never judged.
abbrev pub IsAcceptable : Limits → Option ℕ → Type 0
IsAcceptable l none = Unit
IsAcceptable l (some t) = (t ≡ 0) ⊎ ((l.min_ttl ≤ t) × (t ≤ l.extreme_ttl))

check_type-nil_iff :
    (pkg : Package) (zone : Bytes) (l : Limits) (typ : ℕ) (o : Option ℕ)
    → (check_type pkg zone l typ o ≡ []) ↔ IsAcceptable l o
unfolding check_type
check_type-nil_iff pkg zone l typ none = (λ _. tt, λ _. refl)
check_type-nil_iff pkg zone l typ (some t) = ground arith

check_types-nil_iff :
    (pkg : Package) (zone : Bytes) (l : Limits) (types : List ℕ) (c : Collector)
    → (check_types pkg zone l types c ≡ []) ↔ All (λ typ. IsAcceptable l (c.values typ)) types
unfolding check_types
check_types-nil_iff pkg zone l [] c = (λ _. tt, λ _. refl)
check_types-nil_iff pkg zone l (typ ∷ types) c =
    let split =
      append-nil_iff (check_type pkg zone l typ (c.values typ)) (check_types pkg zone l types c) in
    let head = check_type-nil_iff pkg zone l typ (c.values typ) in
    let tail = check_types-nil_iff pkg zone l types c in
    (λ h. (head.0 (split.0 h).0, tail.0 (split.0 h).1), λ h. split.1 (head.1 h.0, tail.1 h.1))

-- A TTL within the limits of a profile: conservative, agile, or any other, which is taken for
-- balanced, as the empty text is.
abbrev pub InProfile : Bytes → ℕ → Type 0
InProfile profile t =
    ((profile ≡ text "conservative") × ((300 ≤ t) × (t ≤ 86400)))
    ⊎ (((profile ≡ text "agile") × ((10 ≤ t) × (t ≤ 604800)))
        ⊎ ((profile ≢ text "conservative")
            × ((profile ≢ text "agile") × ((60 ≤ t) × (t ≤ 604800)))))

-- What the check has nothing to say about: a type without a record, a TTL of 0, and a TTL within
-- the limits.
abbrev pub IsQuiet : Bytes → Option ℕ → Type 0
IsQuiet profile none = Unit
IsQuiet profile (some t) = (t ≡ 0) ⊎ InProfile profile t

limits_iff :
    (profile : Bytes) (t : ℕ)
    → (((limits (profile_or_default profile)).min_ttl ≤ t)
        × (t ≤ (limits (profile_or_default profile)).extreme_ttl))
      ↔ InProfile profile t
unfolding limits profile_or_default profile_conservative profile_balanced profile_agile text
limits_iff profile t = ground (
  arith,
  eqb_iff profile [],
  eqb_iff profile (text "conservative"),
  eqb_iff profile (text "balanced"),
  eqb_iff profile (text "agile"),
)

IsAcceptable-iff :
    (profile : Bytes) (o : Option ℕ)
    → IsAcceptable (limits (profile_or_default profile)) o ↔ IsQuiet profile o
IsAcceptable-iff profile none = (λ h. tt, λ h. tt)
IsAcceptable-iff profile (some t) = ground (arith, limits_iff profile t)

All-IsQuiet :
    (profile : Bytes) (value : ℕ → Option ℕ) (types : List ℕ)
    → All (λ typ. IsAcceptable (limits (profile_or_default profile)) (value typ)) types
      ↔ All (λ typ. IsQuiet profile (value typ)) types
All-IsQuiet profile value [] = (λ h. tt, λ h. tt)
All-IsQuiet profile value (typ ∷ types) =
    let head = IsAcceptable-iff profile (value typ) in
    let tail = All-IsQuiet profile value types in
    (λ h. (head.0 h.0, tail.0 h.1), λ h. (head.1 h.0, tail.1 h.1))

check-IsAcceptable :
    (pkg : Package) (zone profile : Bytes) (resp : Msg)
    → (check pkg zone profile (collect_all resp new_collector) ≡ [])
      ↔ All
          (λ typ.
            IsAcceptable
              (limits (profile_or_default profile))
              (smallest typ (resp.answer ++ resp.ns) none))
          checked_types
unfolding check
check-IsAcceptable pkg zone profile resp =
    let l : Limits = limits (profile_or_default profile) in
    subst
      (λ (values : ℕ → Option ℕ).
        (check_types pkg zone l checked_types (collect_all resp new_collector) ≡ [])
        ↔ All (λ typ. IsAcceptable l (values typ)) checked_types)
      (fun_ext (λ typ. values-collect_all typ resp))
      (check_types-nil_iff pkg zone l checked_types (collect_all resp new_collector))

-- The TTL check of a response is silent exactly if, for each of the types SOA, NS, A, AAAA, MX,
-- CNAME, TXT, CAA, DNSKEY and DS, the smallest TTL of the response is missing, 0, or within the
-- limits of the profile: 300 to 86400 for conservative, 10 to 604800 for agile, and 60 to 604800
-- for every other text. A larger TTL beside the smallest is not looked at.
pub ttl_check-nil_iff :
    (pkg : Package) (zone profile : Bytes) (resp : Msg)
    → (check pkg zone profile (collect_all resp new_collector) ≡ [])
      ↔ All
          (λ typ. IsQuiet profile (smallest typ (resp.answer ++ resp.ns) none))
          (6 ∷ 2 ∷ 1 ∷ 28 ∷ 15 ∷ 5 ∷ 16 ∷ 257 ∷ 48 ∷ 43 ∷ [])
unfolding checked_types
ttl_check-nil_iff pkg zone profile resp =
    let silent = check-IsAcceptable pkg zone profile resp in
    let value : ℕ → Option ℕ = λ typ. smallest typ (resp.answer ++ resp.ns) none in
    let quiet = All-IsQuiet profile value checked_types in
    (λ h. quiet.0 (silent.0 h), λ h. silent.1 (quiet.1 h))
