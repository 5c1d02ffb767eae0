-- ===== src/Checks/Ttl.antt =====
-- internal/ttl/ttl.go: the collector of the smallest TTLs and the check against a profile.
pub mod Policy
use zone_lint.Common.{
  ℕ, ◌*◌, Bytes, text, eqb, itoa, List, [], ◌∷◌, ◌++◌, Bool, true, false, ◌||◌, not, Option, none,
  some, ◌==◌, ltb, if◌then◌else◌,
}
use zone_lint.Dns.{Slot, Msg, Package}
use zone_lint.Dns.Codes.{
  type_soa, type_ns, type_a, type_aaaa, type_mx, type_cname, type_txt, type_caa, type_dnskey,
  type_ds,
}
use zone_lint.Findings.{Finding, new}
use zone_lint.Findings.Catalog.{ttl_short, ttl_extreme}

-- Profile, a string type; the three profiles that have limits of their own.
unfoldable pub profile_conservative : Bytes
profile_conservative = text "conservative"

unfoldable pub profile_balanced : Bytes
profile_balanced = text "balanced"

unfoldable pub profile_agile : Bytes
profile_agile = text "agile"

pub record Limits : Type 0 where
  pub min_ttl : ℕ
  pub extreme_ttl : ℕ

-- Profile.Limits
unfoldable pub limits : Bytes → Limits
unfolding eqb profile_conservative profile_balanced profile_agile
limits p =
    if eqb p profile_conservative
    then record { min_ttl = 300; extreme_ttl = 86400 }
    else if eqb p profile_balanced
    then record { min_ttl = 60; extreme_ttl = 604800 }
    else if eqb p profile_agile
    then record { min_ttl = 10; extreme_ttl = 604800 }
    else record { min_ttl = 60; extreme_ttl = 604800 }

-- Collector: maps from record types, as functions.
pub record Collector : Type 0 where
  pub values : ℕ → Option ℕ
  pub records : ℕ → List Slot

abbrev update {ℓ} : {V : Type ℓ} → (ℕ → V) → ℕ → V → ℕ → V
update m k v j = if k == j then v else m j

unfoldable pub new_collector : Collector
new_collector = record { values = λ _. none; records = λ _. [] }

-- The test `!ok || t < prev` of Add.
unfoldable pub is_smaller : Option ℕ → ℕ → Bool
is_smaller none t = true
is_smaller (some prev) t = ltb t prev

-- Collector.Add
unfoldable pub add : Slot → Collector → Collector
unfolding is_smaller
add none c = c
add (some rr) c =
    let typ = rr.header.rrtype in
    let t = rr.header.ttl in
    record {
      values = if is_smaller (c.values typ) t then update c.values typ (some t) else c.values;
      records = update c.records typ (c.records typ ++ some rr ∷ []);
    }

-- Collector.CollectAll
unfoldable pub collect : List Slot → Collector → Collector
unfolding add
collect [] c = c
collect (rr ∷ rest) c = collect rest (add rr c)

unfoldable pub collect_all : Msg → Collector → Collector
unfolding collect
collect_all resp c = collect (resp.answer ++ resp.ns) c

-- The record types that Check looks at.
unfoldable pub checked_types : List ℕ
checked_types =
    type_soa ∷ type_ns ∷ type_a ∷ type_aaaa ∷ type_mx ∷ type_cname ∷ type_txt ∷ type_caa
    ∷ type_dnskey ∷ type_ds ∷ []

-- The loop body of Check on one type and what the collector has for it.
unfoldable pub check_type : Package → Bytes → Limits → ℕ → Option ℕ → List Finding
check_type pkg zone l typ none = []
check_type pkg zone l typ (some t) =
    if t == 0
    then []
    else if ltb l.extreme_ttl t
    then new ttl_extreme zone
        (text
          "A very high TTL reduces operational agility and delays propagation of legitimate changes.")
        ((pkg.type_to_string typ
            ++ (text " TTL=" ++ (itoa t ++ (text " (limit " ++ (itoa l.extreme_ttl ++ text ")")))))
          ∷ [])
      ∷ []
    else if ltb t l.min_ttl
    then new ttl_short zone
        (text
          "A low TTL is an operational/resilience heuristic: it improves propagation agility but increases query load and reduces cache efficiency. It is not reported as a vulnerability.")
        ((pkg.type_to_string typ
            ++ (text " TTL="
                ++ (itoa t ++ (text " (profile minimum " ++ (itoa l.min_ttl ++ text ")")))))
          ∷ [])
      ∷ []
    else []

unfoldable pub check_types : Package → Bytes → Limits → List ℕ → Collector → List Finding
unfolding check_type
check_types pkg zone l [] c = []
check_types pkg zone l (typ ∷ types) c =
    check_type pkg zone l typ (c.values typ) ++ check_types pkg zone l types c

-- The empty profile stands for the balanced one.
unfoldable pub profile_or_default : Bytes → Bytes
unfolding eqb
profile_or_default profile = if eqb profile [] then profile_balanced else profile

-- Check
unfoldable pub check : Package → Bytes → Bytes → Collector → List Finding
unfolding check_types limits profile_or_default checked_types
check pkg zone profile c =
    check_types pkg zone (limits (profile_or_default profile)) checked_types c
