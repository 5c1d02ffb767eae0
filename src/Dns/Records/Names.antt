-- ===== src/Dns/Records/Names.antt =====
-- NSNames returns each name server once; RRByName groups without loss.
use zone_lint.Common.{
  append-nil, append_assoc, Bytes, eqb, eqb_iff, to_lower, List, [], ◌∷◌, ◌++◌, false, ◌||◌, Option,
  none, some, Option-cases, Bool-cases, inl, inr, ◌≡◌, ◌∙◌, sym, arith, if◌then◌else◌,
}
use zone_lint.Common.Dict.{
  IsNodup, IsNodup-snoc, Dict, member, member-append, items, push, items-push, find,
}
use zone_lint.Dns.{Rr, Slot, Package}
use zone_lint.Dns.Records.{as_ns, norm_name, ns_names_onto, ns_names, rr_by_name_onto, rr_by_name}

-- The targets of the NS records in lower case, in order and as often as they stand there.
abbrev pub targets : List Slot → List Bytes
targets [] = []
targets (rr ∷ rest) =
    let later = targets rest in elim (as_ns rr) [ none ↦ later | some host ↦ to_lower host ∷ later ]

ns_names_onto-IsNodup :
    (records : List Slot) (out : List Bytes) → IsNodup out → IsNodup (ns_names_onto records out)
unfolding ns_names_onto
ns_names_onto-IsNodup [] out d = d
ns_names_onto-IsNodup (rr ∷ rest) out d = elim (Option-cases (as_ns rr)) [
  | inl e ↦ rw e (ns_names_onto-IsNodup rest out d)
  | inr (host, e) ↦ elim (Bool-cases (member (norm_name host) out)) [
    | inl old ↦ rw (e, old) (ns_names_onto-IsNodup rest out d)
    | inr new ↦
        rw (e, new)
          (ns_names_onto-IsNodup rest (out ++ norm_name host ∷ [])
            (IsNodup-snoc (norm_name host) out new d))
  ]
]

-- One round of the loop.
abbrev next : Option Bytes → List Bytes → List Bytes
next none out = out
next (some host) out = let n = norm_name host in if member n out then out else out ++ n ∷ []

member-next :
    (name : Bytes) (o : Option Bytes) (out : List Bytes)
    → member name (next o out)
      ≡ (member name out || elim o [ none ↦ false | some host ↦ eqb (to_lower host) name ])
unfolding norm_name member
member-next name none out = ground arith
member-next name (some host) out =
    ground (arith, member-append name out (to_lower host ∷ []), eqb_iff (to_lower host) name)

member-ns_names_onto :
    (name : Bytes) (records : List Slot) (out : List Bytes)
    → member name (ns_names_onto records out) ≡ (member name out || member name (targets records))
unfolding ns_names_onto member
member-ns_names_onto name [] out = ground arith
member-ns_names_onto name (rr ∷ rest) out =
    ground
      (arith, member-ns_names_onto name rest (next (as_ns rr) out), member-next name (as_ns rr) out)

-- NSNames lists no name twice, and a name is in the list exactly if it is a lower-case target of
-- an NS record.
pub ns_names_lem :
    (records : List Slot) (name : Bytes)
    → IsNodup (ns_names records) × (member name (ns_names records) ≡ member name (targets records))
unfolding ns_names member
ns_names_lem records name =
    (ns_names_onto-IsNodup records [] tt, member-ns_names_onto name records [])

-- RRByName groups without loss: the group of a name holds, in the order of the section, the
-- records whose owner is that name, and a nil record is in none.
abbrev pub owned : Package → Bytes → List Slot → List Rr
owned pkg name [] = []
owned pkg name (none ∷ rest) = owned pkg name rest
owned pkg name (some rr ∷ rest) =
    let later = owned pkg name rest in
    if eqb (norm_name (pkg.fqdn rr.header.name)) name then rr ∷ later else later

items-rr_by_name_onto :
    (pkg : Package) (name : Bytes) (records : List Slot) (out : Dict (List Rr))
    → items name (rr_by_name_onto pkg records out) ≡ items name out ++ owned pkg name records
unfolding rr_by_name_onto
items-rr_by_name_onto pkg name [] out = sym (append-nil (items name out))
items-rr_by_name_onto pkg name (none ∷ rest) out = items-rr_by_name_onto pkg name rest out
items-rr_by_name_onto pkg name (some rr ∷ rest) out =
    let owner = norm_name (pkg.fqdn rr.header.name) in
    items-rr_by_name_onto pkg name rest (push owner rr out)
    ∙ ground (
      arith,
      items-push owner name rr out,
      eqb_iff owner name,
      append_assoc (items name out) (rr ∷ []) (owned pkg name rest),
    )

pub items-rr_by_name :
    (pkg : Package) (name : Bytes) (records : List Slot)
    → items name (rr_by_name pkg records) ≡ owned pkg name records
unfolding rr_by_name items find
items-rr_by_name pkg name records = items-rr_by_name_onto pkg name records []
