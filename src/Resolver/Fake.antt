-- ===== src/Resolver/Fake.antt =====
-- internal/resolver/fake.go: the resolver that serves zones from memory. The maps are walked in
-- the order in which their keys were added, and dns.Copy copies a record as it is.
pub mod Longest
use zone_lint.Common.{
  ℕ, Bytes, text, eqb, to_lower, has_prefix, has_suffix, length, drop, take, Bool, true, false,
  ◌&&◌, ◌||◌, not, Option, none, some, List, [], ◌∷◌, ◌++◌, ◌==◌, ltb, leb, if◌then◌else◌,
}
use zone_lint.Common.Dict.{Dict, items, put}
use zone_lint.Dns.{a, soa, nsec, nsec3, rrsig, Rr, Slot, Msg, Package}
use zone_lint.Dns.Codes.{
  type_a, type_nsec, type_nsec3, type_any, type_axfr, rcode_success, rcode_name_error,
}
use zone_lint.Dns.Query.{Question}
use zone_lint.Dns.Rdata.{mapped_prefix}

pub record Zone : Type 0 where
  pub name : Bytes
  pub records : Dict (List Rr)
  pub transfer_allowed : Bool
  pub recursive : Bool
  pub soa_override : Option Rr

pub record LoggedQuery : Type 0 where
  pub name : Bytes
  pub qtype : ℕ
  pub server : Bytes

-- FakeResolver; a limit that is not positive is 0 here.
pub record FakeResolver : Type 0 where
  pub zones : Dict Zone
  pub default_fallback : List Slot
  pub query_log : List LoggedQuery
  pub transfer_limit : ℕ

-- The errors that it returns: ErrNoQuestion and ErrZoneRefused.
pub data FakeError : Type 0 where
  no_question : FakeError
  refused_zone : FakeError

unfoldable pub new_fake : FakeResolver
new_fake = record { zones = []; default_fallback = []; query_log = []; transfer_limit = 0 }

-- AddZone
unfoldable pub add_zone : Package → Zone → FakeResolver → FakeResolver
add_zone pkg z f = record f { zones = put (pkg.fqdn (to_lower z.name)) z f.zones }

-- record
unfoldable pub log_query : Question → FakeResolver → FakeResolver
log_query q f = record f {
  query_log = f.query_log ++ record { name = q.name; qtype = q.qtype; server = text "fake" } ∷ [];
}

-- The test of findZone: the name is that of the zone, or lies below it.
unfoldable pub covers : Package → Bytes → Zone → Bool
covers pkg name z =
    let lz = pkg.fqdn (to_lower z.name) in eqb name lz || has_suffix name (text "." ++ lz)

-- findZone: the best zone so far, none for nil and the length -1.
unfoldable pub is_longer : Zone → Option Zone → Bool
is_longer z none = true
is_longer z (some best) = ltb (length best.name) (length z.name)

unfoldable pub find_from : Package → Bytes → Option Zone → Dict Zone → Option Zone
find_from pkg name best [] = best
find_from pkg name best ((_, z) ∷ zones) =
    find_from pkg name (if covers pkg name z && is_longer z best then some z else best) zones

unfoldable pub find_zone : Package → Bytes → FakeResolver → Option Zone
find_zone pkg name f = find_from pkg name none f.zones

-- response
unfoldable pub response : ℕ → Msg
response rcode = record {
  rcode = rcode;
  authoritative = false;
  recursion_available = false;
  has_edns = false;
  answer = [];
  ns = [];
}

-- The records of a list that a query asks for.
unfoldable pub asked_for : ℕ → List Rr → List Slot
asked_for qtype [] = []
asked_for qtype (rr ∷ rrs) =
    let rest = asked_for qtype rrs in
    if rr.header.rrtype == qtype || qtype == type_any then some rr ∷ rest else rest

-- The wildcard records that match a name, with the name as their owner.
unfoldable pub renamed : Bytes → List Slot → List Slot
renamed name [] = []
renamed name (none ∷ rrs) = none ∷ renamed name rrs
renamed name (some rr ∷ rrs) =
    some (record rr { header = record rr.header { name = name } }) ∷ renamed name rrs

unfoldable pub wildcard_answer : Bytes → ℕ → Dict (List Rr) → List Slot
wildcard_answer name qtype [] = []
wildcard_answer name qtype ((key, rrs) ∷ m) =
    let rest = wildcard_answer name qtype m in
    if has_prefix key (text "*.") && has_suffix name (drop 2 key)
    then renamed name (asked_for qtype rrs) ++ rest
    else rest

-- The records of other owners than the zone, for a query for ANY.
unfoldable pub not_owned : Bytes → List Rr → List Slot
not_owned apex [] = []
not_owned apex (rr ∷ rrs) =
    let rest = not_owned apex rrs in if eqb rr.header.name apex then rest else some rr ∷ rest

unfoldable pub other_owners : Bytes → Dict (List Rr) → List Slot
other_owners apex [] = []
other_owners apex ((_, rrs) ∷ m) = not_owned apex rrs ++ other_owners apex m

-- zoneSOA
unfoldable pub first_soa_rr : List Rr → Option Rr
first_soa_rr [] = none
first_soa_rr (rr ∷ rrs) = elim rr.body [ soa _ ↦ some rr | _ ↦ first_soa_rr rrs ]

unfoldable pub zone_soa : Package → Zone → Option Rr
zone_soa pkg z = elim z.soa_override [
  | some rr ↦ some rr
  | none ↦ first_soa_rr (items (pkg.fqdn (to_lower z.name)) z.records)
]

-- The records that prove that a name does not exist, with their signatures.
unfoldable pub is_proof : Rr → Bool
is_proof rr = elim rr.body [
  | nsec _ _ ↦ true
  | nsec3 _ ↦ true
  | rrsig r ↦ r.type_covered == type_nsec || r.type_covered == type_nsec3
  | _ ↦ false
]

unfoldable pub proofs_in : List Rr → List Slot
proofs_in [] = []
proofs_in (rr ∷ rrs) = let rest = proofs_in rrs in if is_proof rr then some rr ∷ rest else rest

unfoldable pub proofs : Dict (List Rr) → List Slot
proofs [] = []
proofs ((_, rrs) ∷ m) = proofs_in rrs ++ proofs m

-- defaultRecursionAnswer: the address 93.184.216.34 in sixteen bytes.
unfoldable pub default_recursion_answer : Package → Question → FakeResolver → List Slot
default_recursion_answer pkg q f =
    if ltb 0 (length f.default_fallback)
    then f.default_fallback
    else some (record {
      header = record { name = pkg.fqdn (to_lower q.name); rrtype = type_a; ttl = 60 };
      body = a (some (mapped_prefix ++ 93 ∷ 184 ∷ 216 ∷ 34 ∷ []));
    })
      ∷ []

unfoldable pub is_empty : List Slot → Bool
is_empty [] = true
is_empty (rr ∷ rrs) = false

-- The sections of Query for a zone, before recursion.
unfoldable pub zone_answer : Zone → Package → Bytes → ℕ → List Slot
zone_answer z pkg name qtype =
    let exact = asked_for qtype (items name z.records) in
    let matched : List Slot =
      if is_empty exact then wildcard_answer name qtype z.records else exact in
    if qtype == type_any
    then matched ++ other_owners (pkg.fqdn (to_lower z.name)) z.records
    else matched

abbrev slot_list : Option Rr → List Slot
slot_list none = []
slot_list (some rr) = some rr ∷ []

unfoldable pub zone_response : Package → FakeResolver → Zone → Question → Msg
zone_response pkg f z q =
    let name = pkg.fqdn (to_lower q.name) in
    let answer = zone_answer z pkg name q.qtype in
    let resp = record (response rcode_success) {
      authoritative = true;
      answer = answer;
      ns = if is_empty answer then slot_list (zone_soa pkg z) ++ proofs z.records else [];
    } in
    if z.recursive && not (q.qtype == type_axfr)
    then record resp {
      recursion_available = true;
      answer = resp.answer ++ default_recursion_answer pkg q f;
    }
    else resp

-- Query; `none` for the question is a nil message or one without a question.
unfoldable pub fake_query : Package → Option Question → FakeResolver → Option Msg × FakeResolver
fake_query pkg none f = (none, f)
fake_query pkg (some q) f =
    let logged = log_query q f in
    let resp : Msg = elim (find_zone pkg (pkg.fqdn (to_lower q.name)) f) [
      | none ↦ response rcode_name_error
      | some z ↦ zone_response pkg f z q
    ] in
    (some resp, logged)

-- The loop of Transfer: it ends where the limit is reached, if there is one.
unfoldable pub limited : ℕ → List Rr → List Slot → List Slot
limited limit [] out = out
limited limit (rr ∷ rrs) out =
    let out' = out ++ some rr ∷ [] in
    let more = limited limit rrs out' in
    if ltb 0 limit && leb limit (length out') then out' else more

-- The result of Transfer: its records, or an error.
pub data FakeTransfer : Type 0 where
  served : List Slot → FakeTransfer
  denied : FakeError → FakeTransfer

unfoldable pub fake_transfer : Package → Option Question → FakeResolver → FakeTransfer
fake_transfer pkg none f = denied no_question
fake_transfer pkg (some q) f = elim (find_zone pkg (pkg.fqdn (to_lower q.name)) f) [
  | none ↦ denied refused_zone
  | some z ↦
      if not z.transfer_allowed
      then denied refused_zone
      else served (limited f.transfer_limit (items z.name z.records) [])
]
