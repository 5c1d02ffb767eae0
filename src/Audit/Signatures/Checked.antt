-- ===== src/Audit/Signatures/Checked.antt =====
-- The signatures that verifySignatures is to check.
use zone_lint.Common.{
  ℕ, Bytes, text, has_suffix, eqb_iff, to_lower, length, ltb, Any, true, none, List, [], ◌∷◌, ◌++◌,
  ◌≡◌, ◌≢◌, ◌↔◌, ◌⊎◌, map, arith,
}
use zone_lint.Common.Dict.{Dict}
use zone_lint.Dns.{Slot, Msg, Package, Rr}
use zone_lint.Dnssec.Keys.{Codec, KeyInfo, RrsigInfo}
use zone_lint.Dnssec.Chain.{ZoneKeys, collect, merge, records_at}
use zone_lint.Dnssec.Verify.{Primitives, has_key_for_tag, key_for_key_tag, key_in_map, key_in}
use zone_lint.Audit.Gather.{sections}
use zone_lint.Audit.Signatures.{at_or_below, stat_key, is_checkable}

-- A signature as it stands in a response: the contents of the response, with the keys of the zone,
-- the name of the record in lower case, and the signature.
pub record Entry : Type 0 where
  pub content : ZoneKeys
  pub name : Bytes
  pub sig : RrsigInfo

-- A signature of an RRset of the zone that can be checked: the name is the apex or below it, the
-- covered type is not DS, and the response has records of that name and type and a key with the tag.
abbrev pub IsChecked : Bytes → Entry → Type 0
IsChecked apex e =
    ((e.name ≡ apex) ⊎ (has_suffix e.name (text "." ++ apex) ≡ true))
    × ((e.sig.type_covered ≢ 43)
        × ((records_at e.name e.sig.type_covered e.content ≢ [])
            × Any (λ key. key.key_tag ≡ e.sig.key_tag) (merge e.content.dnskeys)))

-- It can be checked and belongs to the RRset of a key of the counters.
abbrev pub Concerns : Bytes → Bytes → Entry → Type 0
Concerns apex k e = IsChecked apex e × (stat_key e.name e.sig.type_covered ≡ k)

module _ (codec : Codec) (pkg : Package) where
  -- All signatures of a response, and of all the responses, each with the keys of the zone.
  unfoldable pub entries_of : ZoneKeys → Dict (List RrsigInfo) → List Entry
  entries_of zk [] = []
  entries_of zk ((name, sigs) ∷ m) =
      map (λ sig. record { content = zk; name = pkg.fqdn (to_lower name); sig = sig }) sigs
      ++ entries_of zk m

  unfoldable pub all_entries : List Slot → List Msg → List Entry
  all_entries keys [] = []
  all_entries keys (unit ∷ units) =
      let zk = collect codec pkg (sections (unit.answer ++ keys) unit.ns) in
      entries_of zk zk.rrsigs ++ all_entries keys units

key_in_iff :
    (tag : ℕ) (keys : List KeyInfo) → (key_in tag keys ≢ none) ↔ Any (λ key. key.key_tag ≡ tag) keys
unfolding key_in
key_in_iff tag [] = ground arith
key_in_iff tag (key ∷ keys) = ground (arith, key_in_iff tag keys)

Any-append :
    (P : KeyInfo → Type 0) (xs ys : List KeyInfo) → Any P (xs ++ ys) ↔ (Any P xs ⊎ Any P ys)
Any-append P [] ys = ground arith
Any-append P (x ∷ xs) ys = ground (arith, Any-append P xs ys)

key_in_map_iff :
    (tag : ℕ) (m : Dict (List KeyInfo))
    → (key_in_map tag m ≢ none) ↔ Any (λ key. key.key_tag ≡ tag) (merge m)
unfolding key_in_map merge
key_in_map_iff tag [] = ground arith
key_in_map_iff tag ((name, keys) ∷ m) =
    let both = Any-append (λ key. key.key_tag ≡ tag) keys (merge m) in
    ground (arith, key_in_iff tag keys, key_in_map_iff tag m, both)

has_key_for_tag_iff :
    (zk : ZoneKeys) (tag : ℕ)
    → (has_key_for_tag zk tag ≡ true) ↔ Any (λ key. key.key_tag ≡ tag) (merge zk.dnskeys)
unfolding has_key_for_tag key_for_key_tag
has_key_for_tag_iff zk tag = ground (arith, key_in_map_iff tag zk.dnskeys)

some-records_iff : (rrs : List Rr) → (ltb 0 (length rrs) ≡ true) ↔ (rrs ≢ [])
some-records_iff [] = ground arith
some-records_iff (rr ∷ rrs) = ground arith

-- The guards of the code are those of IsChecked.
pub is_checkable_iff :
    (prim : Primitives) (codec : Codec) (pkg : Package) (apex lname : Bytes) (zk : ZoneKeys)
    (sig : RrsigInfo)
    → at_or_below lname apex ≡ true
    → (is_checkable prim codec pkg zk lname sig ≡ true)
      ↔ IsChecked apex (record { content = zk; name = lname; sig = sig })
unfolding is_checkable at_or_below
is_checkable_iff prim codec pkg apex lname zk sig inside = ground (
  arith,
  eqb_iff lname apex,
  some-records_iff (records_at lname sig.type_covered zk),
  has_key_for_tag_iff zk sig.key_tag,
)

pub at_or_below-IsChecked :
    (apex : Bytes) (e : Entry) → IsChecked apex e → at_or_below e.name apex ≡ true
unfolding at_or_below
at_or_below-IsChecked apex e h = ground (arith, eqb_iff e.name apex, h.0)
