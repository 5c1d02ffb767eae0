-- ===== src/Dnssec/Chain/Covered.antt =====
-- The records that Collect files under a name and a type.
use zone_lint.Common.{
  append-nil, append_assoc, ℕ, Bytes, eqb, eqb_iff, to_lower, List, [], ◌∷◌, ◌++◌, ◌&&◌, none, some,
  ◌==◌, ◌≡◌, ◌∙◌, sym, ap, arith, if◌then◌else◌,
}
use zone_lint.Common.Dict.{find, items, find-put}
use zone_lint.Dns.{Rr, Slot, Msg, Package}
use zone_lint.Dnssec.Keys.{Codec}
use zone_lint.Dnssec.Chain.{
  Typed, typed_items, typed_push, ZoneKeys, records_at, add_record, collect_record, collect_section,
  collect,
}

-- The records of a section with a name, up to case, and a type, in the order of the section.
unfoldable pub named : Package → Bytes → ℕ → List Slot → List Rr
named pkg name t [] = []
named pkg name t (none ∷ rest) = named pkg name t rest
named pkg name t (some rr ∷ rest) =
    let later = named pkg name t rest in
    if eqb (pkg.fqdn (to_lower rr.header.name)) name && rr.header.rrtype == t
    then rr ∷ later
    else later

typed_items-push :
    (t u : ℕ) (rr : Rr) (m : Typed)
    → typed_items t (typed_push u rr m)
      ≡ (if u == t then typed_items t m ++ rr ∷ [] else typed_items t m)
unfolding typed_items typed_push
typed_items-push t u rr [] = ground arith
typed_items-push t u rr ((v, rrs) ∷ m) = ground (arith, typed_items-push t u rr m)

records_at-add_record :
    (name at : Bytes) (t : ℕ) (rr : Rr) (zk : ZoneKeys)
    → records_at name t (add_record at rr zk) ≡ (
        if eqb at name && rr.header.rrtype == t
        then records_at name t zk ++ rr ∷ []
        else records_at name t zk)
unfolding records_at add_record items
records_at-add_record name at t rr zk =
    let filed = typed_push rr.header.rrtype rr (items at zk.by_type) in
    ground (
      arith,
      find-put at name filed zk.by_type,
      typed_items-push t rr.header.rrtype rr (items at zk.by_type),
      eqb_iff at name,
    )

collect_record-by_type :
    (codec : Codec) (pkg : Package) (rr : Rr) (zk : ZoneKeys)
    → (collect_record codec pkg (some rr) zk).by_type
      ≡ (add_record (pkg.fqdn (to_lower rr.header.name)) rr zk).by_type
unfolding collect_record
collect_record-by_type codec pkg rr zk = ground arith

records_at-collect_record :
    (codec : Codec) (pkg : Package) (name : Bytes) (t : ℕ) (rr : Rr) (zk : ZoneKeys)
    → records_at name t (collect_record codec pkg (some rr) zk) ≡ (
        if eqb (pkg.fqdn (to_lower rr.header.name)) name && rr.header.rrtype == t
        then records_at name t zk ++ rr ∷ []
        else records_at name t zk)
unfolding records_at
records_at-collect_record codec pkg name t rr zk =
    ap (λ m. typed_items t (items name m)) (collect_record-by_type codec pkg rr zk)
    ∙ records_at-add_record name (pkg.fqdn (to_lower rr.header.name)) t rr zk

records_at-collect_section :
    (codec : Codec) (pkg : Package) (name : Bytes) (t : ℕ) (sec : List Slot) (zk : ZoneKeys)
    → records_at name t (collect_section codec pkg sec zk)
      ≡ records_at name t zk ++ named pkg name t sec
unfolding collect_section named collect_record
records_at-collect_section codec pkg name t [] zk = sym (append-nil (records_at name t zk))
records_at-collect_section codec pkg name t (none ∷ sec) zk =
    records_at-collect_section codec pkg name t sec zk
records_at-collect_section codec pkg name t (some rr ∷ sec) zk =
    let at = pkg.fqdn (to_lower rr.header.name) in
    records_at-collect_section codec pkg name t sec (collect_record codec pkg (some rr) zk)
    ∙ ground (
      arith,
      records_at-collect_record codec pkg name t rr zk,
      append_assoc (records_at name t zk) (rr ∷ []) (named pkg name t sec),
    )

-- Collect files under a name and a type exactly the records of the response that have them, the
-- name up to case: those of the answer section and then those of the authority section, each in
-- the order of its section and as often as it stands there.
pub records_at-collect :
    (codec : Codec) (pkg : Package) (name : Bytes) (t : ℕ) (resp : Msg)
    → records_at name t (collect codec pkg resp)
      ≡ named pkg name t resp.answer ++ named pkg name t resp.ns
unfolding collect records_at items typed_items find
records_at-collect codec pkg name t resp =
    let start : ZoneKeys = record { dnskeys = []; rrsigs = []; dss = []; by_type = [] } in
    records_at-collect_section codec pkg name t resp.ns
      (collect_section codec pkg resp.answer start)
    ∙ ap (λ rrs. rrs ++ named pkg name t resp.ns)
        (records_at-collect_section codec pkg name t resp.answer start)
