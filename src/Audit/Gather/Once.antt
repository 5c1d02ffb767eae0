-- ===== src/Audit/Gather/Once.antt =====
-- The union of collectDNSSEC.
use zone_lint.Common.{
  append-nil, append_assoc, ℕ, suc, Bytes, eqb, eqb_iff, any, List, [], ◌∷◌, ◌++◌, Bool, false,
  ◌||◌, Option, none, some, ◌≡◌, ◌+◌, refl, sym, ap, ◌∙◌, arith, if◌then◌else◌, Bool-cases, inl,
  inr,
}
use zone_lint.Common.Dict.{member}
use zone_lint.Dns.{Rr, Slot, Msg, Package, Decoders}
use zone_lint.Dns.Codes.{type_dnskey, type_ds}
use zone_lint.Audit.{Options}
use zone_lint.Audit.Session.{Outside, Runner}
use zone_lint.Audit.Gather.{
  Gathered, record_key, Union, Section, answer_section, authority_section, append_to, DnssecData,
  add, add_all, merge_unit, merge_dnskey, merge_ds, merge_negative, start_dnssec, probe_answer, ask,
  ask_random, collect_dnssec,
}

-- The responses so far, and one more where it came.
abbrev with_answer : List Msg → Option Msg → List Msg
with_answer more none = more
with_answer more (some resp) = more ++ resp ∷ []

module _ (dec : Decoders) (pkg : Package) (show : Rr → Bytes) (k : Bytes) where
  -- How many records of a section have the key, and whether one has.
  unfoldable pub occurrences : List Slot → ℕ
  occurrences [] = 0
  occurrences (none ∷ rest) = occurrences rest
  occurrences (some rr ∷ rest) =
      let later = occurrences rest in
      if eqb (record_key dec pkg show rr) k then suc later else later

  unfoldable pub occurs : List Slot → Bool
  occurs [] = false
  occurs (none ∷ rest) = occurs rest
  occurs (some rr ∷ rest) = eqb (record_key dec pkg show rr) k || occurs rest

  -- Whether a record of some response has it.
  abbrev pub occurs_in : List Msg → Bool
  occurs_in = any (λ u. occurs u.answer || occurs u.ns)

  occurrences-snoc :
      (xs : List Slot) (rr : Rr)
      → occurrences (xs ++ some rr ∷ [])
        ≡ occurrences xs + (if eqb (record_key dec pkg show rr) k then 1 else 0)
  unfolding occurrences
  occurrences-snoc [] rr = ground arith
  occurrences-snoc (none ∷ xs) rr = occurrences-snoc xs rr
  occurrences-snoc (some x ∷ xs) rr = ground (arith, occurrences-snoc xs rr)

  -- The key was seen exactly if one record of the union has it, and then no other has.
  IsOnce : Union → Type 0
  IsOnce u = occurrences u.answer + occurrences u.ns ≡ (if member k u.seen then 1 else 0)

  append_to-IsOnce :
      (section : Section) (rr : Rr) (u : Union)
      → member (record_key dec pkg show rr) u.seen ≡ false
      → IsOnce u
      → IsOnce
          (append_to section (some rr) (record u { seen = record_key dec pkg show rr ∷ u.seen }))
  unfolding append_to IsOnce member
  append_to-IsOnce answer_section rr u new h =
      ground (arith, occurrences-snoc u.answer rr, eqb_iff (record_key dec pkg show rr) k)
  append_to-IsOnce authority_section rr u new h =
      ground (arith, occurrences-snoc u.ns rr, eqb_iff (record_key dec pkg show rr) k)

  add-IsOnce :
      (section : Section) (rr : Slot) (u : Union)
      → IsOnce u
      → IsOnce (add dec pkg show section rr u)
  unfolding add
  add-IsOnce section none u h = h
  add-IsOnce section (some rr) u h =
      elim (Bool-cases (member (record_key dec pkg show rr) u.seen)) [
        | inl e ↦ rw (e, add) h
        | inr e ↦ rw (e, add) (append_to-IsOnce section rr u e h)
      ]

  add-seen :
      (section : Section) (rr : Rr) (u : Union)
      → member k (add dec pkg show section (some rr) u).seen
        ≡ (member k u.seen || eqb (record_key dec pkg show rr) k)
  unfolding add append_to member
  add-seen answer_section rr u = ground (arith, eqb_iff (record_key dec pkg show rr) k)
  add-seen authority_section rr u = ground (arith, eqb_iff (record_key dec pkg show rr) k)

  add_all-IsOnce :
      (section : Section) (rrs : List Slot) (u : Union)
      → IsOnce u
      → IsOnce (add_all dec pkg show section rrs u)
  unfolding add_all
  add_all-IsOnce section [] u h = h
  add_all-IsOnce section (rr ∷ rrs) u h =
      add_all-IsOnce section rrs (add dec pkg show section rr u) (add-IsOnce section rr u h)

  add_all-seen :
      (section : Section) (rrs : List Slot) (u : Union)
      → member k (add_all dec pkg show section rrs u).seen ≡ (member k u.seen || occurs rrs)
  unfolding add_all occurs add
  add_all-seen section [] u = ground arith
  add_all-seen section (none ∷ rrs) u = add_all-seen section rrs u
  add_all-seen section (some rr ∷ rrs) u = ground (
    arith,
    add_all-seen section rrs (add dec pkg show section (some rr) u),
    add-seen section rr u,
  )

  occurs_in-snoc :
      (units : List Msg) (resp : Msg)
      → occurs_in (units ++ resp ∷ []) ≡ (occurs_in units || (occurs resp.answer || occurs resp.ns))
  occurs_in-snoc [] resp = ground arith
  occurs_in-snoc (u ∷ units) resp = ground (arith, occurs_in-snoc units resp)

  -- What was gathered so far, from the records at hand and from the responses since.
  record Merged (g : Gathered) (initial : Msg) (more : List Msg) (d : DnssecData) : Type 0 where
    units : d.units ≡ (initial ∷ g.units) ++ more
    once : IsOnce d.combined
    whole : member k d.combined.seen ≡ (occurs g.all || occurs_in (initial ∷ more))

  Merged-start :
      (g : Gathered) (initial : Msg) → Merged g initial [] (start_dnssec dec pkg show initial g)
  unfolding start_dnssec IsOnce occurrences member
  Merged-start g initial =
      let empty : Union = record { seen = []; answer = []; ns = [] } in
      let first = add_all dec pkg show answer_section initial.answer empty in
      let second = add_all dec pkg show authority_section initial.ns first in
      record {
        units = sym (append-nil (initial ∷ g.units));
        once = add_all-IsOnce answer_section g.all second (
            add_all-IsOnce authority_section initial.ns first
              (add_all-IsOnce answer_section initial.answer empty refl));
        whole = ground (
          arith,
          add_all-seen answer_section g.all second,
          add_all-seen authority_section initial.ns first,
          add_all-seen answer_section initial.answer empty,
        );
      }

  Merged-unit :
      (g : Gathered) (initial : Msg) (more : List Msg) (d : DnssecData) (resp : Msg)
      → Merged g initial more d
      → Merged g initial (more ++ resp ∷ []) (merge_unit dec pkg show resp d)
  unfolding merge_unit
  Merged-unit g initial more d resp m =
      let first = add_all dec pkg show answer_section resp.answer d.combined in
      let whole = m.whole in
      record {
        units =
            ap (λ us. us ++ resp ∷ []) m.units ∙ append_assoc (initial ∷ g.units) more (resp ∷ []);
        once =
            add_all-IsOnce authority_section resp.ns first
              (add_all-IsOnce answer_section resp.answer d.combined m.once);
        whole = ground (
          arith,
          add_all-seen authority_section resp.ns first,
          add_all-seen answer_section resp.answer d.combined,
          occurs_in-snoc (initial ∷ more) resp,
        );
      }

  Merged-dnskey :
      (g : Gathered) (initial : Msg) (more : List Msg) (d : DnssecData) (answer : Option Msg)
      → Merged g initial more d
      → Merged g initial (with_answer more answer) (merge_dnskey dec pkg show answer d)
  unfolding merge_dnskey
  Merged-dnskey g initial more d none m = m
  Merged-dnskey g initial more d (some resp) m =
      let v = Merged-unit g initial more d resp m in
      record { units = v.units; once = v.once; whole = v.whole }

  Merged-ds :
      (g : Gathered) (initial : Msg) (more : List Msg) (d : DnssecData) (answer : Option Msg)
      → Merged g initial more d
      → Merged g initial (with_answer more answer) (merge_ds dec pkg show answer d)
  unfolding merge_ds
  Merged-ds g initial more d none m = m
  Merged-ds g initial more d (some resp) m =
      let v = Merged-unit g initial more d resp m in
      record { units = v.units; once = v.once; whole = v.whole }

  Merged-negative :
      (g : Gathered) (initial : Msg) (more : List Msg) (d : DnssecData) (answer : Option Msg)
      → Merged g initial more d
      → Merged g initial (with_answer more answer) (merge_negative dec pkg show answer d)
  unfolding merge_negative
  Merged-negative g initial more d none m = m
  Merged-negative g initial more d (some resp) m = Merged-unit g initial more d resp m

-- The answers of collectDNSSEC to the queries for DNSKEY and DS and to the negative probe, as far
-- as they came.
module _ {W : Type 0} (out : Outside W) (opt : Options) (pkg : Package) where
  abbrev pub answers : Bytes → Runner W → List Msg
  answers zone r =
      let dnskey = ask out opt pkg zone type_dnskey r in
      let ds = ask out opt pkg zone type_ds dnskey.1 in
      let probe = ask_random out opt pkg zone ds.1 in
      with_answer (with_answer (with_answer [] dnskey.0) ds.0) (probe_answer probe.0)

  -- The union of collectDNSSEC holds one record of a key if the first response, the records at the
  -- apex or some answer to its queries has a record of that key, and none otherwise; the first
  -- response, those at the apex and these answers are the units, in this order.
  pub collect_dnssec-once :
      (dec : Decoders) (show : Rr → Bytes) (zone : Bytes) (initial : Msg) (g : Gathered)
      (r : Runner W) (k : Bytes)
      → let d = (collect_dnssec out opt pkg dec show zone initial g r).0 in
        (d.units ≡ (initial ∷ g.units) ++ answers zone r)
        × (occurrences dec pkg show k d.combined.answer + occurrences dec pkg show k d.combined.ns
            ≡ (if occurs dec pkg show k g.all || occurs_in dec pkg show k (initial ∷ answers zone r)
                then 1
                else 0))
  unfolding collect_dnssec IsOnce
  collect_dnssec-once dec show zone initial g r k =
      let dnskey = ask out opt pkg zone type_dnskey r in
      let ds = ask out opt pkg zone type_ds dnskey.1 in
      let probe = ask_random out opt pkg zone ds.1 in
      let start = start_dnssec dec pkg show initial g in
      let keyed = merge_dnskey dec pkg show dnskey.0 start in
      let since = with_answer (with_answer [] dnskey.0) ds.0 in
      let two : Merged dec pkg show k g initial since (merge_ds dec pkg show ds.0 keyed) =
        Merged-ds dec pkg show k g initial (with_answer [] dnskey.0) keyed ds.0 (
          Merged-dnskey dec pkg show k g initial [] start dnskey.0
            (Merged-start dec pkg show k g initial)) in
      let all =
        Merged-negative dec pkg show k g initial since (merge_ds dec pkg show ds.0 keyed)
          (probe_answer probe.0) two in
      (all.units, all.once ∙ ap (λ b. if b then 1 else 0) all.whole)
