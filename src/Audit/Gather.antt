-- ===== src/Audit/Gather.antt =====
-- internal/audit/audit.go: collectApexRecords and collectDNSSEC.
pub mod Once
use zone_lint.Common.{
  ℕ, Bytes, text, itoa, to_lower, Bool, true, false, Option, none, some, List, [], ◌∷◌, ◌++◌,
  if◌then◌else◌,
}
use zone_lint.Common.Dict.{member}
use zone_lint.Dns.{Rr, Slot, Msg, Package, Decoders}
use zone_lint.Dns.Codes.{
  type_a, type_aaaa, type_mx, type_cname, type_txt, type_caa, type_dnskey, type_ds, rcode_success,
}
use zone_lint.Dns.Query.{safe_new_msg}
use zone_lint.Dns.Rdata.{rr_data}
use zone_lint.Dns.Records.{as_ns}
use zone_lint.Audit.{Options}
use zone_lint.Audit.Session.{Outside, Runner, query, random_name}

-- The records and the responses that collectApexRecords returns.
pub record Gathered : Type 0 where
  pub all : List Slot
  pub units : List Msg

-- One round of a loop of collectApexRecords; the authority section counts at the apex only.
unfoldable pub gather_answer : Bool → Option Msg → Gathered → Gathered
gather_answer authority none g = g
gather_answer authority (some resp) g = record {
  all = g.all ++ (resp.answer ++ (if authority then resp.ns else []));
  units = g.units ++ resp ∷ [];
}

-- The identity of a record: owner, type and RDATA, or the text of a record without RDATA; the
-- text is a parameter. The function rrKey and the key in collectDNSSEC.
unfoldable pub rr_key : Decoders → Package → (Rr → Bytes) → Rr → Bytes
rr_key dec pkg show rr = elim (rr_data dec pkg rr) [ some rd ↦ rd | none ↦ show rr ]

unfoldable pub record_key : Decoders → Package → (Rr → Bytes) → Rr → Bytes
record_key dec pkg show rr =
    pkg.fqdn (to_lower rr.header.name)
    ++ (text "|" ++ (itoa rr.header.rrtype ++ (text "|" ++ rr_key dec pkg show rr)))

-- The keys that were seen, and the sections of the message `combined`.
pub record Union : Type 0 where
  pub seen : List Bytes
  pub answer : List Slot
  pub ns : List Slot

-- The two sections that `add` extends.
pub data Section : Type 0 where
  answer_section : Section
  authority_section : Section

unfoldable pub append_to : Section → Slot → Union → Union
append_to answer_section rr u = record u { answer = u.answer ++ rr ∷ [] }
append_to authority_section rr u = record u { ns = u.ns ++ rr ∷ [] }

-- dnssecData
pub record DnssecData : Type 0 where
  pub units : List Msg
  pub keys : List Slot
  pub combined : Union
  pub ds : Msg

-- A message of which only the sections are used.
unfoldable pub sections : List Slot → List Slot → Msg
sections answer ns = record {
  rcode = rcode_success;
  authoritative = false;
  recursion_available = false;
  has_edns = false;
  answer = answer;
  ns = ns;
}

module _ (dec : Decoders) (pkg : Package) (show : Rr → Bytes) where
  -- add and addAll of collectDNSSEC
  unfoldable pub add : Section → Slot → Union → Union
  add section none u = u
  add section (some rr) u =
      let key = record_key dec pkg show rr in
      if member key u.seen
      then u
      else append_to section (some rr) (record u { seen = key ∷ u.seen })

  unfoldable pub add_all : Section → List Slot → Union → Union
  add_all section [] u = u
  add_all section (rr ∷ rrs) u = add_all section rrs (add section rr u)

  -- A response is kept as a unit and merged into the union.
  unfoldable pub merge_unit : Msg → DnssecData → DnssecData
  merge_unit resp d = record d {
    units = d.units ++ resp ∷ [];
    combined = add_all authority_section resp.ns (add_all answer_section resp.answer d.combined);
  }

  -- The rounds of the loop over DNSKEY and DS, and the negative probe.
  unfoldable pub merge_dnskey : Option Msg → DnssecData → DnssecData
  merge_dnskey none d = d
  merge_dnskey (some resp) d =
      let d' = merge_unit resp d in record d' { keys = d'.keys ++ resp.answer }

  unfoldable pub merge_ds : Option Msg → DnssecData → DnssecData
  merge_ds none d = d
  merge_ds (some resp) d =
      let d' = merge_unit resp d in
      record d' { ds = sections (d'.ds.answer ++ resp.answer) (d'.ds.ns ++ resp.ns) }

  unfoldable pub merge_negative : Option Msg → DnssecData → DnssecData
  merge_negative none d = d
  merge_negative (some resp) d = merge_unit resp d

  -- What collectDNSSEC starts with, before its queries.
  unfoldable pub start_dnssec : Msg → Gathered → DnssecData
  start_dnssec initial g = record {
    units = initial ∷ g.units;
    keys = [];
    combined = add_all answer_section g.all (
        add_all authority_section initial.ns
          (add_all answer_section initial.answer (record { seen = []; answer = []; ns = [] })));
    ds = sections [] [];
  }

-- The response to a query for a random name, where there is one.
unfoldable pub probe_answer : Option (Bytes × Option Msg) → Option Msg
probe_answer none = none
probe_answer (some (name, answer)) = answer

-- The types that collectApexRecords asks for at the apex.
abbrev pub apex_types : List ℕ
apex_types = type_a ∷ type_aaaa ∷ type_mx ∷ type_cname ∷ type_txt ∷ type_caa ∷ []

module _ {W : Type 0} (out : Outside W) (opt : Options) (pkg : Package) where
  unfoldable pub ask : Bytes → ℕ → Runner W → Option Msg × Runner W
  ask name typ r = query out opt (safe_new_msg pkg name typ) r

  unfoldable pub gather_types : Bool → Bytes → List ℕ → Gathered → Runner W → Gathered × Runner W
  gather_types authority name [] g r = (g, r)
  gather_types authority name (typ ∷ types) g r =
      let answer = ask name typ r in
      gather_types authority name types (gather_answer authority answer.0 g) answer.1

  -- The loop over the NS records of the answer section.
  unfoldable pub gather_hosts : List Slot → List Bytes → Gathered → Runner W → Gathered × Runner W
  gather_hosts [] seen g r = (g, r)
  gather_hosts (rr ∷ rest) seen g r = elim (as_ns rr) [
    | none ↦ gather_hosts rest seen g r
    | some host ↦
        let name = to_lower (pkg.fqdn host) in
        elim (member name seen) [
          | true ↦ gather_hosts rest seen g r
          | false ↦
              let asked = gather_types false name (type_a ∷ type_aaaa ∷ []) g r in
              gather_hosts rest (name ∷ seen) asked.0 asked.1
        ]
  ]

  -- collectApexRecords
  unfoldable pub collect_apex_records : Bytes → Msg → Runner W → Gathered × Runner W
  collect_apex_records zone initial r =
      let start : Gathered = record { all = initial.answer ++ initial.ns; units = [] } in
      let apex = gather_types true zone apex_types start r in
      gather_hosts initial.answer [] apex.0 apex.1

  -- A query for a random name of the zone; none is sent where there is no random name.
  unfoldable pub ask_random : Bytes → Runner W → Option (Bytes × Option Msg) × Runner W
  ask_random zone r =
      let named = random_name out opt zone r in
      elim named.0 [
        | none ↦ (none, named.1)
        | some name ↦ let answer = ask name type_a named.1 in (some (name, answer.0), answer.1)
      ]

  -- collectDNSSEC
  unfoldable pub collect_dnssec :
      Decoders → (Rr → Bytes) → Bytes → Msg → Gathered → Runner W → DnssecData × Runner W
  collect_dnssec dec show zone initial g r =
      let dnskey = ask zone type_dnskey r in
      let ds = ask zone type_ds dnskey.1 in
      let probe = ask_random zone ds.1 in
      let d =
        merge_ds dec pkg show ds.0
          (merge_dnskey dec pkg show dnskey.0 (start_dnssec dec pkg show initial g)) in
      (merge_negative dec pkg show (probe_answer probe.0) d, probe.1)
