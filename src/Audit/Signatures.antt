-- ===== src/Audit/Signatures.antt =====
-- internal/audit/audit.go: verifySignatures. A Go map is walked in the order in which its keys
-- were added.
pub mod Checked
pub mod Tally
pub mod Counted
use zone_lint.Common.{
  ℕ, Bytes, text, itoa, eqb, has_suffix, to_lower, length, Bool, true, false, ◌||◌, ◌&&◌, not,
  Option, none, some, List, [], ◌∷◌, ◌++◌, ◌+◌, ◌==◌, ltb, if◌then◌else◌,
}
use zone_lint.Common.Dict.{Dict, find, put}
use zone_lint.Dns.{Slot, Msg, Package}
use zone_lint.Dns.Codes.{type_ds}
use zone_lint.Findings.{Finding, new}
use zone_lint.Findings.Catalog.{dnssec_invalid_sig}
use zone_lint.Dnssec.Keys.{Codec, RrsigInfo}
use zone_lint.Dnssec.Chain.{ZoneKeys, collect, records_at}
use zone_lint.Dnssec.Verify.{Primitives, has_key_for_tag, verify_rrsig_for_type}
use zone_lint.Audit.Gather.{DnssecData, sections}

-- pairStat
pub record PairStat : Type 0 where
  pub passes : ℕ
  pub fails : ℕ
  pub name : Bytes
  pub rtype : ℕ
  pub key_tag : ℕ

-- The name lies in the zone: it is the apex or below it.
unfoldable pub at_or_below : Bytes → Bytes → Bool
at_or_below lname apex = eqb lname apex || has_suffix lname (text "." ++ apex)

-- stats[key], or a new entry for the signature.
unfoldable pub stat_for : Bytes → RrsigInfo → Option PairStat → PairStat
stat_for lname sig (some st) = st
stat_for lname sig none = record {
  passes = 0;
  fails = 0;
  name = lname;
  rtype = sig.type_covered;
  key_tag = sig.key_tag;
}

unfoldable pub counted : Bool → PairStat → PairStat
counted failed st =
    if failed then record st { fails = st.fails + 1 } else record st { passes = st.passes + 1 }

unfoldable pub is_failure : Option ℕ → Bool
is_failure none = false
is_failure (some i) = true

-- The key of stats.
unfoldable pub stat_key : Bytes → ℕ → Bytes
stat_key lname rtype = lname ++ (text "/" ++ itoa rtype)

module _ (prim : Primitives) (codec : Codec) (pkg : Package) where
  -- The guards before a signature is counted.
  unfoldable pub is_checkable : ZoneKeys → Bytes → RrsigInfo → Bool
  is_checkable zk lname sig =
      not (sig.type_covered == type_ds)
      && (ltb 0 (length (records_at lname sig.type_covered zk)) && has_key_for_tag zk sig.key_tag)

  -- One round of the loop over the signatures of a name.
  unfoldable pub count_sig : ZoneKeys → Bytes → RrsigInfo → Dict PairStat → Dict PairStat
  count_sig zk lname sig stats =
      let key = stat_key lname sig.type_covered in
      let failed =
        is_failure (verify_rrsig_for_type prim codec.decoders pkg zk lname sig.type_covered) in
      if is_checkable zk lname sig
      then put key (counted failed (stat_for lname sig (find key stats))) stats
      else stats

  unfoldable pub count_sigs : ZoneKeys → Bytes → List RrsigInfo → Dict PairStat → Dict PairStat
  count_sigs zk lname [] stats = stats
  count_sigs zk lname (sig ∷ sigs) stats = count_sigs zk lname sigs (count_sig zk lname sig stats)

  -- The loop over the names.
  unfoldable pub count_names :
      Bytes → ZoneKeys → Dict (List RrsigInfo) → Dict PairStat → Dict PairStat
  count_names apex zk [] stats = stats
  count_names apex zk ((name, sigs) ∷ m) stats =
      let lname = pkg.fqdn (to_lower name) in
      count_names apex zk m
        (if at_or_below lname apex then count_sigs zk lname sigs stats else stats)

  -- The loop over the responses, each with the keys of the zone attached.
  unfoldable pub count_units : Bytes → List Slot → List Msg → Dict PairStat → Dict PairStat
  count_units apex keys [] stats = stats
  count_units apex keys (unit ∷ units) stats =
      let zk = collect codec pkg (sections (unit.answer ++ keys) unit.ns) in
      count_units apex keys units (count_names apex zk zk.rrsigs stats)

unfoldable pub invalid_finding : Package → Bytes → PairStat → Finding
invalid_finding pkg zone st =
    new dnssec_invalid_sig zone
      (text
        "An RRSIG does not verify against the zone DNSKEY, so the covered records fail validation.")
      ((text "name="
          ++ (st.name
              ++ (text " type="
                  ++ (pkg.type_to_string st.rtype ++ (text " keytag=" ++ itoa st.key_tag)))))
        ∷ [])

-- The loop over stats: the findings, and the number of RRsets that were verified.
unfoldable pub judge : Package → Bytes → Dict PairStat → List Finding → ℕ → List Finding × ℕ
judge pkg zone [] out verified = (out, verified)
judge pkg zone ((_, st) ∷ stats) out verified =
    if ltb 0 st.passes
    then judge pkg zone stats out (verified + 1)
    else if ltb 0 st.fails
    then judge pkg zone stats (out ++ invalid_finding pkg zone st ∷ []) verified
    else judge pkg zone stats out verified

-- verifySignatures
unfoldable pub verify_signatures :
    Primitives → Codec → Package → Bytes → DnssecData → List Finding × ℕ
verify_signatures prim codec pkg zone d =
    let apex = pkg.fqdn (to_lower zone) in
    judge pkg zone (count_units prim codec pkg apex d.keys d.units []) [] 0
