-- ===== src/Audit/Signatures/Counted.antt =====
-- What the counters of verifySignatures count.
use zone_lint.Common.{
  Bytes, eqb, eqb_iff, to_lower, true, false, Option, none, some, List, [], ◌∷◌, ◌++◌, map, ◌≡◌,
  refl, sym, ap, ◌∙◌, subst, arith, if◌then◌else◌, Bool-cases, Option-cases, inl, inr,
}
use zone_lint.Common.Dict.{Dict, find, put, find-put}
use zone_lint.Dns.{Slot, Msg, Package}
use zone_lint.Dnssec.Keys.{Codec, RrsigInfo}
use zone_lint.Dnssec.Chain.{ZoneKeys, collect}
use zone_lint.Dnssec.Verify.{Primitives}
use zone_lint.Audit.Gather.{sections}
use zone_lint.Audit.Signatures.{
  PairStat, at_or_below, stat_for, counted, is_failure, stat_key, is_checkable, count_sig,
  count_sigs, count_names, count_units,
}
use zone_lint.Audit.Signatures.Tally.{
  passes_of, fails_of, passes_at, fails_at, outcome, Tally, over, passed, failed, Tally-at, Gains,
  Gains-none, Gains-then, Gains-other,
}
use zone_lint.Audit.Signatures.Checked.{
  Entry, Concerns, entries_of, all_entries, is_checkable_iff, at_or_below-IsChecked,
}

module _ (prim : Primitives) (codec : Codec) (pkg : Package) where
  stat_for-counters :
      (lname : Bytes) (sig : RrsigInfo) (o : Option PairStat)
      → ((stat_for lname sig o).passes ≡ passes_of o) × ((stat_for lname sig o).fails ≡ fails_of o)
  unfolding stat_for
  stat_for-counters lname sig none = (refl, refl)
  stat_for-counters lname sig (some st) = (refl, refl)

  -- A signature whose RRset is counted under the key.
  Gains-counted :
      (apex k : Bytes) (e : Entry) (stats : Dict PairStat)
      → Concerns apex k e
      → Gains prim codec pkg apex k stats (e ∷ []) (
          put k
            (counted (is_failure (outcome prim codec pkg e)) (stat_for e.name e.sig (find k stats)))
            stats)
  unfolding passes_at fails_at counted stat_for is_failure
  Gains-counted apex k e stats h =
      let st = stat_for e.name e.sig (find k stats) in
      let put_at = find-put k k (counted (is_failure (outcome prim codec pkg e)) st) stats in
      let before = stat_for-counters e.name e.sig (find k stats) in
      elim (Option-cases (outcome prim codec pkg e)) [
        | inl o ↦ record {
          passes = 1;
          fails = 0;
          tally = passed e h o over;
          at_passes = ground (arith, put_at, eqb_iff k k, before, o);
          at_fails = ground (arith, put_at, eqb_iff k k, before, o);
        }
        | inr (i, o) ↦ record {
          passes = 0;
          fails = 1;
          tally = failed e h (λ p. cc) over;
          at_passes = ground (arith, put_at, eqb_iff k k, before, o);
          at_fails = ground (arith, put_at, eqb_iff k k, before, o);
        }
      ]

  count_sig-Gains :
      (apex k : Bytes) (zk : ZoneKeys) (lname : Bytes) (sig : RrsigInfo) (stats : Dict PairStat)
      → at_or_below lname apex ≡ true
      → Gains prim codec pkg apex k stats
          (record { content = zk; name = lname; sig = sig } ∷ [])
          (count_sig prim codec pkg zk lname sig stats)
  unfolding count_sig outcome
  count_sig-Gains apex k zk lname sig stats inside =
      let e : Entry = record { content = zk; name = lname; sig = sig } in
      let key = stat_key lname sig.type_covered in
      let v =
        counted (is_failure (outcome prim codec pkg e)) (stat_for lname sig (find key stats)) in
      let checked = is_checkable_iff prim codec pkg apex lname zk sig inside in
      elim (Bool-cases (is_checkable prim codec pkg zk lname sig)) [
        | inr c ↦
            rw (c, count_sig)
              (Gains-other prim codec pkg apex k e stats stats
                (λ h. absurd (ground (arith, c, checked.1 h.0))) refl)
        | inl c ↦ elim (Bool-cases (eqb key k)) [
          | inl same ↦
              let at : key ≡ k = (eqb_iff key k).0 same in
              rw (c, count_sig)
                (subst
                  (λ j. Gains prim codec pkg apex k stats (e ∷ []) (
                    put j
                      (counted (is_failure (outcome prim codec pkg e))
                        (stat_for lname sig (find j stats)))
                      stats))
                  (sym at) (Gains-counted apex k e stats (checked.0 c, at)))
          | inr differs ↦
              rw (c, count_sig)
                (Gains-other prim codec pkg apex k e stats (put key v stats)
                  (λ h. absurd (ground (arith, differs, eqb_iff key k, h.1)))
                  (find-put key k v stats ∙ ap (λ b. if b then some v else find k stats) differs))
        ]
      ]

  count_sigs-Gains :
      (apex k : Bytes) (zk : ZoneKeys) (lname : Bytes) (sigs : List RrsigInfo)
      (stats : Dict PairStat)
      → at_or_below lname apex ≡ true
      → Gains prim codec pkg apex k stats
          (map (λ sig. record { content = zk; name = lname; sig = sig }) sigs)
          (count_sigs prim codec pkg zk lname sigs stats)
  unfolding count_sigs
  count_sigs-Gains apex k zk lname [] stats inside = Gains-none prim codec pkg apex k stats
  count_sigs-Gains apex k zk lname (sig ∷ sigs) stats inside =
      Gains-then prim codec pkg apex k stats (count_sig prim codec pkg zk lname sig stats) _ _ _
        (count_sig-Gains apex k zk lname sig stats inside)
        (count_sigs-Gains apex k zk lname sigs (count_sig prim codec pkg zk lname sig stats) inside)

  -- No signature of a name outside the zone concerns any RRset.
  Gains-outside :
      (apex k : Bytes) (zk : ZoneKeys) (lname : Bytes) (sigs : List RrsigInfo)
      (stats : Dict PairStat)
      → at_or_below lname apex ≡ false
      → Gains prim codec pkg apex k stats
          (map (λ sig. record { content = zk; name = lname; sig = sig }) sigs)
          stats
  Gains-outside apex k zk lname [] stats outside = Gains-none prim codec pkg apex k stats
  Gains-outside apex k zk lname (sig ∷ sigs) stats outside =
      let e : Entry = record { content = zk; name = lname; sig = sig } in
      let not_checked : ¬ Concerns apex k e =
        λ h. absurd (ground (arith, outside, at_or_below-IsChecked apex e h.0)) in
      Gains-then prim codec pkg apex k stats stats stats (e ∷ []) _
        (Gains-other prim codec pkg apex k e stats stats not_checked refl)
        (Gains-outside apex k zk lname sigs stats outside)

  guarded :
      (apex k : Bytes) (zk : ZoneKeys) (lname : Bytes) (sigs : List RrsigInfo)
      (stats : Dict PairStat)
      → Gains prim codec pkg apex k stats
          (map (λ sig. record { content = zk; name = lname; sig = sig }) sigs)
          (if at_or_below lname apex then count_sigs prim codec pkg zk lname sigs stats else stats)
  guarded apex k zk lname sigs stats = elim (Bool-cases (at_or_below lname apex)) [
    | inl e ↦ rw e (count_sigs-Gains apex k zk lname sigs stats e)
    | inr e ↦ rw e (Gains-outside apex k zk lname sigs stats e)
  ]

  count_names-Gains :
      (apex k : Bytes) (zk : ZoneKeys) (m : Dict (List RrsigInfo)) (stats : Dict PairStat)
      → Gains prim codec pkg apex k stats
          (entries_of codec pkg zk m)
          (count_names prim codec pkg apex zk m stats)
  unfolding count_names entries_of
  count_names-Gains apex k zk [] stats = Gains-none prim codec pkg apex k stats
  count_names-Gains apex k zk ((name, sigs) ∷ m) stats =
      Gains-then prim codec pkg apex k stats _ _ _ _
        (guarded apex k zk (pkg.fqdn (to_lower name)) sigs stats) (count_names-Gains apex k zk m _)

  count_units-Gains :
      (apex k : Bytes) (keys : List Slot) (units : List Msg) (stats : Dict PairStat)
      → Gains prim codec pkg apex k stats
          (all_entries codec pkg keys units)
          (count_units prim codec pkg apex keys units stats)
  unfolding count_units all_entries
  count_units-Gains apex k keys [] stats = Gains-none prim codec pkg apex k stats
  count_units-Gains apex k keys (unit ∷ units) stats =
      let zk = collect codec pkg (sections (unit.answer ++ keys) unit.ns) in
      Gains-then prim codec pkg apex k stats _ _ _ _ (count_names-Gains apex k zk zk.rrsigs stats)
        (count_units-Gains apex k keys units _)

  -- The counters that verifySignatures keeps for an RRset are the numbers of its checks that pass
  -- and that fail: one check for every response and every signature there on a name of the zone
  -- that covers a type other than DS, with covered records and a key in the same response.
  pub count_units-Tally :
      (apex k : Bytes) (keys : List Slot) (units : List Msg)
      → let stats = count_units prim codec pkg apex keys units [] in
        Tally prim codec pkg apex k
          (all_entries codec pkg keys units)
          (passes_at k stats)
          (fails_at k stats)
  unfolding passes_at fails_at find
  count_units-Tally apex k keys units =
      let g = count_units-Gains apex k keys units [] in
      let passes = g.at_passes in
      let fails = g.at_fails in Tally-at prim codec pkg (omega arith) (omega arith) g.tally
