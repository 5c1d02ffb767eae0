-- ===== src/Audit/Signatures/Tally.antt =====
-- Counting the signatures that concern an RRset, by outcome.
use zone_lint.Common.{
  ℕ, suc, Bytes, Option, none, some, List, [], ◌∷◌, ◌++◌, ◌≡◌, ◌≢◌, ◌+◌, refl, subst, arith,
}
use zone_lint.Common.Dict.{Dict, find}
use zone_lint.Dns.{Package}
use zone_lint.Dnssec.Keys.{Codec}
use zone_lint.Dnssec.Verify.{Primitives, verify_rrsig_for_type}
use zone_lint.Audit.Signatures.{PairStat}
use zone_lint.Audit.Signatures.Checked.{Entry, Concerns}

-- The counters of a key; a key without an entry has none.
abbrev pub passes_of : Option PairStat → ℕ
passes_of none = 0
passes_of (some st) = st.passes

abbrev pub fails_of : Option PairStat → ℕ
fails_of none = 0
fails_of (some st) = st.fails

unfoldable pub passes_at : Bytes → Dict PairStat → ℕ
passes_at k stats = passes_of (find k stats)

unfoldable pub fails_at : Bytes → Dict PairStat → ℕ
fails_at k stats = fails_of (find k stats)

module _ (prim : Primitives) (codec : Codec) (pkg : Package) where
  -- The outcome of VerifyRRSIGForType for an entry: none, or the index of a failing signature.
  unfoldable pub outcome : Entry → Option ℕ
  outcome e = verify_rrsig_for_type prim codec.decoders pkg e.content e.name e.sig.type_covered

  -- Of the entries that concern an RRset, so many pass and so many fail.
  pub data Tally (apex k : Bytes) : List Entry → ℕ → ℕ → Type 0 where
    over : Tally apex k [] 0 0
    other :
        {es : List Entry} {p f : ℕ} (e : Entry)
        → ¬ Concerns apex k e
        → Tally apex k es p f
        → Tally apex k (e ∷ es) p f
    passed :
        {es : List Entry} {p f : ℕ} (e : Entry)
        → Concerns apex k e
        → outcome e ≡ none
        → Tally apex k es p f
        → Tally apex k (e ∷ es) (suc p) f
    failed :
        {es : List Entry} {p f : ℕ} (e : Entry)
        → Concerns apex k e
        → outcome e ≢ none
        → Tally apex k es p f
        → Tally apex k (e ∷ es) p (suc f)

  pub Tally-at :
      {apex k : Bytes} {es : List Entry} {p q f g : ℕ}
      → p ≡ q
      → f ≡ g
      → Tally apex k es p f
      → Tally apex k es q g
  Tally-at {apex} {k} {es} {q = q} {f = f} a b t =
      subst (λ n. Tally apex k es q n) b (subst (λ n. Tally apex k es n f) a t)

  Tally-append :
      {apex k : Bytes} {es ds : List Entry} {p q f g : ℕ}
      → Tally apex k es p f
      → Tally apex k ds q g
      → Tally apex k (es ++ ds) (p + q) (f + g)
  Tally-append over u = Tally-at (omega arith) (omega arith) u
  Tally-append (other e h t) u = other e h (Tally-append t u)
  Tally-append (passed e h o t) u = Tally-at (omega arith) refl (passed e h o (Tally-append t u))
  Tally-append (failed e h o t) u = Tally-at refl (omega arith) (failed e h o (Tally-append t u))

  -- What the counters of a key gain while they go through entries.
  pub record Gains (apex k : Bytes) (before : Dict PairStat) (es : List Entry)
      (after : Dict PairStat) : Type 0 where
    pub passes : ℕ
    pub fails : ℕ
    pub tally : Tally apex k es passes fails
    pub at_passes : passes_at k after ≡ passes_at k before + passes
    pub at_fails : fails_at k after ≡ fails_at k before + fails

  pub Gains-none : (apex k : Bytes) (stats : Dict PairStat) → Gains apex k stats [] stats
  Gains-none apex k stats = record {
    passes = 0;
    fails = 0;
    tally = over;
    at_passes = omega arith;
    at_fails = omega arith;
  }

  pub Gains-then :
      (apex k : Bytes) (a b c : Dict PairStat) (es ds : List Entry)
      → Gains apex k a es b
      → Gains apex k b ds c
      → Gains apex k a (es ++ ds) c
  Gains-then apex k a b c es ds g h =
      let g_passes = g.at_passes in
      let h_passes = h.at_passes in
      let g_fails = g.at_fails in
      let h_fails = h.at_fails in
      record {
        passes = g.passes + h.passes;
        fails = g.fails + h.fails;
        tally = Tally-append g.tally h.tally;
        at_passes = omega arith;
        at_fails = omega arith;
      }

  pub Gains-other :
      (apex k : Bytes) (e : Entry) (before after : Dict PairStat)
      → ¬ Concerns apex k e
      → find k after ≡ find k before
      → Gains apex k before (e ∷ []) after
  unfolding passes_at fails_at
  Gains-other apex k e before after h same = record {
    passes = 0;
    fails = 0;
    tally = other e h over;
    at_passes = rw same (omega arith);
    at_fails = rw same (omega arith);
  }
