-- ===== src/Resolver/Served.antt =====
-- A whole run of calls on one resolver.
use native.Mathlib.Nat.{mul-add}
use zone_lint.Common.{
  Bytes, List, [], ◌∷◌, Option, none, some, ◌≡◌, ◌+◌, ◌*◌, ◌-◌, refl, sym, ap, ◌∙◌, subst, arith,
}
use zone_lint.Dns.Query.{Question}
use zone_lint.Resolver.{Config, Wire, Network, new_network, query, transfer}
use zone_lint.Resolver.Budgeted.{Ready, new_network-Ready}
use zone_lint.Resolver.Bounded.{
  Within, Within-then, Within-none, Within-le, Served, query-Served, transfer-Served,
}
use zone_lint.Budget.{validated, positive_or}
use zone_lint.Budget.Counter.{new_counter}

-- The calls of the interface Resolver.
pub data Call : Type 0 where
  query_call : Bytes → Question → Call
  transfer_call : Bytes → Question → Call

module _ {W : Type 0} (wire : Wire W) where
  abbrev after {ℓ} : {A : Type ℓ} → Option (A × Network W) → Option (Network W)
  after none = none
  after (some (_, t)) = some t

  -- The resolver after one call, and after the calls in their order; `none` if one never returns.
  unfoldable pub serve : Call → Network W → Option (Network W)
  serve (query_call server req) s = after (query wire server req s)
  serve (transfer_call server req) s = after (transfer wire server req s)

  unfoldable pub serve_all : List Call → Network W → Option (Network W)
  serve_all [] s = some s
  serve_all (call ∷ calls) s = elim (serve call s) [ none ↦ none | some t ↦ serve_all calls t ]

  serve-Served :
      (call : Call) (s : Network W)
      → Ready s
      → (t : Network W) × ((serve call s ≡ some t) × Served wire s t)
  unfolding serve
  serve-Served (query_call server req) s h =
      let (reply, (t, (e, v))) = query-Served wire server req s h in (t, (ap after e, v))
  serve-Served (transfer_call server req) s h =
      let (reply, (t, (e, v))) = transfer-Served wire server req s h in (t, (ap after e, v))

  pub Served-none : (s : Network W) → Ready s → Served wire s s
  Served-none s h = record { ready = h; cfg = refl; paid = omega arith; sent = Within-none }

  pub Served-then : (s t u : Network W) → Served wire s t → Served wire t u → Served wire s u
  Served-then s t u p q =
      let paid_p = p.paid in
      let paid_q = q.paid in
      let each = 2 * (s.cfg.retries + 1) in
      let first = s.counter.remaining - t.counter.remaining in
      let then = t.counter.remaining - u.counter.remaining in
      let sum : s.counter.remaining - u.counter.remaining ≡ first + then = omega arith in
      let later : Within wire (each * then) t.world u.world =
        subst (λ c. Within wire (2 * (c.retries + 1) * then) t.world u.world) p.cfg q.sent in
      record {
        ready = q.ready;
        cfg = q.cfg ∙ p.cfg;
        paid = omega arith;
        sent =
            subst (λ n. Within wire n s.world u.world)
              (sym (ap (λ n. each * n) sum ∙ mul-add each first then)) (Within-then p.sent later);
      }

  serve_all-Served :
      (calls : List Call) (s : Network W)
      → Ready s
      → (t : Network W) × ((serve_all calls s ≡ some t) × Served wire s t)
  unfolding serve_all
  serve_all-Served [] s h = (s, (refl, Served-none s h))
  serve_all-Served (call ∷ calls) s h =
      let (t, (e, v)) = serve-Served call s h in
      let (u, (f, w)) = serve_all-Served calls t v.ready in
      (u, (rw (e, serve_all) f, Served-then s t u v w))

  new_network-remaining :
      (cfg : Config) (w : W)
      → (new_network wire cfg w).counter.remaining ≡ (validated cfg.budget).max_queries
  unfolding new_network new_counter validated positive_or
  new_network-remaining cfg w = ground arith

  start-sent :
      (cfg : Config) (w : W) (t : Network W)
      → Served wire (new_network wire cfg w) t
      → Within wire
          (2
            * (cfg.retries + 1)
            * ((new_network wire cfg w).counter.remaining - t.counter.remaining))
          w
          t.world
  unfolding new_network
  start-sent cfg w t v = v.sent

  -- What was served by a new resolver stays within the messages of its budget.
  pub Within-new_network :
      (cfg : Config) (w : W) (t : Network W)
      → Served wire (new_network wire cfg w) t
      → Within wire (2 * (cfg.retries + 1) * (validated cfg.budget).max_queries) w t.world
  Within-new_network cfg w t v =
      let s = new_network wire cfg w in
      let paid = v.paid in
      let each = 2 * (cfg.retries + 1) in
      let full = new_network-remaining cfg w in
      let left = t.counter.remaining in
      let spent = s.counter.remaining - left in
      let sum : (validated cfg.budget).max_queries ≡ spent + left = omega arith in
      let whole : each * (validated cfg.budget).max_queries ≡ each * spent + each * left =
        ap (λ n. each * n) sum ∙ mul-add each spent left in
      Within-le (omega arith) (start-sent cfg w t v)

  -- Any sequence of calls on a new resolver returns, whatever its configuration and whatever the
  -- network, the clock and the context do; it sends at most two messages for each attempt of each
  -- query of the budget.
  pub serve_all-returns :
      (cfg : Config) (w : W) (calls : List Call)
      → (t : Network W) × ((serve_all calls (new_network wire cfg w) ≡ some t)
          × Within wire (2 * (cfg.retries + 1) * (validated cfg.budget).max_queries) w t.world)
  serve_all-returns cfg w calls =
      let s = new_network wire cfg w in
      let (t, (e, v)) = serve_all-Served calls s (new_network-Ready wire cfg w) in
      (t, (e, Within-new_network cfg w t v))
