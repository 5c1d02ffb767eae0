-- ===== src/Resolver/Budgeted.antt =====
-- What spend does with the budget: it never blocks a resolver that holds no slot.
use zone_lint.Common.{
  ℕ, Bool, true, some, ◌≡◌, ◌≤◌, ◌<◌, ◌+◌, ◌-◌, refl, arith, ◌==◌, Bool-cases, inl, inr,
  if◌then◌else◌, ◌&&◌, ◌⊎◌,
}
use zone_lint.Budget.{positive_or}
use zone_lint.Budget.Counter.{consume}
use zone_lint.Budget.Limiter.{RateLimiter, new_rate_limiter, round}
use zone_lint.Budget.Semaphore.{Semaphore, new_semaphore, acquired, cancelled, acquire, release}
use zone_lint.Resolver.{
  Config, Wire, Network, refused, granted, take_slot, spend, free_slot, new_network,
}

-- No slot is taken, there is one to take, and the bucket holds a token when it is full.
pub record Ready {W : Type 0} (s : Network W) : Type 0 where
  pub idle : s.sem.taken ≡ 0
  pub wide : 0 < s.sem.width
  pub tokens : 1 ≤ s.rate.max

-- The query is refused: the world is as it was, and the resolver is ready again.
pub record Refusal {W : Type 0} (s t : Network W) : Type 0 where
  pub world : t.world ≡ s.world
  pub cfg : t.cfg ≡ s.cfg
  pub ready : Ready t
  pub paid : t.counter.remaining ≤ s.counter.remaining

-- The query may go on: it has a slot and has paid one unit of the budget.
pub record Grant {W : Type 0} (s t : Network W) : Type 0 where
  pub world : t.world ≡ s.world
  pub cfg : t.cfg ≡ s.cfg
  pub held : t.sem.taken ≡ 1
  pub wide : 0 < t.sem.width
  pub tokens : 1 ≤ t.rate.max
  pub paid : t.counter.remaining + 1 ≡ s.counter.remaining

acquire-free :
    (prefers done : Bool) (s : Semaphore)
    → s.taken ≡ 0
    → 0 < s.width
    → acquire prefers done s ≡ (
        if done && prefers
        then some (s, cancelled)
        else some (record s { taken = s.taken + 1 }, acquired))
unfolding acquire
acquire-free prefers done s idle wide = ground arith

round-full :
    (now : ℕ) (r : RateLimiter)
    → 1 ≤ r.max
    → ((round now r).1 ≡ true) × ((round now r).0.max ≡ r.max)
unfolding round
round-full now r h = ground arith

module _ {W : Type 0} (wire : Wire W) where
  take_slot-cases :
      (s : Network W)
      → Ready s
      → (take_slot wire s ≡ (s, refused))
        ⊎ (take_slot wire s
            ≡ (record s { sem = record s.sem { taken = s.sem.taken + 1 } }, granted))
  unfolding take_slot
  take_slot-cases s h =
      let idle = h.idle in
      let wide = h.wide in
      let free =
        acquire-free (wire.prefers_done s.world) (wire.context_done s.world) s.sem idle wide in
      elim (Bool-cases (wire.context_done s.world && wire.prefers_done s.world)) [
        | inl e ↦ inl (rw (free, take_slot, e) refl)
        | inr e ↦ inr (rw (free, take_slot, e) refl)
      ]

  pub spend-cases :
      (s : Network W)
      → Ready s
      → ((t : Network W) × ((spend wire s ≡ (t, refused)) × Refusal s t))
        ⊎ ((t : Network W) × ((spend wire s ≡ (t, granted)) × Grant s t))
  unfolding spend consume
  spend-cases s h =
      let idle = h.idle in
      let wide = h.wide in
      let tokens = h.tokens in
      let (passes, same_max) = round-full (wire.now s.world) s.rate tokens in
      let waited = round (wire.now s.world) s.rate in
      elim (Bool-cases (s.counter.remaining == 0)) [
        | inl e ↦ inl (
          record s { counter = s.counter },
          (
            rw (e, spend, consume) refl,
            record {
              world = refl;
              cfg = refl;
              ready = record { idle = idle; wide = wide; tokens = tokens };
              paid = omega arith;
            },
          ),
        )
        | inr e ↦
            let s' : Network W = record s {
              counter = record { remaining = s.counter.remaining - 1 };
              rate = waited.0;
            } in
            let ready' : Ready s' = record { idle = idle; wide = wide; tokens = omega arith } in
            elim (take_slot-cases s' ready') [
              | inl f ↦ inl (
                s',
                (
                  rw (e, spend, consume, passes) f,
                  record { world = refl; cfg = refl; ready = ready'; paid = omega arith },
                ),
              )
              | inr f ↦ inr (
                record s' { sem = record s'.sem { taken = s'.sem.taken + 1 } },
                (
                  rw (e, spend, consume, passes) f,
                  record {
                    world = refl;
                    cfg = refl;
                    held = omega arith;
                    wide = wide;
                    tokens = omega arith;
                    paid = ground arith;
                  },
                ),
              )
            ]
      ]

  pub free_slot-held :
      (t : Network W)
      → t.sem.taken ≡ 1
      → free_slot wire t ≡ some (record t { sem = record t.sem { taken = 0 } })
  unfolding free_slot release
  free_slot-held t h = ground arith

  -- A new resolver is ready, whatever its configuration says.
  pub new_network-Ready : (cfg : Config) (w : W) → Ready (new_network wire cfg w)
  unfolding new_network new_semaphore new_rate_limiter positive_or
  new_network-Ready cfg w = record { idle = refl; wide = ground arith; tokens = ground arith }
