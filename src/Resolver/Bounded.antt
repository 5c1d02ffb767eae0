-- ===== src/Resolver/Bounded.antt =====
-- How many messages the resolver sends, and that its calls return.
use zone_lint.Common.{
  ℕ, zero, suc, Bytes, text, List, Option, none, some, ◌≡◌, ◌≤◌, ◌+◌, ◌*◌, ◌-◌, refl, arith,
  Option-cases, Bool-cases, inl, inr, subst, ap, sym, ◌∙◌,
}
use zone_lint.Dns.{Msg, Slot}
use zone_lint.Dns.Query.{Question}
use zone_lint.Resolver.Budgeted.{Ready, Refusal, Grant, spend-cases, free_slot-held}
use zone_lint.Resolver.{
  Wire, Network, free_slot, per_context, send, attempt, chosen_server, query_spent, query,
  transferred, transfer_spent, transfer, released,
}

-- The worlds that a number of exchanges lead to.
pub data Sent {W : Type 0} (wire : Wire W) (start : W) : ℕ → W → Type 0 where
  still : Sent wire start 0 start
  exchanged :
      {n : ℕ} {w : W} (netw : Bytes) (timeout : ℕ) (server : Bytes) (req : Question)
      → Sent wire start n w
      → Sent wire start (n + 1) (wire.exchange netw timeout server req w).1

-- At most a number of exchanges lead from the one world to the other.
abbrev pub Within : {W : Type 0} → Wire W → ℕ → W → W → Type 0
Within wire bound v w = (n : ℕ) × ((n ≤ bound) × Sent wire v n w)

module _ {W : Type 0} {wire : Wire W} where
  Sent-index : {v w : W} {m n : ℕ} → m ≡ n → Sent wire v m w → Sent wire v n w
  Sent-index {v} {w} e p = subst (λ k. Sent wire v k w) e p

  Sent-then : {u v w : W} {m n : ℕ} → Sent wire u m v → Sent wire v n w → Sent wire u (m + n) w
  Sent-then {m = m} p still = Sent-index (omega arith) p
  Sent-then {m = m} p (exchanged {n = n} netw timeout server req q) =
      Sent-index (omega arith) (exchanged netw timeout server req (Sent-then p q))

  pub Within-then :
      {u v w : W} {a b : ℕ} → Within wire a u v → Within wire b v w → Within wire (a + b) u w
  Within-then (m, (hm, p)) (n, (hn, q)) = (m + n, (omega arith, Sent-then p q))

  pub Within-le : {v w : W} {a b : ℕ} → a ≤ b → Within wire a v w → Within wire b v w
  Within-le h (n, (hn, p)) = (n, (omega arith, p))

  pub Within-none : {w : W} {b : ℕ} → Within wire b w w
  Within-none = (0, (omega arith, still))

module _ {W : Type 0} (wire : Wire W) where
  Within-send :
      (timeout : ℕ) (server : Bytes) (req : Question) (netw : Bytes) (w : W)
      → Within wire 1 w (send wire timeout server req netw w).1
  unfolding send
  Within-send timeout server req netw w =
      (1, (omega arith, exchanged netw timeout server req still))

  Within-attempt :
      (s : Network W) (server : Bytes) (req : Question) (n : ℕ) (w : W)
      → Within wire (2 * n) w (attempt wire s server req n w).1
  unfolding attempt
  Within-attempt s server req zero w = Within-none
  Within-attempt s server req (suc n) w =
      let per = per_context wire s w in
      let udp = send wire per server req (text "udp") w in
      let tcp = send wire per server req (text "tcp") udp.1 in
      let udp_sent = Within-send per server req (text "udp") w in
      let both = Within-then udp_sent (Within-send per server req (text "tcp") udp.1) in
      elim (Option-cases udp.0) [
        | inr (resp, e) ↦ rw (e, attempt) (Within-le (omega arith) udp_sent)
        | inl e ↦ elim (Bool-cases (wire.context_done udp.1)) [
          | inl d ↦ rw (e, attempt, d) (Within-le (omega arith) udp_sent)
          | inr d ↦ elim (Option-cases tcp.0) [
            | inr (resp, f) ↦ rw (e, attempt, d, f) (Within-le (omega arith) both)
            | inl f ↦
                rw (e, attempt, d, f)
                  (Within-le (omega arith) (Within-then both (Within-attempt s server req n tcp.1)))
          ]
        ]
      ]

-- What a call does: the resolver is ready for the next, its configuration is kept, and it sends at
-- most two messages for each attempt, if it has paid for the call.
pub record Served {W : Type 0} (wire : Wire W) (s t : Network W) : Type 0 where
  pub ready : Ready t
  pub cfg : t.cfg ≡ s.cfg
  pub paid : t.counter.remaining ≤ s.counter.remaining
  pub sent :
      Within wire
        (2 * (s.cfg.retries + 1) * (s.counter.remaining - t.counter.remaining))
        s.world
        t.world

module _ {W : Type 0} (wire : Wire W) where
  Served-Refusal : (s t : Network W) → Refusal s t → Served wire s t
  Served-Refusal s t f =
      let same = f.world in
      record {
        ready = f.ready;
        cfg = f.cfg;
        paid = f.paid;
        sent =
            subst
              (λ w.
                Within wire (2 * (s.cfg.retries + 1) * (s.counter.remaining - t.counter.remaining))
                  s.world w)
              (sym same) Within-none;
      }

  Served-Grant :
      (s t : Network W) (w : W)
      → Grant s t
      → Within wire (2 * (s.cfg.retries + 1)) t.world w
      → (u : Network W) × ((free_slot wire (record t { world = w }) ≡ some u) × Served wire s u)
  Served-Grant s t w g sent =
      let paid = g.paid in
      let wide = g.wide in
      let tokens = g.tokens in
      let one : s.counter.remaining - t.counter.remaining ≡ 1 = omega arith in
      let from_s : Within wire (2 * (s.cfg.retries + 1)) s.world w =
        subst (λ v. Within wire (2 * (s.cfg.retries + 1)) v w) g.world sent in
      (
        record t { world = w; sem = record t.sem { taken = 0 } },
        (
          free_slot-held wire (record t { world = w }) g.held,
          record {
            ready = record { idle = refl; wide = wide; tokens = tokens };
            cfg = g.cfg;
            paid = omega arith;
            sent = rw one (Within-le (omega arith) from_s);
          },
        ),
      )

  -- A call of Query on a resolver that is ready returns, with a message or an error, and leaves it
  -- ready; it sends at most two messages for each attempt, and none that the budget does not pay.
  pub query-Served :
      (server : Bytes) (req : Question) (s : Network W)
      → Ready s
      → (reply : Option Msg) × ((t : Network W) × ((query wire server req s ≡ some (reply, t))
            × Served wire s t))
  unfolding query query_spent released
  query-Served server req s h = elim (spend-cases wire s h) [
    | inl (t, (e, f)) ↦ (none, (t, (ap (query_spent wire server req) e, Served-Refusal s t f)))
    | inr (t, (e, g)) ↦
        let chosen = chosen_server wire t server in
        let answer = attempt wire t chosen req (suc t.cfg.retries) t.world in
        let retries = ap (λ c. c.retries) g.cfg in
        let (u, (f, v)) = Served-Grant s t answer.1 g (
          Within-le (omega arith) (Within-attempt wire t chosen req (suc t.cfg.retries) t.world)) in
        (answer.0, (u, (ap (query_spent wire server req) e ∙ ap (released wire answer.0) f, v)))
  ]

  -- The same holds of Transfer, which sends one message.
  pub transfer-Served :
      (server : Bytes) (req : Question) (s : Network W)
      → Ready s
      → (reply : Option (List Slot)) × ((t : Network W) × ((transfer wire server req s
              ≡ some (reply, t))
            × Served wire s t))
  unfolding transfer transfer_spent released
  transfer-Served server req s h = elim (spend-cases wire s h) [
    | inl (t, (e, f)) ↦ (none, (t, (ap (transfer_spent wire server req) e, Served-Refusal s t f)))
    | inr (t, (e, g)) ↦
        let answer = wire.exchange (text "tcp") t.bud.per_timeout server req t.world in
        let one : Within wire 1 t.world answer.1 =
          (1, (omega arith, exchanged (text "tcp") t.bud.per_timeout server req still)) in
        let reply = transferred wire answer.0 in
        let (u, (f, v)) = Served-Grant s t answer.1 g (Within-le (omega arith) one) in
        (reply, (u, (ap (transfer_spent wire server req) e ∙ ap (released wire reply) f, v)))
  ]
