-- ===== src/Resolver.antt =====
-- internal/resolver/network.go: the resolver that asks real servers, within its budget. The audit
-- calls it from one goroutine. What it meets outside (the network, the clock, its context and the
-- choices of the runtime) is a parameter, as functions on a state of the world.
pub mod Budgeted
pub mod Bounded
pub mod Served
pub mod Records
pub mod Fake
use zone_lint.Common.{
  ℕ, zero, suc, Bytes, text, eqb, length, List, [], ◌∷◌, ◌++◌, Bool, true, false, Option, none,
  some, ◌+◌, ◌==◌, ltb, leb, if◌then◌else◌,
}
use zone_lint.Dns.{Rr, Slot, Msg}
use zone_lint.Dns.Query.{Question}
use zone_lint.Budget.{Budget, validated}
use zone_lint.Budget.Counter.{Counter, new_counter, consume}
use zone_lint.Budget.Limiter.{RateLimiter, new_rate_limiter, round}
use zone_lint.Budget.Semaphore.{Semaphore, new_semaphore, acquired, cancelled, acquire, release}

-- Config; a duration or a number that is not positive is 0 here. The fields EDNS and DNSSEC, which
-- nothing reads, are left out.
pub record Config : Type 0 where
  pub timeout : ℕ
  pub retries : ℕ
  pub budget : Budget
  pub udp_addr : Bytes

-- What is outside: the clock, whether the context is done and how long it has left (none without a
-- deadline), whether a select prefers the done context, the exchange of a message over a network
-- with a server, which fails or answers, whether its time ran out first, the name servers of the
-- host's configuration, and whether net.SplitHostPort accepts an address.
pub record Wire (W : Type 0) : Type 0 where
  pub now : W → ℕ
  pub context_done : W → Bool
  pub time_left : W → Option ℕ
  pub prefers_done : W → Bool
  pub exchange : Bytes → ℕ → Bytes → Question → W → Option Msg × W
  pub timed_out : W → Bool
  pub host_servers : Option (List Bytes)
  pub has_port : Bytes → Bool

-- NetworkResolver and the world; the client, which nothing reads, is left out.
pub record Network (W : Type 0) : Type 0 where
  pub cfg : Config
  pub bud : Budget
  pub counter : Counter
  pub rate : RateLimiter
  pub sem : Semaphore
  pub world : W

-- The results of spend: the query may go on, it is refused, or the goroutine blocks for good.
pub data Spent : Type 0 where
  granted : Spent
  refused : Spent
  blocked : Spent

-- extractTransfer: one of its loops, and the function; a nil message has no records.
unfoldable pub take_records : ℕ → List Slot → List Slot → List Slot
take_records bound [] out = out
take_records bound (none ∷ rest) out = take_records bound rest out
take_records bound (some rr ∷ rest) out =
    let out' = out ++ some rr ∷ [] in
    let more = take_records bound rest out' in if leb bound (length out') then out' else more

abbrev pub transfer_bound : ℕ
transfer_bound = 100000

unfoldable pub extract_transfer : Option Msg → List Slot
extract_transfer none = []
extract_transfer (some resp) =
    take_records transfer_bound resp.ns (take_records transfer_bound resp.answer [])

module _ {W : Type 0} (wire : Wire W) where
  -- joinPort
  unfoldable pub join_port : Bytes → Bytes
  join_port host = if wire.has_port host then host else host ++ text ":53"

  -- systemResolver
  unfoldable pub system_resolver : Option Bytes
  system_resolver = elim wire.host_servers [ none ↦ none | some [] ↦ none | some (s ∷ _) ↦ some s ]

  -- DefaultServer
  unfoldable pub default_server : List Bytes → Bytes
  default_server (s ∷ _) = join_port s
  default_server [] = elim system_resolver [ some s ↦ join_port s | none ↦ text "1.1.1.1:53" ]

  -- NewNetwork
  unfoldable pub new_network : Config → W → Network W
  new_network cfg w =
      let b = validated cfg.budget in
      record {
        cfg = cfg;
        bud = b;
        counter = new_counter b.max_queries;
        rate = new_rate_limiter b.max_qps (wire.now w);
        sem = new_semaphore b.max_concurrency;
        world = w;
      }

  -- spend. Wait goes on only by the context where its first round does not return, since a round
  -- always fills the bucket to the same number.
  unfoldable pub take_slot : Network W → Network W × Spent
  take_slot s = elim (acquire (wire.prefers_done s.world) (wire.context_done s.world) s.sem) [
    | none ↦ (s, blocked)
    | some (sem, acquired) ↦ (record s { sem = sem }, granted)
    | some (sem, cancelled) ↦ (s, refused)
  ]

  unfoldable pub spend : Network W → Network W × Spent
  spend s =
      let taken = consume s.counter in
      let waited = round (wire.now s.world) s.rate in
      let s' = record s { counter = taken.0; rate = waited.0 } in
      let slot = take_slot s' in
      if taken.1
      then (if waited.1 then slot else (s', refused))
      else (record s { counter = taken.0 }, refused)

  -- release, `none` where it blocks for good: the receive from a channel that is empty.
  unfoldable pub free_slot : Network W → Option (Network W)
  free_slot s = elim (release s.sem) [ none ↦ none | some sem ↦ some (record s { sem = sem }) ]

  -- A call that has its reply returns when the release that it deferred goes through.
  unfoldable pub released {ℓ} : {A : Type ℓ} → A → Option (Network W) → Option (A × Network W)
  released reply none = none
  released reply (some s) = some (reply, s)

  -- perContext
  unfoldable pub per_context : Network W → W → ℕ
  per_context s w =
      let per : ℕ = elim (wire.time_left w) [
        | none ↦ s.bud.per_timeout
        | some left ↦ if ltb left s.bud.per_timeout then left else s.bud.per_timeout
      ] in
      if per == 0 then s.bud.per_timeout else per

  -- send: the answer counts only where the select does not see the time run out.
  unfoldable pub send : ℕ → Bytes → Question → Bytes → W → Option Msg × W
  send timeout server req netw w =
      let answer = wire.exchange netw timeout server req w in
      ((if wire.timed_out answer.1 then none else answer.0), answer.1)

  -- The loop of Query, with the number of attempts that are left.
  unfoldable pub attempt : Network W → Bytes → Question → ℕ → W → Option Msg × W
  attempt s server req zero w = (none, w)
  attempt s server req (suc n) w =
      let per = per_context s w in
      let udp = send per server req (text "udp") w in
      let tcp = send per server req (text "tcp") udp.1 in
      elim udp.0 [
        | some resp ↦ (some resp, udp.1)
        | none ↦ elim (wire.context_done udp.1) [
          | true ↦ (none, udp.1)
          | false ↦ elim tcp.0 [
            | some resp ↦ (some resp, tcp.1)
            | none ↦ attempt s server req n tcp.1
          ]
        ]
      ]

  -- The server that Query asks.
  unfoldable pub chosen_server : Network W → Bytes → Bytes
  chosen_server s server =
      let server' : Bytes = if eqb server [] then s.cfg.udp_addr else server in
      if eqb server' [] then default_server [] else server'

  -- Query behind spend, and Query: `none` where it never returns, and otherwise its message, or
  -- none for an error.
  unfoldable pub query_spent :
      Bytes → Question → Network W × Spent → Option (Option Msg × Network W)
  query_spent server req (s, blocked) = none
  query_spent server req (s, refused) = some (none, s)
  query_spent server req (s, granted) =
      let answer = attempt s (chosen_server s server) req (suc s.cfg.retries) s.world in
      released answer.0 (free_slot (record s { world = answer.1 }))

  unfoldable pub query : Bytes → Question → Network W → Option (Option Msg × Network W)
  query server req s = query_spent server req (spend s)

  -- Transfer, which takes the server as it is; its records, or none for an error.
  unfoldable pub transferred : Option Msg → Option (List Slot)
  transferred none = none
  transferred (some resp) = some (extract_transfer (some resp))

  unfoldable pub transfer_spent :
      Bytes → Question → Network W × Spent → Option (Option (List Slot) × Network W)
  transfer_spent server req (s, blocked) = none
  transfer_spent server req (s, refused) = some (none, s)
  transfer_spent server req (s, granted) =
      let answer = wire.exchange (text "tcp") s.bud.per_timeout server req s.world in
      released (transferred answer.0) (free_slot (record s { world = answer.1 }))

  unfoldable pub transfer : Bytes → Question → Network W → Option (Option (List Slot) × Network W)
  transfer server req s = transfer_spent server req (spend s)
