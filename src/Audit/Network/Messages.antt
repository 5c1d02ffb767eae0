-- ===== src/Audit/Network/Messages.antt =====
-- How many messages an audit sends over the network.
use zone_lint.Common.{
  ◌==◌, if◌then◌else◌, ℕ, Bytes, Option, none, some, List, ◌≡◌, ◌+◌, ◌*◌, sym, subst, arith,
}
use zone_lint.Dns.{Slot}
use zone_lint.Dns.Query.{Question}
use zone_lint.Budget.{validated, positive_or}
use zone_lint.Resolver.{Config, Wire, Network, new_network}
use zone_lint.Resolver
use zone_lint.Resolver.Budgeted.{Ready, new_network-Ready}
use zone_lint.Resolver.Bounded.{Within, Served, query-Served, transfer-Served}
use zone_lint.Resolver.Served.{Served-none, Served-then, Within-new_network}
use zone_lint.Audit.{Options}
use zone_lint.Audit.Session.Trace.{Calls, still, asked, transferred, drew}
use zone_lint.Audit.Network.{budget_of, config_of, answered, fetched, over_network, new_runner}
use zone_lint.Audit.Reading.{Env}
use zone_lint.Audit.Run.{run}
use zone_lint.Audit.Run.Counted.{run-Calls}

module _ {W R : Type 0} (wire : Wire W) (draw : R → Option Bytes × R) (opt : Options) where
  query-answered :
      (server : Bytes) (req : Question) (s : Network W)
      → Ready s
      → Served wire s (answered wire s (Resolver.query wire server req s)).1
  unfolding answered
  query-answered server req s h =
      let (reply, (t, (e, v))) = query-Served wire server req s h in
      subst (λ o. Served wire s (answered wire s o).1) (sym e) v

  fetched-either :
      (reply : Option (List Slot)) (s t : Network W)
      → Served wire s t
      → Served wire s (fetched wire s (some (reply, t))).1
  unfolding fetched
  fetched-either none s t v = v
  fetched-either (some records) s t v = v

  transfer-fetched :
      (server : Bytes) (req : Question) (s : Network W)
      → Ready s
      → Served wire s (fetched wire s (Resolver.transfer wire server req s)).1
  unfolding fetched
  transfer-fetched server req s h =
      let (reply, (t, (e, v))) = transfer-Served wire server req s h in
      subst (λ o. Served wire s (fetched wire s o).1) (sym e) (fetched-either reply s t v)

  Calls-Served :
      (s : Network W) (source : R) {n : ℕ} {end : Network W × R}
      → Ready s
      → Calls (over_network wire draw) opt (s, source) n end
      → Served wire s end.0
  unfolding over_network
  Calls-Served s source h still = Served-none wire s h
  Calls-Served s source h (asked {w = w} req _ c) =
      let v = Calls-Served s source h c in
      Served-then wire s w.0 _ v (query-answered opt.resolver req w.0 v.ready)
  Calls-Served s source h (transferred {w = w} req _ _ c) =
      let v = Calls-Served s source h c in
      Served-then wire s w.0 _ v (transfer-fetched opt.resolver req w.0 v.ready)
  Calls-Served s source h (drew c) = Calls-Served s source h c

  messages-config_of :
      2 * ((config_of wire opt).retries + 1) * (validated (config_of wire opt).budget).max_queries
      ≡ 2 * (if opt.max_queries == 0 then 400 else opt.max_queries)
  unfolding config_of budget_of validated positive_or
  messages-config_of = ground arith

  -- An audit over the network sends at most two messages for each query of its budget, which is
  -- the number of queries in its options, or 400 where it is given as 0, whatever the network, the
  -- clock, the context and the random source do.
  pub run-Within :
      (env : Env) (zone : Bytes) (w : W) (source : R)
      → let end = run env opt zone (over_network wire draw) (new_runner wire draw opt w source) in
        Within wire
          (2 * (if opt.max_queries == 0 then 400 else opt.max_queries))
          w
          end.1.world.0.world
  unfolding new_runner
  run-Within env zone w source =
      let cfg = config_of wire opt in
      let s = new_network wire cfg w in
      let (calls, _) = run-Calls env opt zone (over_network wire draw) (s, source) in
      let v = Calls-Served s source (new_network-Ready wire cfg w) calls in
      let end = run env opt zone (over_network wire draw) (new_runner wire draw opt w source) in
      let last = end.1.world.0 in
      subst (λ n. Within wire n w last.world) messages-config_of
        (Within-new_network wire cfg w last v)
