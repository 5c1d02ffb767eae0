-- ===== src/Audit/Network.antt =====
-- internal/audit/audit.go: New, an audit over the network resolver.
pub mod Messages
use zone_lint.Common.{ℕ, Bytes, Option, none, some, List}
use zone_lint.Dns.{Slot, Msg}
use zone_lint.Dns.Query.{Question}
use zone_lint.Budget.{Budget}
use zone_lint.Resolver.{Config, Wire, Network, default_server, new_network}
use zone_lint.Resolver
use zone_lint.Audit.{Options, Transfer, received, failed, split_resolvers}
use zone_lint.Audit.Session.{Outside, Runner}

-- The limits that New sets; the others are left at zero, for which Validated puts the defaults.
unfoldable pub budget_of : Options → Budget
budget_of opt = record {
  max_queries = opt.max_queries;
  max_qps = opt.max_qps;
  max_concurrency = 0;
  per_timeout = 0;
  recursion_limit = 0;
}

module _ {W : Type 0} (wire : Wire W) where
  -- The configuration of New.
  unfoldable pub config_of : Options → Config
  config_of opt = record {
    timeout = opt.timeout;
    retries = 0;
    budget = budget_of opt;
    udp_addr = default_server wire (split_resolvers opt.resolver);
  }

  -- A call that never returns gives no answer.
  unfoldable pub answered : Network W → Option (Option Msg × Network W) → Option Msg × Network W
  answered s none = (none, s)
  answered s (some result) = result

  -- The network resolver refuses no zone: every error of a transfer is another one.
  unfoldable pub fetched :
      Network W → Option (Option (List Slot) × Network W) → Transfer × Network W
  fetched s none = (failed, s)
  fetched s (some (none, t)) = (failed, t)
  fetched s (some (some records, t)) = (received records, t)

  module _ {R : Type 0} (draw : R → Option Bytes × R) where
    -- The network resolver as a resolver, beside the source of random bytes.
    unfoldable pub over_network : Outside (Network W × R)
    over_network = record {
      query = λ server req (s, source).
          let result = answered s (Resolver.query wire server req s) in
          (result.0, (result.1, source));
      transfer = λ server req (s, source).
          let result = fetched s (Resolver.transfer wire server req s) in
          (result.0, (result.1, source));
      random = λ (s, source). let drawn = draw source in (drawn.0, (s, drawn.1));
    }

    -- New
    unfoldable pub new_runner : Options → W → R → Runner (Network W × R)
    new_runner opt w source = record {
      queries = 0;
      world = (new_network wire (config_of opt) w, source);
    }
