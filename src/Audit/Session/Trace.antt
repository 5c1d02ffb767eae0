-- ===== src/Audit/Session/Trace.antt =====
-- How far the world of a run is from the one it started in.
use zone_lint.Common.{ℕ, Bytes, none, some, true, ◌≡◌, ◌≤◌, ◌+◌, arith}
use zone_lint.Dns.Codes.{type_axfr}
use zone_lint.Dns.Query.{Question}
use zone_lint.Audit.{Options}
use zone_lint.Audit.Session.{Outside, Runner, with_edns, query, transfer, random_name}

-- The worlds that a number of calls lead to: a Query of the configured server, which asks for
-- DNSSEC records (EDNS0 with the DO bit), a Transfer from that server by an AXFR message in an
-- active audit, and random bytes, which are no call.
pub data Calls {W : Type 0} (out : Outside W) (opt : Options) (start : W) : ℕ → W → Type 0 where
  still : Calls out opt start 0 start
  asked :
      {n : ℕ} {w : W} (req : Question)
      → req.edns ≡ some (1232, true)
      → Calls out opt start n w
      → Calls out opt start (n + 1) (out.query opt.resolver req w).1
  transferred :
      {n : ℕ} {w : W} (req : Question)
      → opt.active ≡ true
      → req.qtype ≡ type_axfr
      → Calls out opt start n w
      → Calls out opt start (n + 1) (out.transfer opt.resolver req w).1
  drew : {n : ℕ} {w : W} → Calls out opt start n w → Calls out opt start n (out.random w).1

-- From the one runner to the other, none to n queries are counted, and each of them is made.
pub record Spends {W : Type 0} (out : Outside W) (opt : Options) (n : ℕ) (r s : Runner W)
    : Type 0 where
  pub few : s.queries ≤ r.queries + n
  pub kept : r.queries ≤ s.queries
  pub made :
      (start : W) → Calls out opt start r.queries r.world → Calls out opt start s.queries s.world

module _ {W : Type 0} {out : Outside W} {opt : Options} where
  pub Spends-none : (r : Runner W) → Spends out opt 0 r r
  Spends-none r = record { few = omega arith; kept = omega arith; made = λ start c. c }

  pub Spends-then :
      {m n : ℕ} {r s t : Runner W}
      → Spends out opt m r s
      → Spends out opt n s t
      → Spends out opt (m + n) r t
  Spends-then p q =
      let few_p = p.few in
      let few_q = q.few in
      let kept_p = p.kept in
      let kept_q = q.kept in
      record {
        few = omega arith;
        kept = omega arith;
        made = λ start c. q.made start (p.made start c);
      }

  pub Spends-le : {m n : ℕ} {r s : Runner W} → m ≤ n → Spends out opt m r s → Spends out opt n r s
  Spends-le h p = let few_p = p.few in record { few = omega arith; kept = p.kept; made = p.made }

with_edns-some : (req : Question) → req.edns ≡ none → (with_edns req).edns ≡ some (1232, true)
unfolding with_edns
with_edns-some req h = ground arith

module _ {W : Type 0} (out : Outside W) (opt : Options) where
  pub Spends-query :
      (req : Question) (r : Runner W) → req.edns ≡ none → Spends out opt 1 r (query out opt req r).1
  unfolding query
  Spends-query req r h = record {
    few = omega arith;
    kept = omega arith;
    made = λ start c. asked (with_edns req) (with_edns-some req h) c;
  }

  pub Spends-transfer :
      (req : Question) (r : Runner W)
      → opt.active ≡ true
      → req.qtype ≡ type_axfr
      → Spends out opt 1 r (transfer out opt req r).1
  unfolding transfer
  Spends-transfer req r active axfr = record {
    few = omega arith;
    kept = omega arith;
    made = λ start c. transferred req active axfr c;
  }

  pub Spends-random_name :
      (zone : Bytes) (r : Runner W) → Spends out opt 0 r (random_name out opt zone r).1
  unfolding random_name
  Spends-random_name zone r = record {
    few = omega arith;
    kept = omega arith;
    made = λ start c. drew c;
  }
