-- ===== src/Audit/Session.antt =====
-- internal/audit/audit.go: how Run reaches the network. What lies outside is a parameter: the
-- resolver (internal/resolver) and crypto/rand, as functions on a state of the world. A Query
-- returns a message exactly where it returns no error.
pub mod Trace
use zone_lint.Common.{
  ℕ, Bytes, text, Bool, true, Option, none, some, List, [], ◌∷◌, ◌++◌, ◌+◌, ◌/◌, ◌%◌, ltb,
  if◌then◌else◌,
}
use zone_lint.Dns.{Slot, Msg}
use zone_lint.Dns.Query.{Question}
use zone_lint.Audit.{Options, Transfer}

-- The interface Resolver, and rand.Read of sixteen bytes, which may fail.
pub record Outside (W : Type 0) : Type 0 where
  pub query : Bytes → Question → W → Option Msg × W
  pub transfer : Bytes → Question → W → Transfer × W
  pub random : W → Option Bytes × W

-- Runner: the part that changes, the number of queries, and the world.
pub record Runner (W : Type 0) : Type 0 where
  pub queries : ℕ
  pub world : W

-- hex.EncodeToString
unfoldable pub hex_digit : ℕ → ℕ
hex_digit n = if ltb n 10 then 48 + n else 87 + n

unfoldable pub hex_text : Bytes → Bytes
hex_text [] = []
hex_text (b ∷ bs) = hex_digit (b / 16) ∷ hex_digit (b % 16) ∷ hex_text bs

-- SetEdns0(1232, true), where the message has no EDNS0 record.
unfoldable pub with_edns : Question → Question
with_edns req = elim req.edns [ none ↦ record req { edns = some (1232, true) } | some _ ↦ req ]

module _ {W : Type 0} (out : Outside W) (opt : Options) where
  -- Runner.query
  unfoldable pub query : Question → Runner W → Option Msg × Runner W
  query req r =
      let answer = out.query opt.resolver (with_edns req) r.world in
      (answer.0, record { queries = r.queries + 1; world = answer.1 })

  -- Runner.transfer
  unfoldable pub transfer : Question → Runner W → Transfer × Runner W
  transfer req r =
      let answer = out.transfer opt.resolver req r.world in
      (answer.0, record { queries = r.queries + 1; world = answer.1 })

  -- wildcard.ProbeName and active.RandomName, which are the same.
  unfoldable pub random_name : Bytes → Runner W → Option Bytes × Runner W
  random_name zone r =
      let drawn = out.random r.world in
      let name : Option Bytes = elim drawn.0 [
        | none ↦ none
        | some b ↦ some (hex_text b ++ (text "." ++ zone))
      ] in
      (name, record { queries = r.queries; world = drawn.1 })
