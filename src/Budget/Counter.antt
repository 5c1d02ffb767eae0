-- ===== src/Budget/Counter.antt =====
-- The query counter: no sequence of operations lets more queries through than the budget.
use zone_lint.Common.{
  ℕ, suc, ◌-◌, List, [], ◌∷◌, Bool, true, false, ◌≡◌, arith, ◌==◌, min, if◌then◌else◌,
}
use zone_lint.Budget.{positive_or}

-- Counter
pub record Counter : Type 0 where
  pub remaining : ℕ

-- NewCounter
unfoldable pub new_counter : ℕ → Counter
unfolding positive_or
new_counter n = record { remaining = positive_or n 400 }

-- Counter.Consume
unfoldable pub consume : Counter → Counter × Bool
consume c = if c.remaining == 0 then (c, false) else (record { remaining = c.remaining - 1 }, true)

-- The operations of the goroutines in the order of the lock: Consume, or Remaining, which reads.
pub data Call : Type 0 where
  consume_call remaining_call : Call

-- The counter after a sequence of calls, and the number of queries that were let through.
pub run : List Call → Counter → Counter × ℕ
run [] c = (c, 0)
run (remaining_call ∷ calls) c = run calls c
run (consume_call ∷ calls) c =
    let (c', ok) = consume c in
    let (last, passed) = run calls c' in (last, if ok then suc passed else passed)

-- How often a sequence tries to consume.
abbrev pub attempts : List Call → ℕ
attempts [] = 0
attempts (remaining_call ∷ calls) = attempts calls
attempts (consume_call ∷ calls) = suc (attempts calls)

-- Over any sequence of calls, as many queries pass as the counter has left, or as were tried if
-- they are fewer, and what remains is the rest.
pub run_lem :
    (calls : List Call) (c : Counter)
    → ((run calls c).1 ≡ min (attempts calls) c.remaining)
      × ((run calls c).0.remaining ≡ c.remaining - attempts calls)
unfolding run consume
run_lem [] c = (omega arith, omega arith)
run_lem (remaining_call ∷ calls) c = run_lem calls c
run_lem (consume_call ∷ calls) c = ground (arith, run_lem calls (consume c).0)
