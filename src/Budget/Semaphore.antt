-- ===== src/Budget/Semaphore.antt =====
-- The semaphore, as a step relation: goroutines acquire and release in any order.
use zone_lint.Common.{
  ℕ, ◌+◌, ◌-◌, ◌≤◌, ◌<◌, Bool, Option, none, some, ◌≡◌, ◌⊎◌, inl, inr, arith, ltb, ◌==◌,
  if◌then◌else◌, ◌&&◌, ◌||◌, not, Bool-cases,
}
use zone_lint.Budget.{positive_or}

-- The channel of the semaphore: its capacity and how many slots are taken.
pub record Semaphore : Type 0 where
  pub width : ℕ
  pub taken : ℕ

-- NewSemaphore
unfoldable pub new_semaphore : ℕ → Semaphore
unfolding positive_or
new_semaphore w = record { width = positive_or w 1; taken = 0 }

-- Acquire, at a moment at which it can go on: a slot is free and the send is taken, or the
-- context is done. A goroutine for which neither holds is blocked, which is `none`; where both
-- hold, the runtime chooses, by the first argument.
pub data Outcome : Type 0 where
  acquired cancelled : Outcome

unfoldable pub acquire : Bool → Bool → Semaphore → Option (Semaphore × Outcome)
acquire prefer_done done s =
    if done && (prefer_done || not (ltb s.taken s.width))
    then some (s, cancelled)
    else if ltb s.taken s.width
    then some (record s { taken = s.taken + 1 }, acquired)
    else none

-- Release: the receive blocks on an empty channel.
unfoldable pub release : Semaphore → Option Semaphore
release s = if s.taken == 0 then none else some (record s { taken = s.taken - 1 })

-- The system of the semaphore and the number of goroutines that hold a slot: each of them has
-- acquired and will release once, as Query and Transfer of the resolver do.
pub record System : Type 0 where
  pub sem : Semaphore
  pub holders : ℕ

pub data Step (s t : System) : Type 0 where
  take_slot :
      (prefer_done done : Bool) (sem' : Semaphore)
      → acquire prefer_done done s.sem ≡ some (sem', acquired)
      → t ≡ record { sem = sem'; holders = s.holders + 1 }
      → Step s t
  give_up :
      (prefer_done done : Bool) (sem' : Semaphore)
      → acquire prefer_done done s.sem ≡ some (sem', cancelled)
      → t ≡ record { sem = sem'; holders = s.holders }
      → Step s t
  leave :
      (sem' : Semaphore)
      → 0 < s.holders
      → release s.sem ≡ some sem'
      → t ≡ record { sem = sem'; holders = s.holders - 1 }
      → Step s t

pub data Reach (w : ℕ) : System → Type 0 where
  start : {s : System} → s ≡ record { sem = new_semaphore w; holders = 0 } → Reach w s
  later : {s t : System} → Reach w s → Step s t → Reach w t

pub record Inv (w : ℕ) (s : System) : Type 0 where
  pub same_width : s.sem.width ≡ (if w == 0 then 1 else w)
  pub counted : s.sem.taken ≡ s.holders
  pub bounded : s.holders ≤ s.sem.width

Step-Inv : {w : ℕ} {s t : System} → Step s t → Inv w s → Inv w t
unfolding acquire release
Step-Inv (take_slot p d sem' h e) v = ground arith
Step-Inv (give_up p d sem' h e) v = ground arith
Step-Inv (leave sem' pos h e) v = ground arith

pub Reach-Inv : {w : ℕ} {s : System} → Reach w s → Inv w s
unfolding new_semaphore
Reach-Inv (start e) = ground arith
Reach-Inv (later r st) = Step-Inv st (Reach-Inv r)

-- However goroutines acquire, give up and release, no more of them hold a slot at once than the
-- width (1 where it is given as 0); and as long as some goroutine holds one, a release goes through.
pub holders_bounded :
    {w : ℕ} {s : System}
    → Reach w s
    → (s.holders ≤ (if w == 0 then 1 else w))
      × ((s.holders ≡ 0) ⊎ ((sem' : Semaphore) × (release s.sem ≡ some sem')))
unfolding release
holders_bounded {s = s} r =
    let v = Reach-Inv r in
    (
      ground (arith, v.same_width, v.bounded),
      elim (Bool-cases (s.holders == 0)) [
        | inl idle ↦ inl (ground arith)
        | inr busy ↦
            inr (record { width = s.sem.width; taken = s.sem.taken - 1 }, ground (arith, v.counted))
      ],
    )
