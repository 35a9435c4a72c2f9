-- ===== src/Scheduler/Debt.antt =====
-- `QueueDebt` of src/src/scheduler/mod.rs: the credits of the four queues.
use proxy_fleet.Common.{ℕ, zero, suc, Option, max, unwrap_or}
use proxy_fleet.Common.Float.{Float, fclamp}
use proxy_fleet.Domain.Lifecycle.{LifecycleState, candidate, probation, dormant, active}

module _ (f : Float) where
  open f use {F, add, sub, mul, neg, ratio, of_ℕ}

  pub record QueueDebt : Type 0 where
    pub candidate_credit : F
    pub probation_credit : F
    pub dormant_credit : F
    pub active_credit : F

  -- `Default`, and the value that was stored: none was, or it does not parse.
  unfoldable pub no_debt : QueueDebt
  no_debt = record {
    candidate_credit = of_ℕ 0;
    probation_credit = of_ℕ 0;
    dormant_credit = of_ℕ 0;
    active_credit = of_ℕ 0;
  }

  unfoldable pub from_value : Option QueueDebt → QueueDebt
  unfolding no_debt
  from_value value = unwrap_or value no_debt

  abbrev credit : F → F → F → F
  credit capacity old share =
      fclamp f (neg (of_ℕ 1)) (mul capacity (of_ℕ 4)) (add old (mul capacity share))

  unfoldable pub accrue : ℕ → QueueDebt → QueueDebt
  accrue capacity d =
      let amount = of_ℕ (max capacity 1) in
      record {
        candidate_credit = credit amount d.candidate_credit (ratio 40 100);
        probation_credit = credit amount d.probation_credit (ratio 30 100);
        dormant_credit = credit amount d.dormant_credit (ratio 20 100);
        active_credit = credit amount d.active_credit (ratio 10 100);
      }

  unfoldable pub consume : LifecycleState → QueueDebt → QueueDebt
  consume candidate d = record d { candidate_credit = sub d.candidate_credit (of_ℕ 1) }
  consume probation d = record d { probation_credit = sub d.probation_credit (of_ℕ 1) }
  consume dormant d = record d { dormant_credit = sub d.dormant_credit (of_ℕ 1) }
  consume active d = record d { active_credit = sub d.active_credit (of_ℕ 1) }
  consume _ d = d

  -- `for _ in 0..n { debt.consume(state); }`
  unfoldable pub consume_times : ℕ → LifecycleState → QueueDebt → QueueDebt
  consume_times zero state d = d
  consume_times (suc n) state d = consume_times n state (consume state d)
