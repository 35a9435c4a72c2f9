-- ===== src/Scheduler/Quota.antt =====
-- `QueueQuota::for_capacity` of src/src/scheduler/mod.rs: the largest-remainder split of a batch
-- over the four queues.
pub mod Shares
use proxy_fleet.Common.{
  ℕ, zero, suc, ◌+◌, ◌-◌, ◌*◌, ◌/◌, ◌%◌, Bool, true, false, List, [], ◌∷◌, ltb, ◌==◌, ◌||◌, ◌&&◌,
  if◌then◌else◌, usize_mul,
}

pub record QueueQuota : Type 0 where
  pub new : ℕ
  pub successful_probation : ℕ
  pub recoverable_dormant : ℕ
  pub exploration : ℕ

-- (whole, remainder, priority)
abbrev pub Slot : Type 0
Slot = ℕ × ℕ × ℕ

-- The order of the key `(Reverse(remainder), priority)`, and that of `priority`.
abbrev pub by_remainder : Slot → Slot → Bool
by_remainder a b = ltb b.1 a.1 || (a.1 == b.1 && ltb a.2 b.2)

abbrev pub by_priority : Slot → Slot → Bool
by_priority a b = ltb a.2 b.2

-- `sort_by_key`, which is stable: an item goes before those that are not less than it.
insert_by : (Slot → Slot → Bool) → Slot → List Slot → List Slot
insert_by less x [] = x ∷ []
insert_by less x (y ∷ ys) =
    let rest = insert_by less x ys in if less y x then y ∷ rest else x ∷ y ∷ ys

sort_by : (Slot → Slot → Bool) → List Slot → List Slot
unfolding insert_by
sort_by less [] = []
sort_by less (x ∷ xs) = insert_by less x (sort_by less xs)

-- `for (whole, _, _) in quotas.iter_mut().take(n) { *whole += 1; }`
give_one : ℕ → List Slot → List Slot
give_one zero quotas = quotas
give_one (suc n) [] = []
give_one (suc n) ((whole, remainder, priority) ∷ quotas) =
    (whole + 1, remainder, priority) ∷ give_one n quotas

allocated : List Slot → ℕ
allocated [] = 0
allocated ((whole, _, _) ∷ quotas) = whole + allocated quotas

whole_at : List Slot → ℕ → ℕ
whole_at [] i = 0
whole_at ((whole, _, _) ∷ quotas) zero = whole
whole_at (_ ∷ quotas) (suc i) = whole_at quotas i

abbrev slot : ℕ → ℕ → ℕ → Slot
slot capacity percent priority =
    (usize_mul capacity percent / 100, usize_mul capacity percent % 100, priority)

abbrev slots : ℕ → List Slot
slots capacity =
    slot capacity 40 0 ∷ slot capacity 30 1 ∷ slot capacity 20 2 ∷ slot capacity 10 3 ∷ []

distribute : List Slot → ℕ → QueueQuota
unfolding sort_by give_one whole_at
distribute quotas left =
    let sorted = sort_by by_priority (give_one left (sort_by by_remainder quotas)) in
    record {
      new = whole_at sorted 0;
      successful_probation = whole_at sorted 1;
      recoverable_dormant = whole_at sorted 2;
      exploration = whole_at sorted 3;
    }

unfoldable pub for_capacity : ℕ → QueueQuota
unfolding distribute allocated
for_capacity capacity = distribute (slots capacity) (capacity - allocated (slots capacity))
