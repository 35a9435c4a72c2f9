-- ===== src/Scheduler/Quota/Shares.antt =====
-- The shares of the queues in a batch.
use proxy_fleet.Common.{
  ℕ, zero, suc, ◌+◌, ◌-◌, ◌*◌, ◌/◌, ◌%◌, ◌<◌, ◌≤◌, ◌≡◌, List, [], ◌∷◌, arith, ap, ◌∙◌, u64_max,
}
use proxy_fleet.Scheduler.Quota.{QueueQuota, Slot, slot, slots, distribute, allocated, for_capacity}

abbrev split : ℕ → ℕ → ℕ → ℕ → QueueQuota
split a b c d = record {
  new = a;
  successful_probation = b;
  recoverable_dormant = c;
  exploration = d;
}

-- A slot, once its whole part and its remainder are known.
slot_lem :
    (n percent priority whole remainder : ℕ)
    → n * percent ≤ u64_max
    → n * percent ≡ whole * 100 + remainder
    → remainder < 100
    → slot n percent priority ≡ (whole, remainder, priority)
slot_lem n percent priority whole remainder fits e small = ground arith

row :
    (n a b c d w x y z : ℕ)
    → n * 40 ≤ u64_max
    → (n * 40 ≡ a * 100 + w) × (w < 100)
    → (n * 30 ≡ b * 100 + x) × (x < 100)
    → (n * 20 ≡ c * 100 + y) × (y < 100)
    → (n * 10 ≡ d * 100 + z) × (z < 100)
    → for_capacity n
      ≡ distribute ((a, w, 0) ∷ (b, x, 1) ∷ (c, y, 2) ∷ (d, z, 3) ∷ []) (n - (a + b + c + d))
unfolding for_capacity
row n a b c d w x y z fits p q r s =
    ap (λ l. distribute l (n - allocated l)) known ∙ ap (distribute quotas) (omega arith)
  where
    quotas : List Slot
    quotas = (a, w, 0) ∷ (b, x, 1) ∷ (c, y, 2) ∷ (d, z, 3) ∷ []

    known : slots n ≡ quotas
    known = cc (
      slot_lem n 40 0 a w (omega arith) p.0 p.1,
      slot_lem n 30 1 b x (omega arith) q.0 q.1,
      slot_lem n 20 2 c y (omega arith) r.0 r.1,
      slot_lem n 10 3 d z (omega arith) s.0 s.1,
    )

-- The split of 10 q + r jobs, for each last digit r.
extra : ℕ → QueueQuota
extra zero = split 0 0 0 0
extra (suc zero) = split 1 0 0 0
extra (suc (suc zero)) = split 1 1 0 0
extra (suc (suc (suc zero))) = split 1 1 1 0
extra (suc (suc (suc (suc zero)))) = split 2 1 1 0
extra (suc (suc (suc (suc (suc zero))))) = split 2 2 1 0
extra (suc (suc (suc (suc (suc (suc zero)))))) = split 2 2 1 1
extra (suc (suc (suc (suc (suc (suc (suc zero))))))) = split 3 2 1 1
extra (suc (suc (suc (suc (suc (suc (suc (suc zero)))))))) = split 3 2 2 1
extra _ = split 3 3 2 1

abbrev add_tens : ℕ → QueueQuota → QueueQuota
add_tens q e =
    split (4 * q + e.new) (3 * q + e.successful_probation) (2 * q + e.recoverable_dormant)
      (q + e.exploration)

-- Once the remainders are numbers, the rest is evaluation.
by_digit :
    (q r : ℕ)
    → r < 10
    → (10 * q + r) * 40 ≤ u64_max
    → for_capacity (10 * q + r) ≡ add_tens q (extra r)
unfolding extra distribute
by_digit q zero small fits =
    row (10 * q + 0) (4 * q + 0) (3 * q + 0) (2 * q + 0) (q + 0) 0 0 0 0 fits (omega arith)
      (omega arith) (omega arith) (omega arith)
    ∙ (let left : 10 * q + 0 - ((4 * q + 0) + (3 * q + 0) + (2 * q + 0) + (q + 0)) ≡ 0 =
          omega arith in
        rw left (ground arith))
by_digit q (suc zero) small fits =
    row (10 * q + 1) (4 * q + 0) (3 * q + 0) (2 * q + 0) (q + 0) 40 30 20 10 fits (omega arith)
      (omega arith) (omega arith) (omega arith)
    ∙ (let left : 10 * q + 1 - ((4 * q + 0) + (3 * q + 0) + (2 * q + 0) + (q + 0)) ≡ 1 =
          omega arith in
        rw left (ground arith))
by_digit q (suc (suc zero)) small fits =
    row (10 * q + 2) (4 * q + 0) (3 * q + 0) (2 * q + 0) (q + 0) 80 60 40 20 fits (omega arith)
      (omega arith) (omega arith) (omega arith)
    ∙ (let left : 10 * q + 2 - ((4 * q + 0) + (3 * q + 0) + (2 * q + 0) + (q + 0)) ≡ 2 =
          omega arith in
        rw left (ground arith))
by_digit q (suc (suc (suc zero))) small fits =
    row (10 * q + 3) (4 * q + 1) (3 * q + 0) (2 * q + 0) (q + 0) 20 90 60 30 fits (omega arith)
      (omega arith) (omega arith) (omega arith)
    ∙ (let left : 10 * q + 3 - ((4 * q + 1) + (3 * q + 0) + (2 * q + 0) + (q + 0)) ≡ 2 =
          omega arith in
        rw left (ground arith))
by_digit q (suc (suc (suc (suc zero)))) small fits =
    row (10 * q + 4) (4 * q + 1) (3 * q + 1) (2 * q + 0) (q + 0) 60 20 80 40 fits (omega arith)
      (omega arith) (omega arith) (omega arith)
    ∙ (let left : 10 * q + 4 - ((4 * q + 1) + (3 * q + 1) + (2 * q + 0) + (q + 0)) ≡ 2 =
          omega arith in
        rw left (ground arith))
by_digit q (suc (suc (suc (suc (suc zero))))) small fits =
    row (10 * q + 5) (4 * q + 2) (3 * q + 1) (2 * q + 1) (q + 0) 0 50 0 50 fits (omega arith)
      (omega arith) (omega arith) (omega arith)
    ∙ (let left : 10 * q + 5 - ((4 * q + 2) + (3 * q + 1) + (2 * q + 1) + (q + 0)) ≡ 1 =
          omega arith in
        rw left (ground arith))
by_digit q (suc (suc (suc (suc (suc (suc zero)))))) small fits =
    row (10 * q + 6) (4 * q + 2) (3 * q + 1) (2 * q + 1) (q + 0) 40 80 20 60 fits (omega arith)
      (omega arith) (omega arith) (omega arith)
    ∙ (let left : 10 * q + 6 - ((4 * q + 2) + (3 * q + 1) + (2 * q + 1) + (q + 0)) ≡ 2 =
          omega arith in
        rw left (ground arith))
by_digit q (suc (suc (suc (suc (suc (suc (suc zero))))))) small fits =
    row (10 * q + 7) (4 * q + 2) (3 * q + 2) (2 * q + 1) (q + 0) 80 10 40 70 fits (omega arith)
      (omega arith) (omega arith) (omega arith)
    ∙ (let left : 10 * q + 7 - ((4 * q + 2) + (3 * q + 2) + (2 * q + 1) + (q + 0)) ≡ 2 =
          omega arith in
        rw left (ground arith))
by_digit q (suc (suc (suc (suc (suc (suc (suc (suc zero)))))))) small fits =
    row (10 * q + 8) (4 * q + 3) (3 * q + 2) (2 * q + 1) (q + 0) 20 40 60 80 fits (omega arith)
      (omega arith) (omega arith) (omega arith)
    ∙ (let left : 10 * q + 8 - ((4 * q + 3) + (3 * q + 2) + (2 * q + 1) + (q + 0)) ≡ 2 =
          omega arith in
        rw left (ground arith))
by_digit q (suc (suc (suc (suc (suc (suc (suc (suc (suc zero))))))))) small fits =
    row (10 * q + 9) (4 * q + 3) (3 * q + 2) (2 * q + 1) (q + 0) 60 70 80 90 fits (omega arith)
      (omega arith) (omega arith) (omega arith)
    ∙ (let left : 10 * q + 9 - ((4 * q + 3) + (3 * q + 2) + (2 * q + 1) + (q + 0)) ≡ 3 =
          omega arith in
        rw left (ground arith))
by_digit q (suc (suc (suc (suc (suc (suc (suc (suc (suc (suc r)))))))))) small fits =
    absurd (omega arith)

split_tens :
    (capacity : ℕ)
    → capacity * 40 ≤ u64_max
    → for_capacity capacity ≡ add_tens (capacity / 10) (extra (capacity % 10))
split_tens capacity fits =
    let e : 10 * (capacity / 10) + capacity % 10 ≡ capacity = omega arith in
    rw e at (by_digit (capacity / 10) (capacity % 10) (omega arith) (omega arith))

-- `w` is the share of `percent` in `n`, rounded down or up.
abbrev pub IsShare : ℕ → ℕ → ℕ → Type 0
IsShare n percent w = (n * percent < (w + 1) * 100) × (w * 100 < n * percent + 100)

pub record IsFair (n : ℕ) (q : QueueQuota) : Type 0 where
  pub conserved : q.new + q.successful_probation + q.recoverable_dormant + q.exploration ≡ n
  pub new_share : IsShare n 40 q.new
  pub probation_share : IsShare n 30 q.successful_probation
  pub dormant_share : IsShare n 20 q.recoverable_dormant
  pub exploration_share : IsShare n 10 q.exploration
  pub new_first : n ≤ 3 * q.new

extra-IsFair : (r : ℕ) → r < 10 → IsFair r (extra r)
unfolding extra
extra-IsFair zero h = omega arith
extra-IsFair (suc zero) h = omega arith
extra-IsFair (suc (suc zero)) h = omega arith
extra-IsFair (suc (suc (suc zero))) h = omega arith
extra-IsFair (suc (suc (suc (suc zero)))) h = omega arith
extra-IsFair (suc (suc (suc (suc (suc zero))))) h = omega arith
extra-IsFair (suc (suc (suc (suc (suc (suc zero)))))) h = omega arith
extra-IsFair (suc (suc (suc (suc (suc (suc (suc zero))))))) h = omega arith
extra-IsFair (suc (suc (suc (suc (suc (suc (suc (suc zero)))))))) h = omega arith
extra-IsFair (suc (suc (suc (suc (suc (suc (suc (suc (suc zero))))))))) h = omega arith
extra-IsFair (suc (suc (suc (suc (suc (suc (suc (suc (suc (suc r)))))))))) h = absurd (omega arith)

-- A batch of any size whose forty-fold fits in 64 bits is split without loss, each queue gets its
-- 40, 30, 20 or 10 percent rounded down or up, and candidates get at least a third of it.
pub for_capacity-IsFair :
    (capacity : ℕ) → capacity * 40 ≤ u64_max → IsFair capacity (for_capacity capacity)
for_capacity-IsFair capacity fits =
    rw (split_tens capacity fits)
      (let h = extra-IsFair (capacity % 10) (omega arith) in omega arith)
