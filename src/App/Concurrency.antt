-- ===== src/App/Concurrency.antt =====
-- The adaptive concurrency of the scheduler loop of src/src/app.rs (`spawn_scheduler`).
use Prim.Native.String.{◌++◌ as str_append}
use proxy_fleet.Common.{
  ℕ, ◌≤◌, ◌+◌, Bool, true, false, not, ◌&&◌, ◌||◌, ◌==◌, Option, none, some, List, [], ◌∷◌, clamp,
  leb, length, count_if, String, if◌then◌else◌, arith, Bool-cases, inl, inr,
}
use proxy_fleet.Common.Float.{Float}

-- The bounds of `HealthConfig`.
pub record Limits : Type 0 where
  pub xray_concurrency_min : ℕ
  pub xray_concurrency_max : ℕ
  pub download_concurrency_min : ℕ
  pub download_concurrency_max : ℕ

-- The fields of `RuntimeStatus` that the loop adapts.
pub record Adaptive : Type 0 where
  pub xray_concurrency : ℕ
  pub download_concurrency : ℕ
  pub last_concurrency_change : String

-- `usize::saturating_add(1)`
abbrev usize_suc : ℕ → ℕ
usize_suc n = if leb (n + 1) 18446744073709551615 then n + 1 else 18446744073709551615

module _ (f : Float) where
  open f use {lt, le, mul, ratio, of_ℕ, floor_usize}

  -- `(n as f64 * 0.7).floor() as usize`
  unfoldable pub shrink : ℕ → ℕ
  shrink n = floor_usize (mul (of_ℕ n) (ratio 7 10))

  unfoldable pub decrease : Limits → String → Adaptive → Adaptive
  unfolding shrink
  decrease l reason a = record {
    xray_concurrency =
        clamp l.xray_concurrency_min l.xray_concurrency_max (shrink a.xray_concurrency);
    download_concurrency =
        clamp l.download_concurrency_min l.download_concurrency_max (shrink a.download_concurrency);
    last_concurrency_change = reason;
  }

  unfoldable pub increase : Limits → Adaptive → Adaptive
  increase l a = record {
    xray_concurrency =
        clamp l.xray_concurrency_min l.xray_concurrency_max (usize_suc a.xray_concurrency);
    download_concurrency =
        clamp l.download_concurrency_min l.download_concurrency_max
          (usize_suc a.download_concurrency);
    last_concurrency_change = "increased: stable window";
  }

  -- The pause before a tick; the answer is whether the tick is skipped.
  unfoldable pub pause : Limits → f.F → Bool → Adaptive → Bool × Adaptive
  unfolding decrease
  pause l pressure incident a =
      if le (ratio 90 100) pressure || incident
      then (
        true,
        (if le (ratio 90 100) pressure
            then decrease l "decreased: scheduler paused for system_pressure" a
            else record a { last_concurrency_change = "scheduler paused: network incident" }),
      )
      else (false, a)

  -- What the end of a batch saw.
  pub record Batch : Type 0 where
    pub pressure : f.F
    pub results : List Bool
    pub timeout_cluster : Bool
    pub latency_spike : Bool
    pub local_overload : Bool

  abbrev passed : Bool → Bool
  passed b = b

  unfoldable pub recovered : Batch → Bool
  recovered b =
      count_if passed b.results == length b.results
      && not (length b.results == 0)
      && lt b.pressure (ratio 65 100)
      && not b.latency_spike
      && not b.local_overload

  unfoldable pub decrease_reason : Batch → Option String
  decrease_reason b =
      if le (ratio 75 100) b.pressure
      then some "system_pressure"
      else if b.timeout_cluster
      then some "timeout_cluster"
      else if b.latency_spike
      then some "latency_spike"
      else if b.local_overload
      then some "local_overload"
      else none

  -- The end of a batch, on the reason to go down.
  unfoldable pub adapt_for : Limits → Batch → Adaptive → Option String → Adaptive
  unfolding decrease increase recovered
  adapt_for l b a (some reason) = decrease l (str_append "decreased: " reason) a
  adapt_for l b a none = if recovered b then increase l a else a

  unfoldable pub adapt : Limits → Batch → Adaptive → Adaptive
  unfolding adapt_for decrease_reason
  adapt l b a = adapt_for l b a (decrease_reason b)

  -- What happens to the concurrency, the newest first: a tick with its pressure and the state of the
  -- network guard, or the end of a batch.
  pub data Change : Type 0 where
    tick : f.F → Bool → Change
    batch : Batch → Change

  unfoldable pub play : Limits → List Change → Adaptive → Adaptive
  unfolding pause adapt
  play l [] a = a
  play l (tick pressure incident ∷ earlier) a = (pause l pressure incident (play l earlier a)).1
  play l (batch b ∷ earlier) a = adapt l b (play l earlier a)

  pub record InLimits (l : Limits) (a : Adaptive) : Type 0 where
    pub xray_min : l.xray_concurrency_min ≤ a.xray_concurrency
    pub xray_max : a.xray_concurrency ≤ l.xray_concurrency_max
    pub download_min : l.download_concurrency_min ≤ a.download_concurrency
    pub download_max : a.download_concurrency ≤ l.download_concurrency_max

  -- The ranges that the configuration is checked for.
  pub record AreOrdered (l : Limits) : Type 0 where
    pub xray : l.xray_concurrency_min ≤ l.xray_concurrency_max
    pub download : l.download_concurrency_min ≤ l.download_concurrency_max

  clamp_bounds : (lo hi n : ℕ) → lo ≤ hi → (lo ≤ clamp lo hi n) × (clamp lo hi n ≤ hi)
  clamp_bounds lo hi n h = ground arith

  clamped :
      (l : Limits) (a : Adaptive) (x d : ℕ) (reason : String)
      → AreOrdered l
      → InLimits l (record {
        xray_concurrency = clamp l.xray_concurrency_min l.xray_concurrency_max x;
        download_concurrency = clamp l.download_concurrency_min l.download_concurrency_max d;
        last_concurrency_change = reason;
      })
  clamped l a x d reason h =
      let xs = clamp_bounds l.xray_concurrency_min l.xray_concurrency_max x h.xray in
      let ds = clamp_bounds l.download_concurrency_min l.download_concurrency_max d h.download in
      record { xray_min = xs.0; xray_max = xs.1; download_min = ds.0; download_max = ds.1 }

  decrease-InLimits :
      (l : Limits) (reason : String) (a : Adaptive)
      → AreOrdered l
      → InLimits l (decrease l reason a)
  unfolding decrease
  decrease-InLimits l reason a h = clamped l a _ _ reason h

  increase-InLimits : (l : Limits) (a : Adaptive) → AreOrdered l → InLimits l (increase l a)
  unfolding increase
  increase-InLimits l a h = clamped l a _ _ _ h

  noted-InLimits :
      (l : Limits) (reason : String) (a : Adaptive)
      → InLimits l a
      → InLimits l (record a { last_concurrency_change = reason })
  noted-InLimits l reason a h = record {
    xray_min = h.xray_min;
    xray_max = h.xray_max;
    download_min = h.download_min;
    download_max = h.download_max;
  }

  pause-InLimits :
      (l : Limits) (pressure : f.F) (incident : Bool) (a : Adaptive)
      → AreOrdered l
      → InLimits l a
      → InLimits l (pause l pressure incident a).1
  pause-InLimits l pressure incident a o h = elim (Bool-cases (le (ratio 90 100) pressure)) [
    | inl high ↦ unfold pause in rw high (decrease-InLimits l _ a o)
    | inr low ↦ elim (Bool-cases incident) [
      | inl on ↦ unfold pause in rw (low, on) (noted-InLimits l _ a h)
      | inr off ↦ unfold pause in rw (low, off) h
    ]
  ]

  adapt_for-InLimits :
      (l : Limits) (b : Batch) (a : Adaptive) (reason : Option String)
      → AreOrdered l
      → InLimits l a
      → InLimits l (adapt_for l b a reason)
  unfolding adapt_for
  adapt_for-InLimits l b a (some reason) o h = decrease-InLimits l _ a o
  adapt_for-InLimits l b a none o h = elim (Bool-cases (recovered b)) [
    | inl up ↦ rw up (increase-InLimits l a o)
    | inr same ↦ rw same h
  ]

  -- Where the configured ranges are ordered and the concurrencies start within them, they stay
  -- within them, whatever pressure, incidents and batches follow.
  pub play-InLimits :
      (l : Limits) (changes : List Change) (a : Adaptive)
      → AreOrdered l
      → InLimits l a
      → InLimits l (play l changes a)
  unfolding play adapt
  play-InLimits l [] a o h = h
  play-InLimits l (tick pressure incident ∷ earlier) a o h =
      pause-InLimits l pressure incident (play l earlier a) o (play-InLimits l earlier a o h)
  play-InLimits l (batch b ∷ earlier) a o h =
      adapt_for-InLimits l b (play l earlier a) _ o (play-InLimits l earlier a o h)
