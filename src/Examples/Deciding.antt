-- ===== src/Examples/Deciding.antt =====
-- The decisions and their parts at concrete inputs.
use proxy_fleet.Common.{
  ℕ, ◌+◌, ◌*◌, ◌^◌, ◌≤◌, true, false, ◌≡◌, ◌≢◌, ◌↔◌, ◌⊎◌, refl, some, arith, max, min,
  if◌then◌else◌,
}
use proxy_fleet.Domain.Failure.{
  FailureClass, success, tcp_timeout, local_overload, invalid_config, inconclusive, is_success,
  is_invalid_config, is_connection_refused,
}
use proxy_fleet.Domain.Lifecycle.{
  LifecycleState, candidate, active, probation, dormant, invalid, retired, eq_state,
}
use proxy_fleet.Domain.Evidence.{
  TestStage, download, http, dns_tcp, is_download, seconds, minutes, hours, lease_length,
  backoff_ceiling, health,
}
use proxy_fleet.Health.{HealthInput, decide}
use proxy_fleet.Health.Transitions.{
  activation, demotion, inconclusive_neutral, inconclusive_demotes, terminal,
}
use proxy_fleet.Health.Schedule.{backoff_doubles, failure_delay, lease_moves}
use proxy_fleet.Scheduler.Quota.{for_capacity}
use proxy_fleet.Scheduler.Quota.Shares.{IsFair, for_capacity-IsFair}
use proxy_fleet.Examples.Sample.{milli, noon, slowest}

-- A node with a bad record: a score of one sixth, and two independent failures.
abbrev input : LifecycleState → TestStage → FailureClass → HealthInput milli
input state stage class = record {
  prior_lifecycle = state;
  prior_lease_until = some (noon + hours 1);
  activated_at = some 0;
  alpha = 1000;
  beta = 5000;
  failure_streak = 2;
  independent_failures = 2;
  new_independent_failure = false;
  had_real_download = false;
  stage = stage;
  class = class;
  fast_download = false;
  now = noon;
  active_relay_interval = seconds 300;
  active_download_interval = seconds 3600;
  active_min_residence = seconds 900;
}

abbrev good_download : HealthInput milli
good_download = input candidate download success

abbrev overload : HealthInput milli
overload = input active http local_overload

abbrev timeout : HealthInput milli
timeout = input active dns_tcp tcp_timeout

becomes_active : (decide milli slowest good_download).lifecycle ≡ active
unfolding decide is_invalid_config is_success is_download
becomes_active = refl

activation_example :
    ((good_download.class ≡ success) × (good_download.stage ≡ download))
    ⊎ ((good_download.prior_lifecycle ≡ probation)
        × (milli.le (milli.ratio 70 100) (health milli good_download.alpha good_download.beta)
            ≡ true))
activation_example = activation milli slowest good_download becomes_active (λ e. cc)

demotion_example : ((decide milli slowest timeout).lifecycle ≡ probation) ↔ (
    (timeout.class ≢ invalid_config)
    × ((is_success timeout.class ≡ false) ⊎ (is_download timeout.stage ≡ false))
    × ((since : ℕ) × (timeout.activated_at ≡ some since) × (since + seconds 900 ≤ noon))
    × (milli.lt (health milli timeout.alpha timeout.beta) (milli.ratio 35 100) ≡ true)
    × (2 ≤ (decide milli slowest timeout).independent_failures))
demotion_example = demotion milli slowest timeout refl

is_inconclusive : inconclusive local_overload ≡ true
unfolding inconclusive
is_inconclusive = refl

inconclusive_neutral_example :
    ((decide milli slowest overload).failure_streak ≡ 2)
    × ((decide milli slowest overload).independent_failures ≡ 2)
    × ((decide milli slowest overload).lease_until ≡ some (noon + hours 1))
    × ((decide milli slowest overload).next_test_at ≡ noon + minutes 2)
    × ((decide milli slowest overload).lifecycle ≡ invalid → active ≡ invalid)
    × ((decide milli slowest overload).lifecycle ≡ active
        → (active ≡ active) ⊎ (active ≡ probation))
inconclusive_neutral_example = inconclusive_neutral milli slowest overload is_inconclusive

inconclusive_demotes_example : ((decide milli slowest overload).lifecycle ≡ probation) ↔ (
    ((since : ℕ) × (overload.activated_at ≡ some since) × (since + seconds 900 ≤ noon))
    × (milli.lt (health milli overload.alpha overload.beta) (milli.ratio 35 100) ≡ true)
    × (2 ≤ 2))
inconclusive_demotes_example = inconclusive_demotes milli slowest overload is_inconclusive refl

overload_demotes : (decide milli slowest overload).lifecycle ≡ probation
unfolding decide is_invalid_config is_success health inconclusive
overload_demotes = refl

terminal_example :
    (retired ≡ invalid → (decide milli slowest (input retired http success)).lifecycle ≡ invalid)
    × (retired ≡ retired
        → ((decide milli slowest (input retired http success)).lifecycle ≡ retired)
          ⊎ (((decide milli slowest (input retired http success)).lifecycle ≡ invalid)
              × (success ≡ invalid_config)))
terminal_example = terminal milli slowest (input retired http success)

backoff_doubles_example : backoff_ceiling 3 true false tcp_timeout ≡ min (300 * 2 ^ 3) 21600
unfolding is_connection_refused
backoff_doubles_example = backoff_doubles 3 true tcp_timeout

fails : is_success tcp_timeout ≡ false
unfolding is_success
fails = refl

tells : inconclusive tcp_timeout ≡ false
unfolding inconclusive
tells = refl

slowest-le : (c : ℕ) → slowest c ≤ c
slowest-le c = omega arith

failure_delay_example :
    (noon ≤ (decide milli slowest timeout).next_test_at)
    × ((decide milli slowest timeout).next_test_at
        ≤ noon
          + seconds (
              backoff_ceiling
                (decide milli slowest timeout).failure_streak
                false
                (eq_state (decide milli slowest timeout).lifecycle dormant)
                tcp_timeout))
    × ((decide milli slowest timeout).next_test_at ≤ noon + hours 24)
failure_delay_example = failure_delay milli slowest slowest-le timeout fails tells

lease_moves_example : (decide milli slowest good_download).lease_until ≡ (
    if is_success success
    then some (max (noon + hours 1) (noon + lease_length download false))
    else some (noon + hours 1))
lease_moves_example = lease_moves milli slowest slowest-le good_download

for_capacity-IsFair_example : IsFair 25 (for_capacity 25)
for_capacity-IsFair_example = for_capacity-IsFair 25 (omega arith)
