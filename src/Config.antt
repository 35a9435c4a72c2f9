-- ===== src/Config.antt =====
-- `AppConfig::validate` of src/src/config.rs, on the fields that it reads. Parsing and the defaults
-- are not modelled.
use proxy_fleet.Common.{
  ℕ, ◌*◌, ◌≤◌, ◌<◌, String, Bool, true, false, not, ◌&&◌, ◌||◌, ◌≡◌, refl, List, [], ◌∷◌, leb, ltb,
  Result, ok, ensure, ◌>>◌, arith,
}
use proxy_fleet.Common.{All}
use proxy_fleet.Common.Float.{Float}
use proxy_fleet.App.Concurrency.{Limits, AreOrdered}

-- `PortRange`
pub record PortRange : Type 0 where
  pub start : ℕ
  pub end : ℕ

-- `PortRange::valid`
unfoldable pub valid : PortRange → Bool
valid r = ltb 0 r.start && leb r.start r.end

pub record Config : Type 0 where
  pub subscription_urls : List String
  pub refresh_interval_seconds : ℕ
  pub main : PortRange
  pub test : PortRange
  pub api_port : ℕ
  pub system_event_max_rows : ℕ
  pub candidate_cycle_limit : ℕ
  pub limits : Limits
  pub max_active_runtimes : ℕ
  pub http_probe_max_endpoints : ℕ
  pub http_probe_success_quorum : ℕ
  pub http_probe_body_limit_bytes : ℕ
  pub active_min_residence_seconds : ℕ
  pub download_timeout_seconds : ℕ
  pub sample_size : ℕ

abbrev is_empty {ℓ} : {A : Type ℓ} → List A → Bool
is_empty [] = true
is_empty (_ ∷ _) = false

abbrev ordered : Limits → Bool
ordered l =
    ltb 0 l.xray_concurrency_min
    && leb l.xray_concurrency_min l.xray_concurrency_max
    && ltb 0 l.download_concurrency_min
    && leb l.download_concurrency_min l.download_concurrency_max

-- The conditions in their order, each with its message.
unfoldable pub checks : Config → List (Bool × String)
unfolding valid
checks c =
    (not (is_empty c.subscription_urls), "subscriptions.urls must not be empty")
    ∷ (ltb 0 c.refresh_interval_seconds, "subscription refresh interval must be positive")
    ∷ (valid c.main && valid c.test, "invalid port range")
    ∷ (
      ltb c.main.end c.test.start || ltb c.test.end c.main.start,
      "main/test port ranges must not overlap",
    )
    ∷ (ltb 0 c.api_port, "api.port must be positive")
    ∷ (leb 100 c.system_event_max_rows, "retention.system_event_max_rows must be at least 100")
    ∷ (ltb 0 c.candidate_cycle_limit, "candidate cycle limit must be positive")
    ∷ (ordered c.limits, "adaptive concurrency ranges must be positive and ordered")
    ∷ (ltb 0 c.max_active_runtimes, "health.max_active_runtimes must be positive")
    ∷ (ltb 0 c.http_probe_max_endpoints, "health.http_probe_max_endpoints must be positive")
    ∷ (ltb 0 c.http_probe_success_quorum, "health.http_probe_success_quorum must be positive")
    ∷ (ltb 0 c.http_probe_body_limit_bytes, "health.http_probe_body_limit_bytes must be positive")
    ∷ (
      leb (15 * 60) c.active_min_residence_seconds && leb c.active_min_residence_seconds (30 * 60),
      "health.active_min_residence_seconds must be between 900 and 1800 seconds",
    )
    ∷ (ltb 0 c.download_timeout_seconds, "download timeout must be positive")
    ∷ (leb 2 c.sample_size, "selection sample size must be at least 2")
    ∷ []

-- The `ensure!`s, up to the first that fails.
unfoldable pub run_checks : List (Bool × String) → Result String (Unit {0})
run_checks [] = ok tt
run_checks ((b, message) ∷ rest) = ensure b message >> run_checks rest

unfoldable pub validate : Config → Result String (Unit {0})
unfolding checks run_checks
validate c = run_checks (checks c)

-- A port of the range.
abbrev pub InRange : ℕ → PortRange → Type 0
InRange port r = (r.start ≤ port) × (port ≤ r.end)

run_checks-All :
    (xs : List (Bool × String)) → run_checks xs ≡ ok tt → All (λ (x : Bool × String). x.0 ≡ true) xs
unfolding run_checks
run_checks-All [] h = tt
run_checks-All ((true, message) ∷ rest) h = (refl, run_checks-All rest h)
run_checks-All ((false, message) ∷ rest) h = absurd (cc h)

-- What the program relies on in a configuration.
pub record IsUsable (f : Float) (c : Config) : Type 0 where
  pub ranges_apart : (port : ℕ) → InRange port c.main → ¬ InRange port c.test
  pub main_used : InRange c.main.start c.main
  pub test_used : InRange c.test.start c.test
  pub concurrency : AreOrdered f c.limits
  pub concurrency_positive :
      (0 < c.limits.xray_concurrency_min) × (0 < c.limits.download_concurrency_min)
  pub runtimes_positive : 0 < c.max_active_runtimes
  pub residence : (900 ≤ c.active_min_residence_seconds) × (c.active_min_residence_seconds ≤ 1800)

-- A configuration that is accepted has two ranges of ports that are not empty and have no port in
-- common, ordered and positive ranges of the concurrencies, a positive cap on runtimes, and a
-- residence of 15 to 30 minutes.
pub validate-IsUsable : (f : Float) (c : Config) → validate c ≡ ok tt → IsUsable f c
unfolding validate checks valid
validate-IsUsable f c h =
    let all = run_checks-All (checks c) h in
    let ranges = all.1.1.0 in
    let apart = all.1.1.1.0 in
    let order = all.1.1.1.1.1.1.1.0 in
    let runtimes = all.1.1.1.1.1.1.1.1.0 in
    let stay = all.1.1.1.1.1.1.1.1.1.1.1.1.0 in
    record {
      ranges_apart = λ port m t. ground arith;
      main_used = ground arith;
      test_used = ground arith;
      concurrency = record { xray = ground arith; download = ground arith };
      concurrency_positive = ground arith;
      runtimes_positive = ground arith;
      residence = ground arith;
    }
