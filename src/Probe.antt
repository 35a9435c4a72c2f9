-- ===== src/Probe.antt =====
-- src/src/probe/mod.rs: what a probe of a proxy reports. An instant and a `Duration` are counted in
-- nanoseconds.
pub mod Outside
pub mod Dns
pub mod Relay
pub mod Download
pub mod Batch
pub mod Single
use proxy_fleet.Common.{ℕ, ◌+◌, ◌*◌, ◌/◌, ◌%◌, String, Bool, false, Option, none, some, List}
use proxy_fleet.Common.Float.{Float}
use proxy_fleet.Domain.Failure.{FailureClass}
use proxy_fleet.Domain.Evidence.{TestStage}
use proxy_fleet.Parser.{ParsedProxy}
use proxy_fleet.Parser.Json.{Value}

module _ (f : Float) where
  open f use {F, add, mul, div, of_ℕ}

  pub record ProbeEvent : Type 0 where
    pub stage : TestStage
    pub class : FailureClass
    pub fast_download : Bool
    pub latency_ms : Option F
    pub download_bps : Option F
    pub bytes_transferred : Option ℕ
    pub duration_ms : Option ℕ
    pub endpoint : Option String
    pub detail : Value

  pub record ProbeReport : Type 0 where
    pub proxy : Option ParsedProxy
    pub events : List ProbeEvent

  -- `Duration::as_secs_f64`
  unfoldable pub as_secs_f64 : ℕ → F
  as_secs_f64 d =
      add (of_ℕ (d / 1_000_000_000)) (div (of_ℕ (d % 1_000_000_000)) (of_ℕ 1_000_000_000))

  -- `Duration::as_millis`
  abbrev pub as_millis : ℕ → ℕ
  as_millis d = d / 1_000_000

  abbrev in_ms : Option ℕ → Option F
  in_ms none = none
  in_ms (some d) = some (mul (as_secs_f64 d) (of_ℕ 1000))

  abbrev whole_ms : Option ℕ → Option ℕ
  whole_ms none = none
  whole_ms (some d) = some (as_millis d)

  unfoldable pub event : TestStage → FailureClass → Option ℕ → Value → ProbeEvent
  event stage class duration detail = record {
    stage = stage;
    class = class;
    fast_download = false;
    latency_ms = in_ms duration;
    download_bps = none;
    bytes_transferred = none;
    duration_ms = whole_ms duration;
    endpoint = none;
    detail = detail;
  }
