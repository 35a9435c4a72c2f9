-- ===== src/Probe/Single.antt =====
-- `test` of src/src/probe/mod.rs: the probe of one proxy with a process of its own.
use proxy_fleet.Common.{ℕ, String, true, Option, none, some, [], ◌∷◌, Result, ok, err}
use proxy_fleet.Common.State.{State, pure, ◌>>=◌}
use proxy_fleet.Common.Float.{Float}
use proxy_fleet.Domain.Failure.{invalid_config, local_overload, xray_start_failed}
use proxy_fleet.Domain.Evidence.{TestStage}
use proxy_fleet.Parser.{ParsedProxy}
use proxy_fleet.Xray.Ports.{allocate_port, release}
use proxy_fleet.Probe.{ProbeReport, event}
use proxy_fleet.Probe.Outside.{Outside, ProbeConfig, error_json, probe_deadline}
use proxy_fleet.Probe.Dns.{Process, outside, Outcome, preflight}
use proxy_fleet.Probe.Relay.{test_through_xray}

module _ (f : Float) (o : Outside f) (config : ProbeConfig f)
    (parse : String → String → Result String ParsedProxy) where
  -- A report, unless a preflight panics.
  abbrev pub Reporting : Type 0
  Reporting = State (Process f o) (Option (ProbeReport f))

  unfoldable pub on_session : ParsedProxy → ℕ → ℕ → Result String (Unit {0}) → Reporting
  on_session proxy port deadline (err text) p = (
    some (record {
      proxy = some proxy;
      events = event f TestStage.relay xray_start_failed none (error_json text) ∷ [];
    }),
    record p { reserved = release (port ∷ []) p.reserved },
  )
  on_session proxy port deadline (ok _) p =
      let (events, p') = outside f o (test_through_xray f o config deadline port true) p in
      let (_, p'') = outside f o o.stop p' in
      (
        some (record { proxy = some proxy; events = events }),
        record p'' { reserved = release (port ∷ []) p''.reserved },
      )

  unfoldable pub on_port : ParsedProxy → ℕ → Result String ℕ → Reporting
  unfolding on_session
  on_port proxy deadline (err text) = pure (
      some (record {
        proxy = some proxy;
        events = event f TestStage.relay local_overload none (error_json text) ∷ [];
      }))
  on_port proxy deadline (ok port) = do
    started ← outside f o (o.start_one proxy port)
    on_session proxy port deadline started

  unfoldable pub reserve_port : State (Process f o) (Result String ℕ)
  reserve_port p =
      let (answer, reserved, world) =
        allocate_port o.bind config.test_start config.test_end p.reserved p.world in
      (answer, record p { reserved = reserved; world = world })

  unfoldable pub on_preflight : ParsedProxy → ℕ → Outcome f o → Reporting
  unfolding reserve_port on_port
  on_preflight proxy deadline none = pure none
  on_preflight proxy deadline (some (err failure)) =
      pure (some (record { proxy = some proxy; events = failure ∷ [] }))
  on_preflight proxy deadline (some (ok _)) = do
    answer ← reserve_port
    on_port proxy deadline answer

  unfoldable pub on_parsed : ℕ → Result String ParsedProxy → Reporting
  unfolding on_preflight
  on_parsed deadline (err text) = pure (
      some (record {
        proxy = none;
        events = event f TestStage.static invalid_config none (error_json text) ∷ [];
      }))
  on_parsed deadline (ok proxy) = do
    outcome ← preflight f o proxy config deadline
    on_preflight proxy deadline outcome

  unfoldable pub test : String → String → Reporting
  unfolding on_parsed
  test raw_config source = do
    deadline ← outside f o (probe_deadline f o config)
    on_parsed deadline (parse raw_config source)
