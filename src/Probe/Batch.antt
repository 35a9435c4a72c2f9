-- ===== src/Probe/Batch.antt =====
-- `test`, `test_batch` and `test_survivor_batch` of src/src/probe/mod.rs. Tests that run side by
-- side there come one after another here, in the order in which they end.
pub mod Complete
pub mod Isolated
pub mod Reports
use text.Mathlib.Text.{is_eq, is_lt}
use Prim.Native.String.{compare}
use proxy_fleet.Common.{
  ℕ, zero, suc, ◌/◌, String, Bool, Option, none, some, List, [], ◌∷◌, ◌++◌, length, map, take, drop,
  update_where, str_eq, if◌then◌else◌, Result, ok, err,
}
use proxy_fleet.Common.State.{State, pure, ◌>>=◌, ◌>>◌}
use proxy_fleet.Common.Float.{Float}
use proxy_fleet.Domain.Failure.{invalid_config, local_overload, xray_start_failed}
use proxy_fleet.Domain.Evidence.{TestStage}
use proxy_fleet.Parser.{ParsedProxy}
use proxy_fleet.Parser.Json.{str}
use proxy_fleet.Xray.Ports.{allocate_port, allocate_ports, release}
use proxy_fleet.Probe.{ProbeEvent, ProbeReport, event}
use proxy_fleet.Probe.Outside.{Outside, ProbeConfig, json, error_json, probe_deadline}
use proxy_fleet.Probe.Dns.{Process, outside, Outcome, preflight}
use proxy_fleet.Probe.Relay.{test_through_xray}

pub record Survivor : Type 0 where
  pub id : String
  pub proxy : ParsedProxy
  pub deadline : ℕ
  pub download_due : Bool

-- An entry of the batch's input: the id, the raw configuration, whether a download is due.
pub record Candidate : Type 0 where
  pub id : String
  pub raw : String
  pub download_due : Bool

-- `Iterator::zip`
abbrev pub zip {ℓ κ} : {A : Type ℓ} {B : Type κ} → List A → List B → List (A × B)
zip [] ys = []
zip (x ∷ xs) [] = []
zip (x ∷ xs) (y ∷ ys) = (x, y) ∷ zip xs ys

module _ (f : Float) (o : Outside f) (config : ProbeConfig f) where
  abbrev pub Outcomes : Type 0
  Outcomes = List (String × List (ProbeEvent f))

  unfoldable pub reserve_ports : ℕ → State (Process f o) (Result String (List ℕ))
  reserve_ports count p =
      let (answer, reserved, world) =
        allocate_ports o.bind config.test_start config.test_end count p.reserved p.world in
      (answer, record p { reserved = reserved; world = world })

  -- The drop of reservations.
  unfoldable pub drop_ports : List ℕ → State (Process f o) (Unit {0})
  drop_ports ports p = (tt, record p { reserved = release ports p.reserved })

  unfoldable pub overloaded : String → Survivor → String × List (ProbeEvent f)
  overloaded text s = (
    s.id,
    event f TestStage.relay local_overload none
          (json (("error", str text) ∷ ("reason", str "port_capacity") ∷ []))
        ∷ [],
  )

  unfoldable pub not_started : String → Survivor → String × List (ProbeEvent f)
  not_started text s = (s.id, event f TestStage.relay xray_start_failed none (error_json text) ∷ [])

  unfoldable pub test_each : List (Survivor × ℕ) → State (Process f o) Outcomes
  test_each [] = pure []
  test_each ((s, port) ∷ rest) = do
    events ← outside f o (test_through_xray f o config s.deadline port s.download_due)
    others ← test_each rest
    pure ((s.id, events) ∷ others)

  -- The answer of `XrayBatchSession::start`; `again` is the test of a smaller batch.
  unfoldable pub on_start :
      (List Survivor → State (Process f o) Outcomes)
      → List Survivor
      → List ℕ
      → Result String (Unit {0})
      → State (Process f o) Outcomes
  unfolding test_each drop_ports not_started
  on_start again survivors ports (ok _) = do
    results ← test_each (o.completion (zip survivors ports))
    outside f o o.stop
    drop_ports ports
    pure results
  on_start again [] ports (err text) = do drop_ports ports; pure []
  on_start again (s ∷ []) ports (err text) = do drop_ports ports; pure (not_started text s ∷ [])
  on_start again (s ∷ t ∷ rest) ports (err text) = do
    drop_ports ports
    let midpoint = length (s ∷ t ∷ rest) / 2
    left ← again (take midpoint (s ∷ t ∷ rest))
    right ← again (drop midpoint (s ∷ t ∷ rest))
    pure (left ++ right)

  unfoldable pub on_ports :
      (List Survivor → State (Process f o) Outcomes)
      → List Survivor
      → Result String (List ℕ)
      → State (Process f o) Outcomes
  unfolding on_start overloaded
  on_ports again survivors (err text) = pure (map (overloaded text) survivors)
  on_ports again survivors (ok ports) = do
    started ← outside f o (o.start_batch (map (λ (s : Survivor). s.proxy) survivors) ports)
    on_start again survivors ports started

  -- The fuel bounds how often a batch is split.
  unfoldable pub test_survivor_batch : ℕ → List Survivor → State (Process f o) Outcomes
  unfolding on_ports reserve_ports
  test_survivor_batch zero survivors = pure []
  test_survivor_batch (suc fuel) [] = pure []
  test_survivor_batch (suc fuel) (s ∷ rest) = do
    answer ← reserve_ports (length (s ∷ rest))
    on_ports (test_survivor_batch fuel) (s ∷ rest) answer

  -- `parse` is `parse_share_url`.
  module _ (parse : String → String → Result String ParsedProxy) where
    abbrev unreadable : String → ProbeReport f
    unreadable text = record {
      proxy = none;
      events = event f TestStage.static invalid_config none (error_json text) ∷ [];
    }

    -- What the preflight of a candidate left to do.
    pub record Checked : Type 0 where
      pub id : String
      pub report : ProbeReport f
      pub deadline : ℕ
      pub download_due : Bool

    abbrev checked : Candidate → ℕ → ProbeReport f → Checked
    checked c deadline report = record {
      id = c.id;
      report = report;
      deadline = deadline;
      download_due = c.download_due;
    }

    unfoldable pub after_preflight : Candidate → ParsedProxy → ℕ → Outcome f o → Option Checked
    after_preflight c proxy deadline none = none
    after_preflight c proxy deadline (some (ok _)) =
        some (checked c deadline (record { proxy = some proxy; events = [] }))
    after_preflight c proxy deadline (some (err failure)) =
        some (checked c deadline (record { proxy = some proxy; events = failure ∷ [] }))

    unfoldable pub check_parsed :
        Candidate → ℕ → Result String ParsedProxy → State (Process f o) (Option Checked)
    unfolding after_preflight
    check_parsed c deadline (err text) = pure (some (checked c deadline (unreadable text)))
    check_parsed c deadline (ok proxy) = do
      outcome ← preflight f o proxy config deadline
      pure (after_preflight c proxy deadline outcome)

    unfoldable pub check : String → Candidate → State (Process f o) (Option Checked)
    unfolding check_parsed
    check source c = do
      deadline ← outside f o (probe_deadline f o config)
      check_parsed c deadline (parse c.raw source)

    abbrev both {ℓ} : {A : Type ℓ} → Option A → Option (List A) → Option (List A)
    both none rest = none
    both (some a) none = none
    both (some a) (some rest) = some (a ∷ rest)

    -- A preflight that panics ends the batch.
    unfoldable pub check_all : String → List Candidate → State (Process f o) (Option (List Checked))
    unfolding check
    check_all source [] = pure (some [])
    check_all source (c ∷ rest) = do
      one ← check source c
      others ← check_all source rest
      pure (both one others)

    abbrev pub survivor : Checked → Option ParsedProxy → List (ProbeEvent f) → List Survivor
    survivor c none events = []
    survivor c (some proxy) (_ ∷ _) = []
    survivor c (some proxy) [] =
        record { id = c.id; proxy = proxy; deadline = c.deadline; download_due = c.download_due }
        ∷ []

    unfoldable pub survivors_of : List Checked → List Survivor
    survivors_of [] = []
    survivors_of (c ∷ rest) = survivor c c.report.proxy c.report.events ++ survivors_of rest

    abbrev pub Reports : Type 0
    Reports = List (String × ProbeReport f)

    -- `BTreeMap::insert`, on the entries in the order of their keys
    unfoldable pub insert_report : String → ProbeReport f → Reports → Reports
    insert_report id report [] = (id, report) ∷ []
    insert_report id report ((k, r) ∷ rest) =
        let others = insert_report id report rest in
        if is_eq (compare id k)
        then (k, report) ∷ rest
        else if is_lt (compare id k)
        then (id, report) ∷ (k, r) ∷ rest
        else (k, r) ∷ others

    unfoldable pub collect : List Checked → Reports → Reports
    unfolding insert_report
    collect [] results = results
    collect (c ∷ rest) results = collect rest (insert_report c.id c.report results)

    abbrev pub with_events : List (ProbeEvent f) → String × ProbeReport f → String × ProbeReport f
    with_events events (k, r) = (k, record r { events = events })

    abbrev pub id_of : String × ProbeReport f → String
    id_of entry = entry.0

    -- `if let Some(report) = results.get_mut(&id) { report.events = events; }`
    unfoldable pub fill_in : Outcomes → Reports → Reports
    fill_in [] results = results
    fill_in ((id, events) ∷ rest) results = fill_in rest (
        update_where (λ (entry : String × ProbeReport f). str_eq entry.0 id) (with_events events)
          results)

    unfoldable pub finish_batch : Option (List Checked) → State (Process f o) (Option Reports)
    unfolding test_survivor_batch survivors_of collect fill_in
    finish_batch none = pure none
    finish_batch (some all) = do
      outcomes ← test_survivor_batch (length (survivors_of all)) (survivors_of all)
      pure (some (fill_in outcomes (collect all [])))

    unfoldable pub test_batch : String → List Candidate → State (Process f o) (Option Reports)
    unfolding check_all finish_batch
    test_batch source candidates = do
      all ← check_all source (o.completion candidates)
      finish_batch all
