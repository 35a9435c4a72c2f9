-- ===== src/Store/Schema.antt =====
-- The rows of the tables (`COMPAT_SCHEMA`, `NODE_ADDITIONS` and `EVENT_SCHEMA` of
-- src/src/storage/mod.rs), as far as the service reads or writes them.
use proxy_fleet.Common.{ℕ, String, Bool, Option, List, str_eq}
use proxy_fleet.Common.Float.{Float}
use proxy_fleet.Domain.Failure.{FailureClass}
use proxy_fleet.Domain.Lifecycle.{LifecycleState}
use proxy_fleet.Domain.Evidence.{TestStage}
use proxy_fleet.Parser.Json.{Value}

-- `metadata::ExitMetadata`, the columns `exit_ip` to `exit_info_json`.
pub record ExitMetadata : Type 0 where
  pub ip : String
  pub hostname : String
  pub city : String
  pub region : String
  pub country : String
  pub loc : String
  pub org : String
  pub postal : String
  pub timezone : String
  pub raw : Value

module _ (f : Float) where
  open f use {F}

  pub record Node : Type 0 where
    pub id : String
    pub config_hash : String
    pub raw_config : String
    pub normalized_config : Value
    pub source_subs : List String
    pub status : LifecycleState
    pub lifecycle_state : LifecycleState
    pub structurally_valid : Bool
    pub state_entered_at : Option ℕ
    pub testing_from_state : Option LifecycleState
    pub waiting_from_state : Option LifecycleState
    pub test_lease_until : Option ℕ
    pub main_port : Option ℕ
    pub relay_delay_ms : Option ℕ
    pub download_kbps : Option ℕ
    pub health_alpha : F
    pub health_beta : F
    pub health_score : F
    pub evidence_updated_at : Option ℕ
    pub publication_lease_until : Option ℕ
    pub publication_lease_kind : Option String
    pub activated_at : Option ℕ
    pub last_success_at : Option ℕ
    pub last_real_download_at : Option ℕ
    pub last_failure_at : Option ℕ
    pub last_failure_class : Option FailureClass
    pub last_failure_run_id : Option String
    pub success_streak : ℕ
    pub failure_streak : ℕ
    pub independent_failure_count : ℕ
    pub last_test_endpoint : Option String
    pub last_test_at : Option ℕ
    pub next_test_at : Option ℕ
    pub exit_info : Option ExitMetadata
    pub exit_info_fetched_at : Option ℕ
    pub metadata_lease_until : Option ℕ
    pub last_seen_generation : Option ℕ
    pub upstream_missing_generations : ℕ
    pub retired_at : Option ℕ
    pub tombstone_until : Option ℕ
    pub created_at : ℕ
    pub updated_at : ℕ

  -- A row of `proxy_test_events`.
  pub record TestEvent : Type 0 where
    pub proxy_id : String
    pub run_id : String
    pub occurred_at : ℕ
    pub stage : TestStage
    pub result : String
    pub class : FailureClass
    pub evidence_alpha : F
    pub evidence_beta : F
    pub half_life_seconds : ℕ
    pub latency_ms : Option F
    pub download_bps : Option F
    pub bytes_transferred : Option ℕ
    pub duration_ms : Option ℕ
    pub endpoint : Option String
    pub system_pressure : Option F
    pub incident_id : Option String
    pub detail_json : Value

  -- The two tables that a test touches. The newest event stands first, as `id` is AUTOINCREMENT.
  pub record Fleet : Type 0 where
    pub nodes : List Node
    pub events : List TestEvent

  -- `WHERE id = ?` and `WHERE config_hash = ?`
  abbrev pub has_id : String → Node → Bool
  has_id key n = str_eq n.id key

  abbrev pub has_hash : String → Node → Bool
  has_hash key n = str_eq n.config_hash key
