-- ===== src/Store/Clients.antt =====
-- `record_assignment` and `apply_client_feedback` of src/src/storage/mod.rs: what each client of the
-- service thinks of the nodes that it was given.
pub mod Cooldown
use proxy_fleet.Common.{
  ℕ, ◌+◌, ◌-◌, ◌*◌, ◌^◌, ◌%◌, String, Bool, true, false, not, ◌&&◌, Option, none, some, List, [],
  ◌∷◌, ◌++◌, any, find, update_where, min, if◌then◌else◌, is_some, str_eq, saturating_mul_u64,
  Result, ok, err,
}
use proxy_fleet.Common.Float.{Float}
use proxy_fleet.Domain.Evidence.{seconds}
use proxy_fleet.Store.Schema.{Node, has_id}

pub data Circuit : Type 0 where
  closed opened : Circuit

-- The three texts that a client may send.
pub data Feedback : Type 0 where
  used broken rate_limited : Feedback

unfoldable pub read_feedback : String → Option Feedback
read_feedback status =
    if str_eq status "used"
    then some used
    else if str_eq status "broken"
    then some broken
    else if str_eq status "rate_limited"
    then some rate_limited
    else none

-- A base and a cap of `client_penalty`, in seconds.
pub record Penalty : Type 0 where
  pub base_cooldown_seconds : ℕ
  pub max_cooldown_seconds : ℕ

-- The range that `full_jitter_cooldown` draws from; the streak is cut to 32 bits by the caller.
unfoldable pub cooldown_ceiling : Penalty → ℕ → ℕ
cooldown_ceiling p streak =
    min (saturating_mul_u64 p.base_cooldown_seconds (2 ^ min (streak % 4294967296 - 1) 20))
      p.max_cooldown_seconds

-- A row of `assignment_events`.
pub record Assignment : Type 0 where
  pub client_id : String
  pub node_id : String
  pub port : ℕ
  pub assigned_at : ℕ
  pub feedback_status : Option String
  pub feedback_at : Option ℕ

-- A row of `usage_events`.
pub record Usage : Type 0 where
  pub client_id : String
  pub node_id : String
  pub event_type : String
  pub created_at : ℕ

module _ (f : Float) where
  open f use {F, add, mul, ratio}

  -- A row of `client_node_state`; client and node are its key.
  pub record ClientState : Type 0 where
    pub client_id : String
    pub node_id : String
    pub state : Circuit
    pub fail_streak : ℕ
    pub rate_limit_streak : ℕ
    pub cooldown_until : Option ℕ
    pub usage_count : ℕ
    pub success_count : ℕ
    pub broken_count : ℕ
    pub rate_limited_count : ℕ
    pub success_rate_ewma : F
    pub last_assigned_at : Option ℕ
    pub last_feedback_at : Option ℕ
    pub last_failure_at : Option ℕ
    pub last_success_at : Option ℕ

  -- The defaults of the columns.
  abbrev pub fresh_client : String → String → ClientState
  fresh_client client node = record {
    client_id = client;
    node_id = node;
    state = closed;
    fail_streak = 0;
    rate_limit_streak = 0;
    cooldown_until = none;
    usage_count = 0;
    success_count = 0;
    broken_count = 0;
    rate_limited_count = 0;
    success_rate_ewma = ratio 5 10;
    last_assigned_at = none;
    last_feedback_at = none;
    last_failure_at = none;
    last_success_at = none;
  }

  abbrev pub is_client : String → String → ClientState → Bool
  is_client client node row = str_eq row.client_id client && str_eq row.node_id node

  -- `INSERT … ON CONFLICT DO UPDATE`: `set` is applied to the row, or to the defaults.
  unfoldable pub upsert :
      String → String → (ClientState → ClientState) → List ClientState → List ClientState
  upsert client node set [] = set (fresh_client client node) ∷ []
  upsert client node set (row ∷ rows) =
      let rest = upsert client node set rows in
      if is_client client node row then set row ∷ rows else row ∷ rest

  pub record Clients : Type 0 where
    pub rows : List ClientState
    pub assignments : List Assignment
    pub usages : List Usage

  abbrev usage : ℕ → String → String → String → Usage
  usage now client node kind = record {
    client_id = client;
    node_id = node;
    event_type = kind;
    created_at = now;
  }

  unfoldable pub record_assignment : ℕ → String → String → ℕ → Clients → Clients
  unfolding upsert
  record_assignment now client node port db = record {
    rows = upsert client node (λ row. record row { last_assigned_at = some now }) db.rows;
    assignments =
        record {
          client_id = client;
          node_id = node;
          port = port;
          assigned_at = now;
          feedback_status = none;
          feedback_at = none;
        }
        ∷ db.assignments;
    usages = usage now client node "assigned" ∷ db.usages;
  }

  -- The two penalties of the configuration.
  pub record Penalties : Type 0 where
    pub broken_penalty : Penalty
    pub rate_penalty : Penalty

  -- `now + full_jitter_cooldown(…)`
  abbrev pub cooldown : (ℕ → ℕ) → ℕ → Penalty → ℕ → Option ℕ
  cooldown draw now p streak = some (now + seconds (draw (cooldown_ceiling p streak)))

  unfoldable pub judge : (ℕ → ℕ) → ℕ → Penalties → Feedback → ClientState → ClientState
  unfolding cooldown_ceiling
  judge draw now p used row = record row {
    state = closed;
    fail_streak = 0;
    rate_limit_streak = 0;
    cooldown_until = none;
    usage_count = row.usage_count + 1;
    success_count = row.success_count + 1;
    success_rate_ewma = add (mul row.success_rate_ewma (ratio 7 10)) (ratio 3 10);
    last_feedback_at = some now;
    last_failure_at = none;
    last_success_at = some now;
  }
  judge draw now p broken row = record row {
    state = opened;
    fail_streak = row.fail_streak + 1;
    cooldown_until = cooldown draw now p.broken_penalty (row.fail_streak + 1);
    broken_count = row.broken_count + 1;
    success_rate_ewma = mul row.success_rate_ewma (ratio 7 10);
    last_feedback_at = some now;
    last_failure_at = some now;
    last_success_at = none;
  }
  judge draw now p rate_limited row = record row {
    state = opened;
    rate_limit_streak = row.rate_limit_streak + 1;
    cooldown_until = cooldown draw now p.rate_penalty (row.rate_limit_streak + 1);
    rate_limited_count = row.rate_limited_count + 1;
    success_rate_ewma = mul row.success_rate_ewma (ratio 7 10);
    last_feedback_at = some now;
    last_failure_at = some now;
    last_success_at = none;
  }

  -- The newest assignment stands first; the first that is still open is answered.
  unfoldable pub answer : ℕ → String → String → String → List Assignment → List Assignment
  answer now client node status [] = []
  answer now client node status (a ∷ rest) =
      let others = answer now client node status rest in
      if str_eq a.client_id client && str_eq a.node_id node && not (is_some a.feedback_status)
      then record a { feedback_status = some status; feedback_at = some now } ∷ rest
      else a ∷ others

  -- The three statements of the transaction.
  unfoldable pub record_feedback :
      (ℕ → ℕ) → ℕ → Penalties → String → String → String → Feedback → Clients → Clients
  unfolding upsert judge answer
  record_feedback draw now p client node status feedback db = record {
    rows = upsert client node (judge draw now p feedback) db.rows;
    assignments = answer now client node status db.assignments;
    usages = usage now client node status ∷ db.usages;
  }

  unfoldable pub feedback_on :
      (ℕ → ℕ)
      → ℕ
      → Penalties
      → String
      → String
      → String
      → Clients
      → Option Feedback
      → Result String Clients
  unfolding record_feedback
  feedback_on draw now p client node status db none = err "invalid feedback status"
  feedback_on draw now p client node status db (some feedback) =
      ok (record_feedback draw now p client node status feedback db)

  unfoldable pub apply_client_feedback :
      (ℕ → ℕ)
      → ℕ
      → Penalties
      → String
      → String
      → String
      → List (Node f)
      → Clients
      → Result String Clients
  unfolding feedback_on read_feedback
  apply_client_feedback draw now p client node status nodes db =
      if any (has_id f node) nodes
      then feedback_on draw now p client node status db (read_feedback status)
      else err "node not found"
