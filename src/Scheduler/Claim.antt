-- ===== src/Scheduler/Claim.antt =====
-- `append_claims` and `claim_due_with_pressure` of src/src/scheduler/mod.rs: due nodes are put
-- under test, a guaranteed quota of each queue first, then whatever is left. Every query and every
-- update is a statement of its own: other tasks may change the table in between.
pub mod Credit
pub mod Bounds
pub mod Stuck
pub mod Sound
use Prim.Native.Nat.{Ordering}
use Prim.Native.Char.{code}
use Prim.Native.String
use Prim.Native.String.{compare}
use proxy_fleet.Common.{
  ℕ, zero, suc, ◌+◌, ◌-◌, ◌*◌, ◌%◌, String, Bool, true, false, not, ◌&&◌, ◌||◌, Option, none, some,
  List, [], ◌∷◌, ◌++◌, length, filter, take, sort_by, update_where, count_if, ltb, leb, ◌==◌, max,
  min, if◌then◌else◌, unwrap_or,
}
use mathlib.Core.Option
use proxy_fleet.Common.Float.{Float, fclamp}
use proxy_fleet.Domain.Failure.{FailureClass, tls_timeout}
use proxy_fleet.Domain.Lifecycle.{
  LifecycleState, candidate, testing, active, probation, dormant, waiting_for_port, eq_state,
}
use proxy_fleet.Domain.Evidence.{hours}
use proxy_fleet.Store.Schema.{Node, has_id}
use proxy_fleet.Scheduler.Quota.{QueueQuota, for_capacity}
use proxy_fleet.Scheduler.Debt.{QueueDebt, from_value, accrue, consume_times}

pub record TestJob : Type 0 where
  pub id : String
  pub raw_config : String
  pub lifecycle_state : LifecycleState
  pub reason : String
  pub download_due : Bool

pub record ClaimParams (f : Float) : Type 0 where
  pub state : LifecycleState
  pub queue_limit : ℕ
  pub reason : String
  pub now : ℕ
  pub lease : ℕ
  pub active_download_interval : ℕ
  pub pressure : f.F
  -- What other tasks do to the table before the statement on the row with the id, or, where the text
  -- is empty, before the query.
  pub meanwhile : String → List (Node f) → List (Node f)

-- `x IS NULL OR x <= now`
abbrev pub null_or_past : ℕ → Option ℕ → Bool
null_or_past now none = true
null_or_past now (some t) = leb t now

abbrev pub is_set {ℓ} : {A : Type ℓ} → Option A → Bool
is_set none = false
is_set (some _) = true

abbrev pub state_is : LifecycleState → Option LifecycleState → Bool
state_is s none = false
state_is s (some t) = eq_state t s

-- `unicode(substr(config_hash, i, 1))`; a hash has 64 characters.
abbrev unicode : String → ℕ → ℕ
unicode String.[] i = 0
unicode (String.◌∷◌ c s) zero = code c
unicode (String.◌∷◌ c s) (suc i) = unicode s i

abbrev bucket : String → ℕ
bucket hash = (unicode hash 0 * 31 + unicode hash 1) % 17

abbrev points : Bool → ℕ → ℕ
points b n = if b then n else 0

abbrev is_tls_timeout : Option FailureClass → Bool
is_tls_timeout (some tls_timeout) = true
is_tls_timeout _ = false

abbrev pub queue_order : List (LifecycleState × String)
queue_order =
    (candidate, "new")
    ∷ (probation, "successful_probation")
    ∷ (dormant, "recoverable_dormant")
    ∷ (active, "active_revalidation")
    ∷ []

module _ (f : Float) where
  open f use {le, ratio, of_ℕ}

  -- The two branches of `eligible`.
  unfoldable pub is_due : ClaimParams f → Node f → Bool
  is_due p n =
      n.structurally_valid
      && null_or_past p.now n.next_test_at
      && null_or_past p.now n.test_lease_until

  unfoldable pub in_queue : ClaimParams f → Node f → Bool
  unfolding is_due
  in_queue p n = eq_state n.lifecycle_state p.state && is_due p n

  unfoldable pub waits_for_queue : ClaimParams f → Node f → Bool
  unfolding is_due
  waits_for_queue p n =
      eq_state n.lifecycle_state waiting_for_port
      && state_is p.state n.waiting_from_state
      && is_due p n

  -- The sum of the `CASE`s of `ORDER BY`, counted from -180.
  unfoldable pub priority : ClaimParams f → Node f → ℕ
  priority p n =
      180
      + points
          (is_set n.publication_lease_until
            && null_or_past (p.now + hours 1) n.publication_lease_until)
          100
      + points (is_set n.last_real_download_at) 80
      + points (is_tls_timeout n.last_failure_class) 50
      + points (null_or_past (p.now - hours 1) n.last_test_at) 40
      + points (is_set n.last_seen_generation) 30
      - points (not (is_set n.last_real_download_at) && leb 5 n.failure_streak) 80
      - points
          (le (ratio 75 100) (fclamp f (of_ℕ 0) (of_ℕ 1) p.pressure)
            && not (is_set n.last_real_download_at))
          100

  -- NULL comes first.
  abbrev earlier : Option ℕ → Option ℕ → Bool
  earlier none none = false
  earlier none (some b) = true
  earlier (some a) none = false
  earlier (some a) (some b) = ltb a b

  unfoldable pub goes_before : ClaimParams f → Node f → Node f → Bool
  unfolding priority
  goes_before p a b =
      ltb (priority p b) (priority p a)
      || (priority p a == priority p b
          && (ltb (bucket a.config_hash) (bucket b.config_hash)
              || (bucket a.config_hash == bucket b.config_hash
                  && elim (compare a.config_hash b.config_hash) [
                    | Ordering.lt ↦ true
                    | Ordering.eq ↦ earlier a.next_test_at b.next_test_at
                    | Ordering.gt ↦ false
                  ])))

  unfoldable pub select_due : ClaimParams f → ℕ → List (Node f) → List (Node f)
  unfolding in_queue waits_for_queue goes_before
  select_due p limit nodes =
      take limit
        (sort_by (goes_before p) (filter (in_queue p) nodes ++ filter (waits_for_queue p) nodes))

  -- The `UPDATE` of one selected row.
  unfoldable pub put_under_test : ClaimParams f → Node f → Node f
  put_under_test p n = record n {
    testing_from_state =
        if eq_state n.lifecycle_state waiting_for_port
        then some (unwrap_or n.waiting_from_state candidate)
        else some n.lifecycle_state;
    waiting_from_state = none;
    lifecycle_state = testing;
    status = testing;
    test_lease_until = some (p.now + p.lease);
    updated_at = p.now;
  }

  unfoldable pub may_take : ClaimParams f → String → Node f → Bool
  may_take p key n = has_id f key n && null_or_past p.now n.test_lease_until

  -- The statement on one selected row.
  unfoldable pub claim_row : ClaimParams f → String → List (Node f) → List (Node f)
  unfolding may_take put_under_test
  claim_row p key nodes = update_where (may_take p key) (put_under_test p) nodes

  abbrev job_of : ClaimParams f → Node f → TestJob
  job_of p row = record {
    id = row.id;
    raw_config = row.raw_config;
    lifecycle_state = p.state;
    reason = p.reason;
    download_due =
        not (eq_state p.state active)
        || null_or_past p.now
            (Option.map (λ at. at + p.active_download_interval) row.last_real_download_at);
  }

  -- `effective_state` is the queue's state in both branches. The nodes and the jobs so far.
  abbrev pub Claims : Type 0
  Claims = List (Node f) × List TestJob

  unfoldable pub take_rows : ClaimParams f → List (Node f) → Claims → Claims
  unfolding may_take claim_row
  take_rows p [] claims = claims
  take_rows p (row ∷ rows) (nodes, jobs) =
      let table = p.meanwhile row.id nodes in
      take_rows p rows (
        claim_row p row.id table,
        (if count_if (may_take p row.id) table == 1 then jobs ++ job_of p row ∷ [] else jobs),
      )

  unfoldable pub append_claims : ℕ → ClaimParams f → Claims → Claims
  append_claims total_limit p (nodes, jobs) =
      if p.queue_limit == 0 || leb total_limit (length jobs)
      then (nodes, jobs)
      else let table = p.meanwhile "" nodes in
        take_rows p (select_due p (min p.queue_limit (total_limit - length jobs)) table)
          (table, jobs)

  -- The queue's share of the batch (`quota_by_state`).
  abbrev quota_of : QueueQuota → LifecycleState → ℕ
  quota_of q candidate = q.new
  quota_of q probation = q.successful_probation
  quota_of q dormant = q.recoverable_dormant
  quota_of q active = q.exploration
  quota_of q _ = 0

  -- The arguments of a tick.
  pub record Tick : Type 0 where
    pub capacity : ℕ
    pub now : ℕ
    pub lease : ℕ
    pub active_download_interval : ℕ
    pub pressure : f.F
    pub meanwhile : String → List (Node f) → List (Node f)

  abbrev params : Tick → ℕ → LifecycleState × String → ClaimParams f
  params t limit (state, reason) = record {
    state = state;
    queue_limit = limit;
    reason = reason;
    now = t.now;
    lease = t.lease;
    active_download_interval = t.active_download_interval;
    pressure = t.pressure;
    meanwhile = t.meanwhile;
  }

  -- One round of either loop: the claims, and the credit that they consume.
  unfoldable pub claim_round : ℕ → ClaimParams f → Claims × QueueDebt f → Claims × QueueDebt f
  claim_round capacity p (claims, debt) =
      let claims' = append_claims capacity p claims in
      (claims', consume_times f (length claims'.1 - length claims.1) p.state debt)

  unfoldable pub guaranteed :
      Tick → ℕ → List (LifecycleState × String) → Claims × QueueDebt f → Claims × QueueDebt f
  guaranteed t capacity [] s = s
  guaranteed t capacity (queue ∷ queues) s =
      guaranteed t capacity queues
        (claim_round capacity (params t (quota_of (for_capacity capacity) queue.0) queue) s)

  unfoldable pub overflow :
      Tick → ℕ → List (LifecycleState × String) → Claims × QueueDebt f → Claims × QueueDebt f
  overflow t capacity [] s = s
  overflow t capacity (queue ∷ queues) s =
      let jobs = s.0.1 in
      let rest =
        overflow t capacity queues
          (claim_round capacity (params t (capacity - length jobs) queue) s) in
      if length jobs == capacity then s else rest

  -- What a tick leaves: the nodes, the jobs, and the stored credit.
  pub record Claimed : Type 0 where
    pub nodes : List (Node f)
    pub jobs : List TestJob
    pub quota_debt : Option (QueueDebt f)

  unfoldable pub claim_due_with_pressure : Tick → List (Node f) → Option (QueueDebt f) → Claimed
  claim_due_with_pressure t nodes quota_debt =
      let capacity = max t.capacity 1 in
      let debt = accrue f capacity (from_value f quota_debt) in
      let ((nodes', jobs), debt') =
        overflow t capacity queue_order (guaranteed t capacity queue_order ((nodes, []), debt)) in
      record {
        nodes = nodes';
        jobs = jobs;
        quota_debt = if length jobs == 0 then quota_debt else some debt';
      }
