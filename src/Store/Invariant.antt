-- ===== src/Store/Invariant.antt =====
-- When the table `nodes` is well-formed.
use proxy_fleet.Common.{
  String, Bool, true, false, Option, none, some, ◌≡◌, ◌↔◌, List, All, Distinct,
}
use proxy_fleet.Common.Float.{Float}
use proxy_fleet.Domain.Lifecycle.{
  LifecycleState, candidate, testing, active, probation, dormant, invalid,
}
use proxy_fleet.Store.Schema.{Node}

-- The states from which the scheduler claims (`QUEUE_ORDER`).
abbrev pub is_queue : LifecycleState → Bool
is_queue candidate = true
is_queue probation = true
is_queue dormant = true
is_queue active = true
is_queue _ = false

abbrev pub from_queue : Option LifecycleState → Bool
from_queue none = false
from_queue (some s) = is_queue s

module _ (f : Float) where
  -- The legacy `status` column agrees with the lifecycle, a row is structurally invalid just when
  -- it is INVALID, and a row under test knows the queue that it was claimed from.
  pub record IsSound (n : Node f) : Type 0 where
    pub status_agrees : n.status ≡ n.lifecycle_state
    pub invalid_iff : (n.structurally_valid ≡ false) ↔ (n.lifecycle_state ≡ invalid)
    pub testing_origin : n.lifecycle_state ≡ testing → from_queue n.testing_from_state ≡ true

  abbrev pub id_of : Node f → String
  id_of n = n.id

  abbrev pub hash_of : Node f → String
  hash_of n = n.config_hash

  pub record IsFleet (nodes : List (Node f)) : Type 0 where
    pub sound : All IsSound nodes
    pub ids : Distinct id_of nodes
    pub hashes : Distinct hash_of nodes
