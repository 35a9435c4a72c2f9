-- ===== src/Examples/Hotport.antt =====
-- The VIP runtime and the published feed at concrete inputs.
use proxy_fleet.Common.{
  ℕ, ◌+◌, String, Bool, true, ◌≡◌, refl, some, [], ◌∷◌, Result, ok, arith, All,
}
use proxy_fleet.Common.State.{State}
use proxy_fleet.Parser.{ParsedProxy}
use proxy_fleet.Store.Upstream.Publish.{publication_snapshot}
use proxy_fleet.Store.Upstream.Publish.Exact.{IsOfLeased, IsCovered, publication_snapshot-exact}
use proxy_fleet.Xray.Vip.{
  VipCandidate, VipRuntime, VipConfig, VipState, best_vip_candidate, maintain_vip, reserve, vip_of,
}
use proxy_fleet.Xray.Vip.Switch.{IsBetter, IsMaintained, maintain_vip_lem}
use proxy_fleet.Xray.Vip.Progress.{IsReady, Replaced, maintain_vip-replaces}
use proxy_fleet.Examples.Sample.{milli, noon}
use proxy_fleet.Examples.Sharing.{serving, accepted}

publication_snapshot-exact_example :
    All
      (IsOfLeased milli noon (serving ∷ []))
      (publication_snapshot milli noon (serving ∷ []) []).raw_configs
    × All (IsCovered milli noon (serving ∷ []) []) (serving ∷ [])
publication_snapshot-exact_example = publication_snapshot-exact milli noon (serving ∷ []) []

-- A machine that counts what is started: every port is free and every start succeeds.
abbrev bind : ℕ → State ℕ Bool
bind port w = (true, w)

abbrev begin : ParsedProxy → ℕ → State ℕ (Result String (Unit {0}))
begin proxy port w = (ok tt, w + 1)

abbrev halt : State ℕ (Unit {0})
halt w = (tt, w)

abbrev read : String → String → Result String ParsedProxy
read link source = ok accepted

abbrev config : VipConfig milli
config = record {
  enabled = true;
  port = 5050;
  min_switch_interval_seconds = 60;
  switch_threshold_score_diff = 50;
  test_start = 30000;
  test_end = 30010;
}

-- A runtime of another node, as old as the epoch.
abbrev old : VipRuntime milli
old = record { node_id = "n0"; score = 10; raw_config = "vless://old"; started_at = 0 }

abbrev state : VipState milli bind begin begin halt read
state = record { vip = some old; reserved = []; world = 0 }

abbrev candidate : VipCandidate milli
candidate = vip_of milli noon [] serving

best_is_serving : best_vip_candidate milli noon (serving ∷ []) [] ≡ some candidate
unfolding best_vip_candidate proxy_fleet.Selection.is_active
best_is_serving = refl

is_better : IsBetter milli config noon candidate old
unfolding vip_of
is_better = record { other = refl; aged = omega arith; gain = refl }

is_ready : IsReady milli bind begin begin halt read config candidate state
unfolding reserve proxy_fleet.Xray.Ports.allocate_port
is_ready = record {
  proxy = accepted;
  read = refl;
  port = 30000;
  free = refl;
  starts = ((λ port w. refl), (λ port w. refl));
}

maintain_vip_lem_example :
    IsMaintained milli bind begin begin halt read config noon
      (best_vip_candidate milli noon (serving ∷ []) [])
      (some old)
      (maintain_vip milli bind begin begin halt read config noon (serving ∷ []) [] state)
maintain_vip_lem_example =
    maintain_vip_lem milli bind begin begin halt read config noon (serving ∷ []) [] state

maintain_vip-replaces_example :
    Replaced milli bind begin begin halt read noon candidate
      (maintain_vip milli bind begin begin halt read config noon (serving ∷ []) [] state)
maintain_vip-replaces_example =
    maintain_vip-replaces milli bind begin begin halt read config noon (serving ∷ []) [] state
      candidate refl best_is_serving is_better is_ready
