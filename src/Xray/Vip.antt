-- ===== src/Xray/Vip.antt =====
-- The VIP runtime: `maintain_vip` of src/src/xray/runtime.rs, and `best_vip_candidate` of
-- src/src/storage/mod.rs.
pub mod Switch
pub mod Progress
use Prim.Native.String.{compare}
use text.Mathlib.Text.{is_lt}
use proxy_fleet.Common.{
  ℕ, ◌+◌, ◌-◌, String, Bool, true, false, not, ◌&&◌, ◌||◌, ◌==◌, Option, none, some, List, [], ◌∷◌,
  filter, count_if, sort_by, leb, ltb, str_eq, unwrap_or, is_some, if◌then◌else◌, Result, ok, err,
}
use proxy_fleet.Common.State.{State, pure, ◌>>=◌, ◌>>◌}
use proxy_fleet.Common.Float.{Float, fclamp}
use proxy_fleet.Domain.Evidence.{seconds, minutes}
use proxy_fleet.Parser.{ParsedProxy}
use proxy_fleet.Store.Schema.{Node}
use proxy_fleet.Store.Clients.{Usage}
use proxy_fleet.Selection.{is_listed}
use proxy_fleet.Xray.Ports.{allocate_port, release}

module _ (f : Float) where
  open f use {F, lt, add, sub, mul, div, ratio, of_ℕ}

  pub record VipCandidate : Type 0 where
    pub id : String
    pub raw_config : String
    pub score : F

  -- `ORDER BY health_score DESC, COALESCE(download_kbps, 0) DESC, COALESCE(relay_delay_ms, 999999)
  -- ASC, config_hash ASC`
  unfoldable pub goes_first : Node f → Node f → Bool
  goes_first a b =
      lt b.health_score a.health_score
      || (not (lt a.health_score b.health_score)
          && (ltb (unwrap_or b.download_kbps 0) (unwrap_or a.download_kbps 0)
              || (unwrap_or b.download_kbps 0 == unwrap_or a.download_kbps 0
                  && (ltb (unwrap_or a.relay_delay_ms 999999) (unwrap_or b.relay_delay_ms 999999)
                      || (unwrap_or a.relay_delay_ms 999999 == unwrap_or b.relay_delay_ms 999999
                          && is_lt (compare a.config_hash b.config_hash))))))

  unfoldable pub vip_of : ℕ → List Usage → Node f → VipCandidate
  vip_of now usages n =
      let unit = fclamp f (of_ℕ 0) (of_ℕ 1) in
      let recent =
        count_if (λ (u : Usage). str_eq u.node_id n.id && leb (now - minutes 5) u.created_at)
          usages in
      let low_use = div (of_ℕ 1) (add (of_ℕ 1) (of_ℕ recent)) in
      let download = unit (div (of_ℕ (unwrap_or n.download_kbps 0)) (of_ℕ 1000)) in
      let latency =
        unit (sub (of_ℕ 1) (div (of_ℕ (unwrap_or n.relay_delay_ms 3000)) (of_ℕ 3000))) in
      record {
        id = n.id;
        raw_config = n.raw_config;
        score =
            add
              (add (add (mul n.health_score (ratio 55 100)) (mul download (ratio 22 100)))
                (mul latency (ratio 15 100)))
              (mul low_use (ratio 8 100));
      }

  abbrev first_of : ℕ → List Usage → List (Node f) → Option VipCandidate
  first_of now usages [] = none
  first_of now usages (n ∷ _) = some (vip_of now usages n)

  unfoldable pub best_vip_candidate : ℕ → List (Node f) → List Usage → Option VipCandidate
  unfolding goes_first vip_of
  best_vip_candidate now nodes usages =
      first_of now usages (sort_by goes_first (filter (is_listed f now) nodes))

  -- `VipRuntime` without its session
  pub record VipRuntime : Type 0 where
    pub node_id : String
    pub score : F
    pub raw_config : String
    pub started_at : ℕ

  pub record VipConfig : Type 0 where
    pub enabled : Bool
    pub port : ℕ
    pub min_switch_interval_seconds : ℕ
    pub switch_threshold_score_diff : F
    pub test_start : ℕ
    pub test_end : ℕ

  abbrev pub runtime_of : ℕ → VipCandidate → VipRuntime
  runtime_of now c = record {
    node_id = c.id;
    score = c.score;
    raw_config = c.raw_config;
    started_at = now;
  }

  -- Whether the current runtime stays: it is the candidate's, it is young, or the candidate is not
  -- better by enough.
  unfoldable pub stays : VipConfig → ℕ → VipCandidate → VipRuntime → Bool
  stays config now candidate current =
      str_eq current.node_id candidate.id
      || (ltb now (current.started_at + seconds config.min_switch_interval_seconds)
          || lt (sub candidate.score current.score) config.switch_threshold_score_diff)

  -- The world: `bind` listens on a port, `start` and `start_fixed` run Xray on a port of the test
  -- range and on the VIP port, `stop` ends it.
  module _ {W : Type 0} (bind : ℕ → State W Bool)
      (start : ParsedProxy → ℕ → State W (Result String (Unit {0})))
      (start_fixed : ParsedProxy → ℕ → State W (Result String (Unit {0})))
      (stop : State W (Unit {0})) (parse : String → String → Result String ParsedProxy) where
    pub record VipState : Type 0 where
      pub vip : Option VipRuntime
      pub reserved : List ℕ
      pub world : W

    abbrev Step : Type 0
    Step = State VipState (Result String (Unit {0}))

    abbrev lift : {A : Type 0} → State W A → State VipState A
    lift step s = ((step s.world).0, record s { world = (step s.world).1 })

    abbrev put_vip : Option VipRuntime → State VipState (Unit {0})
    put_vip vip s = (tt, record s { vip = vip })

    -- A restart of the previous target, whose failure is not reported.
    unfoldable pub restored : VipRuntime → Result String (Unit {0}) → State VipState (Unit {0})
    restored old (ok _) = put_vip (some old)
    restored old (err _) = pure tt

    unfoldable pub restore_parsed :
        VipConfig → VipRuntime → Result String ParsedProxy → State VipState (Unit {0})
    unfolding restored
    restore_parsed config old (err _) = pure tt
    restore_parsed config old (ok proxy) = lift (start_fixed proxy config.port) >>= restored old

    unfoldable pub restore : VipConfig → Option VipRuntime → State VipState (Unit {0})
    unfolding restore_parsed
    restore config none = pure tt
    restore config (some old) = restore_parsed config old (parse old.raw_config "vip-recovery")

    unfoldable pub on_start :
        VipConfig → ℕ → VipCandidate → Option VipRuntime → Result String (Unit {0}) → Step
    unfolding restore
    on_start config now candidate previous (ok _) = do
      put_vip (some (runtime_of now candidate))
      pure (ok tt)
    on_start config now candidate previous (err text) = do restore config previous; pure (err text)

    abbrev stop_old : Option VipRuntime → State VipState (Unit {0})
    stop_old none = pure tt
    stop_old (some _) = lift stop

    -- The switch, after the candidate has run on a test port.
    unfoldable pub switch : VipConfig → ℕ → VipCandidate → ParsedProxy → Option VipRuntime → Step
    unfolding on_start
    switch config now candidate proxy previous = do
      put_vip none
      stop_old previous
      started ← lift (start_fixed proxy config.port)
      on_start config now candidate previous started

    abbrev take_vip : State VipState (Option VipRuntime)
    take_vip s = (s.vip, s)

    unfoldable pub drop_port : ℕ → State VipState (Unit {0})
    drop_port port s = (tt, record s { reserved = release (port ∷ []) s.reserved })

    unfoldable pub on_preflight :
        VipConfig → ℕ → VipCandidate → ParsedProxy → ℕ → Result String (Unit {0}) → Step
    unfolding switch drop_port
    on_preflight config now candidate proxy port (err text) = do drop_port port; pure (err text)
    on_preflight config now candidate proxy port (ok _) = do
      lift stop
      previous ← take_vip
      answer ← switch config now candidate proxy previous
      drop_port port
      pure answer

    unfoldable pub on_port : VipConfig → ℕ → VipCandidate → ParsedProxy → Result String ℕ → Step
    unfolding on_preflight
    on_port config now candidate proxy (err text) = pure (err text)
    on_port config now candidate proxy (ok port) =
        lift (start proxy port) >>= on_preflight config now candidate proxy port

    unfoldable pub reserve : VipConfig → State VipState (Result String ℕ)
    reserve config s =
        let (answer, reserved, world) =
          allocate_port bind config.test_start config.test_end s.reserved s.world in
        (answer, record s { reserved = reserved; world = world })

    unfoldable pub on_parsed : VipConfig → ℕ → VipCandidate → Result String ParsedProxy → Step
    unfolding reserve on_port
    on_parsed config now candidate (err text) = pure (err text)
    on_parsed config now candidate (ok proxy) =
        reserve config >>= on_port config now candidate proxy

    unfoldable pub challenge : VipConfig → ℕ → VipCandidate → Option VipRuntime → Step
    unfolding stays on_parsed
    challenge config now candidate none =
        on_parsed config now candidate (parse candidate.raw_config "vip")
    challenge config now candidate (some current) =
        if stays config now candidate current
        then pure (ok tt)
        else on_parsed config now candidate (parse candidate.raw_config "vip")

    unfoldable pub with_candidate : VipConfig → ℕ → Option VipCandidate → Step
    unfolding challenge
    with_candidate config now none = pure (ok tt)
    with_candidate config now (some candidate) = take_vip >>= challenge config now candidate

    -- The times of the query, of the check and of the start are one.
    unfoldable pub maintain_vip : VipConfig → ℕ → List (Node f) → List Usage → Step
    unfolding with_candidate best_vip_candidate
    maintain_vip config now nodes usages =
        if config.enabled
        then with_candidate config now (best_vip_candidate now nodes usages)
        else pure (ok tt)
