-- ===== src/Xray/Vip/Switch.antt =====
-- When the VIP runtime changes.
use mathlib.Core.Path.{subst}
use proxy_fleet.Common.{
  ℕ, ◌+◌, ◌≤◌, String, Bool, true, false, ◌≡◌, refl, ◌⊎◌, inl, inr, Option, none, some, List,
  str_eq, Result, ok, err, Bool-cases, arith,
}
use proxy_fleet.Common.State.{State}
use proxy_fleet.Common.Float.{Float}
use proxy_fleet.Domain.Evidence.{seconds}
use proxy_fleet.Parser.{ParsedProxy}
use proxy_fleet.Store.Schema.{Node}
use proxy_fleet.Store.Clients.{Usage}
use proxy_fleet.Xray.Vip.{
  VipCandidate, VipRuntime, VipConfig, VipState, runtime_of, stays, restored, restore_parsed,
  restore, on_start, switch, on_preflight, on_port, reserve, on_parsed, challenge, with_candidate,
  maintain_vip, best_vip_candidate, drop_port,
}

module _ (f : Float) where
  open f use {lt, sub}

  -- The candidate is another node, the current runtime is old enough, and the gain is large enough.
  pub record IsBetter (config : VipConfig f) (now : ℕ) (candidate : VipCandidate f)
      (current : VipRuntime f) : Type 0 where
    pub other : str_eq current.node_id candidate.id ≡ false
    pub aged : current.started_at + seconds config.min_switch_interval_seconds ≤ now
    pub gain : lt (sub candidate.score current.score) config.switch_threshold_score_diff ≡ false

  -- There is no runtime, or the candidate is better than it.
  abbrev pub MayReplace : VipConfig f → ℕ → VipCandidate f → Option (VipRuntime f) → Type 0
  MayReplace config now candidate none = Unit
  MayReplace config now candidate (some current) = IsBetter config now candidate current

  stays-IsBetter :
      (config : VipConfig f) (now : ℕ) (candidate : VipCandidate f) (current : VipRuntime f)
      → stays f config now candidate current ≡ false
      → IsBetter config now candidate current
  unfolding stays
  stays-IsBetter config now candidate current h = record {
    other = ground arith;
    aged = ground arith;
    gain = ground arith;
  }

  module _ {W : Type 0} (bind : ℕ → State W Bool)
      (start : ParsedProxy → ℕ → State W (Result String (Unit {0})))
      (start_fixed : ParsedProxy → ℕ → State W (Result String (Unit {0})))
      (stop : State W (Unit {0})) (parse : String → String → Result String ParsedProxy) where
    abbrev S : Type 0
    S = VipState f bind start start_fixed stop parse

    -- What became of the runtime: it is the same, it is the candidate's, or it is lost and the step
    -- failed.
    abbrev pub IsOutcome :
        ℕ → VipCandidate f → Option (VipRuntime f) → Result String (Unit {0}) × S → Type 0
    IsOutcome now candidate before r =
        (r.1.vip ≡ before)
        ⊎ ((r.1.vip ≡ some (runtime_of f now candidate)) × (r.0 ≡ ok tt))
        ⊎ ((r.1.vip ≡ none) × ((text : String) × (r.0 ≡ err text)))

    -- After a failed start the runtime is the previous one, or none.
    abbrev Restores : Option (VipRuntime f) → S → Type 0
    Restores before s = (s.vip ≡ before) ⊎ (s.vip ≡ none)

    restored-Restores :
        (old : VipRuntime f) (answer : Result String (Unit {0})) (s : S)
        → s.vip ≡ none
        → Restores (some old) (restored f bind start start_fixed stop parse old answer s).1
    unfolding restored
    restored-Restores old (ok _) s e = inl refl
    restored-Restores old (err text) s e = inr e

    restore_parsed-Restores :
        (config : VipConfig f) (old : VipRuntime f) (parsed : Result String ParsedProxy) (s : S)
        → s.vip ≡ none
        → Restores
            (some old)
            (restore_parsed f bind start start_fixed stop parse config old parsed s).1
    unfolding restore_parsed
    restore_parsed-Restores config old (err text) s e = inr e
    restore_parsed-Restores config old (ok proxy) s e =
        let step = start_fixed proxy config.port s.world in
        restored-Restores old step.0 (record s { world = step.1 }) e

    restore-Restores :
        (config : VipConfig f) (before : Option (VipRuntime f)) (s : S)
        → s.vip ≡ none
        → Restores before (restore f bind start start_fixed stop parse config before s).1
    unfolding restore
    restore-Restores config none s e = inl e
    restore-Restores config (some old) s e =
        restore_parsed-Restores config old (parse old.raw_config "vip-recovery") s e

    on_start-IsOutcome :
        (config : VipConfig f) (now : ℕ) (candidate : VipCandidate f)
        (before : Option (VipRuntime f)) (answer : Result String (Unit {0})) (s : S)
        → s.vip ≡ none
        → IsOutcome now candidate before
            (on_start f bind start start_fixed stop parse config now candidate before answer s)
    unfolding on_start
    on_start-IsOutcome config now candidate before (ok _) s e = inr (inl (refl, refl))
    on_start-IsOutcome config now candidate before (err text) s e =
        elim (restore-Restores config before s e) [
          | inl same ↦ inl same
          | inr gone ↦ inr (inr (gone, (text, refl)))
        ]

    switch-IsOutcome :
        (config : VipConfig f) (now : ℕ) (candidate : VipCandidate f) (proxy : ParsedProxy)
        (before : Option (VipRuntime f)) (s : S)
        → IsOutcome now candidate before
            (switch f bind start start_fixed stop parse config now candidate proxy before s)
    unfolding switch
    switch-IsOutcome config now candidate proxy none s =
        let step = start_fixed proxy config.port s.world in
        on_start-IsOutcome config now candidate none step.0
          (record s { vip = none; world = step.1 }) refl
    switch-IsOutcome config now candidate proxy (some old) s =
        let step = start_fixed proxy config.port (stop s.world).1 in
        on_start-IsOutcome config now candidate (some old) step.0
          (record s { vip = none; world = step.1 }) refl

    on_preflight-IsOutcome :
        (config : VipConfig f) (now : ℕ) (candidate : VipCandidate f) (proxy : ParsedProxy)
        (port : ℕ) (answer : Result String (Unit {0})) (s : S)
        → IsOutcome now candidate s.vip (
            on_preflight f bind start start_fixed stop parse config now candidate proxy port answer
              s)
    unfolding on_preflight drop_port
    on_preflight-IsOutcome config now candidate proxy port (err text) s = inl refl
    on_preflight-IsOutcome config now candidate proxy port (ok _) s =
        switch-IsOutcome config now candidate proxy s.vip (record s { world = (stop s.world).1 })

    on_parsed-IsOutcome :
        (config : VipConfig f) (now : ℕ) (candidate : VipCandidate f)
        (parsed : Result String ParsedProxy) (s : S)
        → IsOutcome now candidate s.vip
            (on_parsed f bind start start_fixed stop parse config now candidate parsed s)
    unfolding on_parsed reserve on_port
    on_parsed-IsOutcome config now candidate (err text) s = inl refl
    on_parsed-IsOutcome config now candidate (ok proxy) s =
        let step = reserve f bind start start_fixed stop parse config s in
        on_reserved step.0 step.1 refl
      where
        on_reserved :
            (answer : Result String ℕ) (t : S)
            → t.vip ≡ s.vip
            → IsOutcome now candidate s.vip
                (on_port f bind start start_fixed stop parse config now candidate proxy answer t)
        on_reserved (err text) t e = inl e
        on_reserved (ok port) t e =
            let step = start proxy port t.world in
            rw (← e) (
              on_preflight-IsOutcome config now candidate proxy port step.0
                (record t { world = step.1 }))

    -- Nothing changed, or the best candidate may replace the runtime, and then it does or the
    -- runtime is lost.
    abbrev pub IsMaintained :
        VipConfig f
        → ℕ
        → Option (VipCandidate f)
        → Option (VipRuntime f)
        → Result String (Unit {0}) × S
        → Type 0
    IsMaintained config now best before r =
        (r.1.vip ≡ before)
        ⊎ ((candidate : VipCandidate f) × (best ≡ some candidate)
            × MayReplace config now candidate before
            × IsOutcome now candidate before r)

    challenge-IsMaintained :
        (config : VipConfig f) (now : ℕ) (candidate : VipCandidate f)
        (current : Option (VipRuntime f)) (s : S)
        → s.vip ≡ current
        → IsMaintained config now
            (some candidate)
            current
            (challenge f bind start start_fixed stop parse config now candidate current s)
    unfolding challenge
    challenge-IsMaintained config now candidate none s e = inr (
      candidate,
      refl,
      tt,
      subst
          (λ v. IsOutcome now candidate v (
            on_parsed f bind start start_fixed stop parse config now candidate
              (parse candidate.raw_config "vip") s))
          e (on_parsed-IsOutcome config now candidate (parse candidate.raw_config "vip") s),
    )
    challenge-IsMaintained config now candidate (some current) s e =
        elim (Bool-cases (stays f config now candidate current)) [
          | inl t ↦ rw (t, challenge) (inl e)
          | inr t ↦
              rw (t, challenge)
                (inr (
                  candidate,
                  refl,
                  stays-IsBetter config now candidate current t,
                  subst
                      (λ v. IsOutcome now candidate v (
                        on_parsed f bind start start_fixed stop parse config now candidate
                          (parse candidate.raw_config "vip") s))
                      e
                      (on_parsed-IsOutcome config now candidate (parse candidate.raw_config "vip")
                        s),
                ))
        ]

    with_candidate-IsMaintained :
        (config : VipConfig f) (now : ℕ) (best : Option (VipCandidate f)) (s : S)
        → IsMaintained config now best s.vip
            (with_candidate f bind start start_fixed stop parse config now best s)
    unfolding with_candidate
    with_candidate-IsMaintained config now none s = inl refl
    with_candidate-IsMaintained config now (some candidate) s =
        challenge-IsMaintained config now candidate s.vip s refl

    -- The VIP runtime stays as it is, or the best candidate replaces it. That happens only where
    -- there was no runtime, or one of another node that has run for the least interval and that the
    -- candidate beats by the threshold. A runtime is lost only in a replacement that fails with an
    -- error; otherwise a replacement that fails restores the previous runtime.
    pub maintain_vip_lem :
        (config : VipConfig f) (now : ℕ) (nodes : List (Node f)) (usages : List Usage) (s : S)
        → IsMaintained config now
            (best_vip_candidate f now nodes usages)
            s.vip
            (maintain_vip f bind start start_fixed stop parse config now nodes usages s)
    unfolding maintain_vip
    maintain_vip_lem config now nodes usages s = elim (Bool-cases config.enabled) [
      | inl e ↦
          rw (e, maintain_vip)
            (with_candidate-IsMaintained (record config { enabled = true }) now
              (best_vip_candidate f now nodes usages) s)
      | inr e ↦ rw (e, maintain_vip) (inl refl)
    ]
