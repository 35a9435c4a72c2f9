-- ===== src/Xray/Shutdown.antt =====
-- `shutdown` of src/src/xray/runtime.rs: every process is stopped, and its port cleared.
use mathlib.Core.List.{Memᴰ}
use proxy_fleet.Common.{
  ap, ℕ, String, false, ◌≡◌, refl, ◌⊎◌, inl, inr, Option, none, some, List, [], ◌∷◌, length, str_eq,
  All, Bool-cases,
}
use proxy_fleet.Common.State.{State}
use proxy_fleet.Common.Float.{Float}
use proxy_fleet.Store.Schema.{Node, has_id}
use proxy_fleet.Store.Upkeep.{clear_main_port}
use proxy_fleet.Xray.Runtime.{Manager}
use proxy_fleet.Xray.Vip.{VipRuntime}

module _ (f : Float) {W : Type 0} (stop_at : ℕ → State W (Unit {0}))
    (stop_vip : State W (Unit {0})) where
  pub record Running : Type 0 where
    pub manager : Manager
    pub vip : Option (VipRuntime f)
    pub nodes : List (Node f)
    pub world : W

  unfoldable pub stop_each : ℕ → List (String × ℕ) → List (Node f) → W → List (Node f) × W
  unfolding clear_main_port
  stop_each now [] nodes w = (nodes, w)
  stop_each now ((id, port) ∷ rest) nodes w =
      stop_each now rest (clear_main_port f now id nodes) (stop_at port w).1

  abbrev stop_taken : Option (VipRuntime f) → W → ℕ × W
  stop_taken none w = (0, w)
  stop_taken (some _) w = (1, (stop_vip w).1)

  -- The counts of the runtimes stopped, and what is left.
  unfoldable pub shutdown : ℕ → State Running (ℕ × ℕ)
  unfolding stop_each
  shutdown now s =
      let (nodes, w) = stop_each now s.manager.inner s.nodes s.world in
      let (vips, w') = stop_taken s.vip w in
      (
        (length s.manager.inner, vips),
        record { manager = record s.manager { inner = [] }; vip = none; nodes = nodes; world = w' },
      )

  -- The node has no port, or another id.
  abbrev pub IsFreed : String → Node f → Type 0
  IsFreed id n = (n.main_port ≡ none) ⊎ (str_eq n.id id ≡ false)

  clear-IsFreed :
      (now : ℕ) (id : String) (nodes : List (Node f))
      → All (IsFreed id) (clear_main_port f now id nodes)
  unfolding clear_main_port
  clear-IsFreed now id [] = tt
  clear-IsFreed now id (n ∷ ns) = (
    elim (Bool-cases (has_id f id n)) [ inl e ↦ rw e (inl refl) | inr e ↦ rw e (inr e) ],
    clear-IsFreed now id ns,
  )

  keep-IsFreed :
      (now : ℕ) (id other : String) (nodes : List (Node f))
      → All (IsFreed id) nodes
      → All (IsFreed id) (clear_main_port f now other nodes)
  unfolding clear_main_port
  keep-IsFreed now id other [] h = tt
  keep-IsFreed now id other (n ∷ ns) h = (
    elim (Bool-cases (has_id f other n)) [ inl e ↦ rw e (inl refl) | inr e ↦ rw e h.0 ],
    keep-IsFreed now id other ns h.1,
  )

  stop_each-IsFreed :
      (now : ℕ) (id : String) (entries : List (String × ℕ)) (nodes : List (Node f)) (w : W)
      → All (IsFreed id) nodes
      → All (IsFreed id) (stop_each now entries nodes w).0
  unfolding stop_each
  stop_each-IsFreed now id [] nodes w h = h
  stop_each-IsFreed now id ((other, port) ∷ rest) nodes w h =
      stop_each-IsFreed now id rest (clear_main_port f now other nodes) (stop_at port w).1
        (keep-IsFreed now id other nodes h)

  stop_each-frees :
      (now : ℕ) (entry : String × ℕ) (entries : List (String × ℕ)) (nodes : List (Node f)) (w : W)
      → Memᴰ entry entries
      → All (IsFreed entry.0) (stop_each now entries nodes w).0
  unfolding stop_each
  stop_each-frees now entry [] nodes w m = elim m [ ]
  stop_each-frees now entry ((id, port) ∷ rest) nodes w (Memᴰ.head same) =
      stop_each-IsFreed now entry.0 rest (clear_main_port f now id nodes) (stop_at port w).1
        (rw (ap (λ (e : String × ℕ). e.0) same) (clear-IsFreed now id nodes))
  stop_each-frees now entry ((id, port) ∷ rest) nodes w (Memᴰ.tail m) =
      stop_each-frees now entry rest (clear_main_port f now id nodes) (stop_at port w).1 m

  -- After a shutdown no process is left, and no node of a process that ran has a port.
  pub shutdown_lem :
      (now : ℕ) (s : Running) (entry : String × ℕ)
      → Memᴰ entry s.manager.inner
      → ((shutdown now s).1.manager.inner ≡ [])
        × ((shutdown now s).1.vip ≡ none)
        × All (IsFreed entry.0) (shutdown now s).1.nodes
  unfolding shutdown
  shutdown_lem now s entry m =
      (refl, refl, stop_each-frees now entry s.manager.inner s.nodes s.world m)
