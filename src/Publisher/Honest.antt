-- ===== src/Publisher/Honest.antt =====
-- What a publication that reports a push has done.
use Prim.Native.String.{◌++◌ as str_append}
use proxy_fleet.Common.{
  String, Bool, true, false, ◌≡◌, refl, ◌⊎◌, inl, inr, List, [], ◌∷◌, Result, ok, err, Bool-cases,
}
use proxy_fleet.Store.Upstream.Publish.{PublicationSnapshot}
use proxy_fleet.Publisher.{
  Host, PublishingConfig, PublishResult, Machine, Step, and_then, try, run_in, run_git,
  rebase_to_remote, after_push, push_with_rebase_retry, push_if, publish_all, publish_snapshot,
  publish, push_args, report, is_pending, push_pending, write_both, ensure_repo, commit_if, join,
}

module _ (h : Host) where
  -- Git answered a push from the directory with success, in some state of the world.
  abbrev pub Pushed : String → String → Type 0
  Pushed dir branch =
      (w : h.W) × (out : String) × ((h.run dir ("git" ∷ push_args h branch) w).0 ≡ ok out)

  abbrev Holds : {A : Type 0} → (A → Type 0) → Result String A → Type 0
  Holds P (ok a) = P a
  Holds P (err e) = Unit

  try-Holds :
      {A B : Type 0} (Q : A → Type 0) (P : B → Type 0) (step : Step h A) (next : A → Step h B)
      (m : Machine h)
      → ((m : Machine h) → Holds Q (step m).0)
      → ((a : A) (m : Machine h) → Q a → Holds P (next a m).0)
      → Holds P (try h step next m).0
  unfolding try and_then
  try-Holds Q P step next m q go = after (step m).0 (step m).1 (q m)
    where
      after :
          (answer : Result String _) (m : Machine h)
          → Holds Q answer
          → Holds P (and_then h answer next m).0
      after (ok a) m q = go a m q
      after (err e) m q = tt

  anything : {A : Type 0} (answer : Result String A) → Holds {A = A} (λ _. Unit {0}) answer
  anything (ok a) = tt
  anything (err e) = tt

  -- A step of which nothing is known.
  trivially :
      {A B : Type 0} (P : B → Type 0) (step : Step h A) (next : A → Step h B) (m : Machine h)
      → ((a : A) (m : Machine h) → Holds P (next a m).0)
      → Holds P (try h step next m).0
  trivially P step next m go =
      try-Holds (λ _. Unit) P step next m (λ m. anything (step m).0) (λ a m _. go a m)

  run-Pushed :
      (dir branch : String) (m : Machine h)
      → Holds (λ _. Pushed dir branch) (run_git h dir (push_args h branch) m).0
  unfolding run_in
  run-Pushed dir branch m = seen (h.run dir ("git" ∷ push_args h branch) m.world).0 refl
    where
      seen :
          (answer : Result String String)
          → (h.run dir ("git" ∷ push_args h branch) m.world).0 ≡ answer
          → Holds (λ _. Pushed dir branch) answer
      seen (ok out) e = (m.world, out, e)
      seen (err text) e = tt

  after_push-Pushed :
      (dir branch : String) (answer : Result String String) (m : Machine h)
      → Holds (λ _. Pushed dir branch) answer
      → Holds (λ _. Pushed dir branch) (after_push h dir branch answer m).0
  unfolding after_push
  after_push-Pushed dir branch (ok _) m p = p
  after_push-Pushed dir branch (err text) m p =
      trivially _ (rebase_to_remote h dir branch) _ m (λ _ m.
        try-Holds (λ _. Pushed dir branch) (λ _. Pushed dir branch)
          (run_git h dir (push_args h branch)) _ m (run-Pushed dir branch) (λ _ m p. p))

  push_if-Pushed :
      (pending : Bool) (dir branch : String) (m : Machine h)
      → Holds (λ _. (pending ≡ false) ⊎ Pushed dir branch) (push_if h pending dir branch m).0
  unfolding push_if push_with_rebase_retry
  push_if-Pushed false dir branch m = inl refl
  push_if-Pushed true dir branch m =
      let step = run_git h dir (push_args h branch) m in
      weaken (after_push h dir branch step.0 step.1).0
        (after_push-Pushed dir branch step.0 step.1 (run-Pushed dir branch m))
    where
      weaken :
          (answer : Result String (Unit {0}))
          → Holds (λ _. Pushed dir branch) answer
          → Holds (λ _. (true ≡ false) ⊎ Pushed dir branch) answer
      weaken (ok _) p = inr p
      weaken (err text) p = tt

  -- A result that says nothing was pushed, or a push that git did.
  abbrev IsHonest : String → String → PublishResult → Type 0
  IsHonest dir branch r = (r.pushed ≡ false) ⊎ Pushed dir branch

  push_pending-IsHonest :
      (repo : String) (config : PublishingConfig) (snapshot : PublicationSnapshot)
      (changed committed : Bool) (m : Machine h)
      → Holds
          (IsHonest repo config.git_branch)
          (push_pending h repo config snapshot changed committed m).0
  unfolding push_pending report
  push_pending-IsHonest repo config snapshot changed committed m =
      trivially (IsHonest repo config.git_branch) _ _ m (λ pending m.
        try-Holds (λ _. (is_pending h pending ≡ false) ⊎ Pushed repo config.git_branch)
          (IsHonest repo config.git_branch)
          (push_if h (is_pending h pending) repo config.git_branch)
          (λ _. report h repo snapshot changed committed (is_pending h pending)) m
          (push_if-Pushed (is_pending h pending) repo config.git_branch) (λ _ m p. p))

  publish_all-IsHonest :
      (data_dir : String) (config : PublishingConfig) (snapshot : PublicationSnapshot)
      (m : Machine h)
      → Holds
          (IsHonest (str_append data_dir "/publisher-repo") config.git_branch)
          (publish_all h data_dir config snapshot m).0
  unfolding publish_all
  publish_all-IsHonest data_dir config snapshot m =
      let raw = str_append (join "\n" snapshot.raw_configs) "\n" in
      let encoded = str_append (h.base64 raw) "\n" in
      let repo = str_append data_dir "/publisher-repo" in
      let P = IsHonest repo config.git_branch in
      let last : Bool → Bool → Step h PublishResult =
        λ changed committed. push_pending h repo config snapshot changed committed in
      let fifth : Bool → Bool → Step h PublishResult =
        λ changed repo_changed. try h (commit_if h repo_changed repo snapshot) (last changed) in
      let fourth : Bool → Step h PublishResult = λ changed.
        try h (write_both h (str_append repo "/subscriptions") raw encoded) (fifth changed) in
      let third : Bool → Step h PublishResult =
        λ changed. try h (rebase_to_remote h repo config.git_branch) (λ _. fourth changed) in
      let second : Bool → Step h PublishResult =
        λ changed. try h (ensure_repo h data_dir repo config) (λ _. third changed) in
      trivially P (write_both h (str_append data_dir "/publish") raw encoded) second m (λ changed m.
        trivially P (ensure_repo h data_dir repo config) (λ _. third changed) m
          (λ _ m.
            trivially P (rebase_to_remote h repo config.git_branch) (λ _. fourth changed) m
              (λ _ m.
                trivially P (write_both h (str_append repo "/subscriptions") raw encoded)
                  (fifth changed) m
                  (λ repo_changed m.
                    trivially P (commit_if h repo_changed repo snapshot) (last changed) m
                      (λ committed m.
                        push_pending-IsHonest repo config snapshot changed committed m)))))

  publish-IsHonest :
      (data_dir : String) (config : PublishingConfig) (snapshot : PublicationSnapshot)
      (m : Machine h)
      → Holds
          (IsHonest (str_append data_dir "/publisher-repo") config.git_branch)
          (publish h data_dir config snapshot m).0
  unfolding publish publish_snapshot
  publish-IsHonest data_dir config snapshot m = elim (Bool-cases config.enabled) [
    | inl e ↦ rw (e, publish) (whole snapshot.raw_configs)
    | inr e ↦ rw (e, publish) (inl refl)
  ]
    where
      whole :
          (raw : List String)
          → Holds
              (IsHonest (str_append data_dir "/publisher-repo") config.git_branch)
              (publish_snapshot h data_dir (record config { enabled = true }) snapshot raw m).0
      whole [] = inl refl
      whole (_ ∷ _) = publish_all-IsHonest data_dir (record config { enabled = true }) snapshot m

  -- A publication that reports a push has one behind it: git answered the push of the configured
  -- branch from the repository of the feed with success, the first time or after the rebase.
  pub push_is_real :
      (data_dir : String) (config : PublishingConfig) (snapshot : PublicationSnapshot)
      (m : Machine h) (r : PublishResult)
      → (publish h data_dir config snapshot m).0 ≡ ok r
      → r.pushed ≡ true
      → Pushed (str_append data_dir "/publisher-repo") config.git_branch
  push_is_real data_dir config snapshot m r e p =
      let honest : IsHonest (str_append data_dir "/publisher-repo") config.git_branch r =
        rw e at (publish-IsHonest data_dir config snapshot m) in
      elim honest [ inl n ↦ absurd (cc (n, p)) | inr real ↦ real ]
