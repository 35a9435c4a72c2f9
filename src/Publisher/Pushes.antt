-- ===== src/Publisher/Pushes.antt =====
-- Which commands a publication can run.
use Prim.Native.String.{◌++◌ as str_append}
use proxy_fleet.Common.{
  ℕ, ◌+◌, ◌≤◌, String, Bool, true, false, ◌≡◌, refl, List, [], ◌∷◌, ◌++◌, count_if, str_eq, Result,
  ok, err, arith, Option, none, some, Bool-cases, inl, inr,
}
use proxy_fleet.Store.Upstream.Publish.{PublicationSnapshot}
use proxy_fleet.Publisher.{
  Host, PublishingConfig, Machine, Step, and_then, try, lift, run_in, run_git, replace_file,
  over_content, write_if_changed, after_rebase, rebase_to_remote, after_push,
  push_with_rebase_retry, clone, ensure_repo, write_both, commit_if, push_if, publish_all,
  publish_snapshot, publish, fetch_args, rebase_args, push_args, clone_unless, report, is_pending,
  push_pending, join,
}

-- The word after the program's name.
abbrev pub has_verb : String → List String → Bool
has_verb verb (program ∷ v ∷ rest) = str_eq v verb
has_verb verb _ = false

count_if-snoc {ℓ} :
    {A : Type ℓ} (test : A → Bool) (xs : List A) (x : A)
    → count_if test (xs ++ x ∷ []) ≡ count_if test xs + count_if test (x ∷ [])
count_if-snoc test [] x = omega arith
count_if-snoc test (y ∷ xs) x = ground (arith, count_if-snoc test xs x)

module _ (h : Host) where
  -- At most so many pushes more than before, and no reset.
  pub record Within {A : Type 0} (n : ℕ) (before : Machine h) (r : A × Machine h) : Type 0 where
    pub pushes :
        count_if (has_verb "push") r.1.commands ≤ count_if (has_verb "push") before.commands + n
    pub resets :
        count_if (has_verb "reset") r.1.commands ≡ count_if (has_verb "reset") before.commands

  pure-Within :
      {A : Type 0} (n : ℕ) (a : A) (before m : Machine h)
      → m.commands ≡ before.commands
      → Within n before (a, m)
  pure-Within n a before m e = record { pushes = rw e (omega arith); resets = rw e refl }

  try-Within :
      {A B : Type 0} (n k : ℕ) (step : Step h A) (next : A → Step h B) (m : Machine h)
      → ((m : Machine h) → Within n m (step m))
      → ((a : A) (m : Machine h) → Within k m (next a m))
      → Within (n + k) m (try h step next m)
  unfolding try and_then
  try-Within n k step next m w go = after (step m) (w m)
    where
      after : (r : _ × Machine h) → Within n m r → Within (n + k) m (and_then h r.0 next r.1)
      after (ok a, m') w' =
          let v = go a m' in
          record {
            pushes = omega (arith, w'.pushes, v.pushes);
            resets = omega (arith, w'.resets, v.resets);
          }
      after (err e, m') w' = record { pushes = omega (arith, w'.pushes); resets = w'.resets }

  -- A command that is neither a push nor a reset, and a push.
  run-Within :
      (dir program verb : String) (rest : List String) (m : Machine h)
      → str_eq verb "push" ≡ false
      → str_eq verb "reset" ≡ false
      → Within 0 m (run_in h dir (program ∷ verb ∷ rest) m)
  unfolding run_in
  run-Within dir program verb rest m p r =
      let pushes = count_if-snoc (has_verb "push") m.commands (program ∷ verb ∷ rest) in
      let resets = count_if-snoc (has_verb "reset") m.commands (program ∷ verb ∷ rest) in
      let pushes' = rw p at pushes in
      let resets' = rw r at resets in
      record { pushes = omega (arith, pushes'); resets = omega (arith, resets') }

  push-Within :
      (dir branch : String) (m : Machine h) → Within 1 m (run_git h dir (push_args h branch) m)
  unfolding run_in
  push-Within dir branch m =
      let args : List String = "git" ∷ push_args h branch in
      let pushes = count_if-snoc (has_verb "push") m.commands args in
      let resets = count_if-snoc (has_verb "reset") m.commands args in
      record { pushes = omega (arith, pushes); resets = omega (arith, resets) }

  replace-Within : (path bytes : String) (m : Machine h) → Within 0 m (replace_file h path bytes m)
  unfolding replace_file
  replace-Within path bytes m =
      try-Within 0 0 (lift h (h.replace path bytes)) _ m (λ m. pure-Within 0 _ m _ refl)
        (λ _ m. pure-Within 0 _ m m refl)

  over_content-Within :
      (path bytes : String) (now : Option String) (m : Machine h)
      → Within 0 m (over_content h path bytes now m)
  unfolding over_content
  over_content-Within path bytes none m = replace-Within path bytes m
  over_content-Within path bytes (some old) m = elim (Bool-cases (str_eq old bytes)) [
    | inl e ↦ rw (e, over_content) (pure-Within 0 (ok false) m m refl)
    | inr e ↦ rw (e, over_content) (replace-Within path bytes m)
  ]

  write-Within :
      (path bytes : String) (m : Machine h) → Within 0 m (write_if_changed h path bytes m)
  unfolding write_if_changed
  write-Within path bytes m =
      let m' : Machine h = record m { world = (h.read path m.world).1 } in
      let w = over_content-Within path bytes (h.read path m.world).0 m' in
      record { pushes = w.pushes; resets = w.resets }

  after_rebase-Within :
      (dir : String) (answer : Result String String) (m : Machine h)
      → Within 0 m (after_rebase h dir answer m)
  unfolding after_rebase
  after_rebase-Within dir (ok _) m = pure-Within 0 _ m m refl
  after_rebase-Within dir (err text) m =
      let w = run-Within dir "git" "rebase" ("--abort" ∷ []) m refl refl in
      record { pushes = w.pushes; resets = w.resets }

  -- What ran before and what runs after it.
  after-Within :
      {A B : Type 0} (n k : ℕ) (m : Machine h) (r : A × Machine h) (s : B × Machine h)
      → Within n m r
      → Within k r.1 s
      → Within (n + k) m s
  after-Within n k m r s w v = record {
    pushes = omega (arith, w.pushes, v.pushes);
    resets = omega (arith, w.resets, v.resets);
  }

  rebase-Within :
      (dir branch : String) (m : Machine h) → Within 0 m (rebase_to_remote h dir branch m)
  unfolding rebase_to_remote
  rebase-Within dir branch m =
      try-Within 0 0 (run_git h dir (fetch_args h branch)) _ m
        (λ m. run-Within dir "git" "fetch" ("origin" ∷ branch ∷ []) m refl refl)
        (λ _ m.
          after-Within 0 0 m (run_git h dir (rebase_args h branch) m) _
            (run-Within dir "git" "rebase" _ m refl refl) (after_rebase-Within dir _ _))

  after_push-Within :
      (dir branch : String) (answer : Result String String) (m : Machine h)
      → Within 1 m (after_push h dir branch answer m)
  unfolding after_push
  after_push-Within dir branch (ok _) m = pure-Within 1 _ m m refl
  after_push-Within dir branch (err text) m =
      try-Within 0 1 (rebase_to_remote h dir branch) _ m (rebase-Within dir branch) (λ _ m.
        try-Within 1 0 (run_git h dir (push_args h branch)) _ m (push-Within dir branch)
          (λ _ m. pure-Within 0 _ m m refl))

  push_with_retry-Within :
      (dir branch : String) (m : Machine h) → Within 2 m (push_with_rebase_retry h dir branch m)
  unfolding push_with_rebase_retry
  push_with_retry-Within dir branch m =
      after-Within 1 1 m (run_git h dir (push_args h branch) m) _ (push-Within dir branch m)
        (after_push-Within dir branch _ _)

  write_both-Within :
      (dir raw encoded : String) (m : Machine h) → Within 0 m (write_both h dir raw encoded m)
  unfolding write_both
  write_both-Within dir raw encoded m =
      let first = str_append dir "/active-raw.txt" in
      let second = str_append dir "/active.txt" in
      try-Within 0 0 (write_if_changed h first raw) _ m (write-Within first raw) (λ _ m.
        try-Within 0 0 (write_if_changed h second encoded) _ m (write-Within second encoded)
          (λ _ m. pure-Within 0 _ m m refl))

  clone-Within :
      (parent dir : String) (config : PublishingConfig) (m : Machine h)
      → Within 0 m (clone h parent dir config m)
  unfolding clone
  clone-Within parent dir config m =
      try-Within 0 0 (lift h (h.create_parent dir)) _ m (λ m. pure-Within 0 _ m _ refl)
        (λ _ m.
          let m' : Machine h = record m { world = (h.holds_entries dir m.world).1 } in
          elim (Bool-cases (h.holds_entries dir m.world).0) [
            | inl e ↦ rw e (pure-Within 0 _ m m' refl)
            | inr e ↦
                let w = run-Within parent "git" "clone" _ m' refl refl in
                rw e (record { pushes = w.pushes; resets = w.resets })
          ])

  clone_unless-Within :
      (there : Bool) (parent dir : String) (config : PublishingConfig) (m : Machine h)
      → Within 0 m (clone_unless h there parent dir config m)
  unfolding clone_unless
  clone_unless-Within true parent dir config m = pure-Within 0 _ m m refl
  clone_unless-Within false parent dir config m = clone-Within parent dir config m

  run_then-Within :
      {B : Type 0} (k : ℕ) (dir verb : String) (rest : List String) (next : String → Step h B)
      (m : Machine h)
      → str_eq verb "push" ≡ false
      → str_eq verb "reset" ≡ false
      → ((a : String) (m : Machine h) → Within k m (next a m))
      → Within k m (try h (run_git h dir (verb ∷ rest)) next m)
  run_then-Within k dir verb rest next m p r go =
      let w =
        try-Within 0 k (run_git h dir (verb ∷ rest)) next m
          (λ m. run-Within dir "git" verb rest m p r) go in
      record { pushes = omega (arith, w.pushes); resets = w.resets }

  ensure_repo-Within :
      (parent dir : String) (config : PublishingConfig) (m : Machine h)
      → Within 0 m (ensure_repo h parent dir config m)
  unfolding ensure_repo
  ensure_repo-Within parent dir config m =
      let there = h.is_dir (str_append dir "/.git") m.world in
      let m' : Machine h = record m { world = there.1 } in
      let w =
        try-Within 0 0 (clone_unless h there.0 parent dir config) _ m'
          (clone_unless-Within there.0 parent dir config)
          (λ _ m. run_then-Within 0 dir "remote" _ _ m refl refl (λ _ m.
            run_then-Within 0 dir "config" _ _ m refl refl (λ _ m.
              run_then-Within 0 dir "config" _ _ m refl refl
                (λ _ m. pure-Within 0 (ok tt) m m refl)))) in
      record { pushes = w.pushes; resets = w.resets }

  commit_if-Within :
      (changed : Bool) (dir : String) (snapshot : PublicationSnapshot) (m : Machine h)
      → Within 0 m (commit_if h changed dir snapshot m)
  unfolding commit_if
  commit_if-Within false dir snapshot m = pure-Within 0 _ m m refl
  commit_if-Within true dir snapshot m =
      run_then-Within 0 dir "add" _ _ m refl refl
        (λ _ m. run_then-Within 0 dir "commit" _ _ m refl refl (λ _ m. pure-Within 0 _ m m refl))

  push_if-Within :
      (pending : Bool) (dir branch : String) (m : Machine h)
      → Within 2 m (push_if h pending dir branch m)
  unfolding push_if
  push_if-Within false dir branch m = pure-Within 2 _ m m refl
  push_if-Within true dir branch m = push_with_retry-Within dir branch m

  report-Within :
      (repo : String) (snapshot : PublicationSnapshot) (changed committed pushed : Bool)
      (m : Machine h)
      → Within 0 m (report h repo snapshot changed committed pushed m)
  unfolding report
  report-Within repo snapshot changed committed pushed m =
      let w = run-Within repo "git" "rev-parse" ("--short" ∷ "HEAD" ∷ []) m refl refl in
      record { pushes = w.pushes; resets = w.resets }

  push_pending-Within :
      (repo : String) (config : PublishingConfig) (snapshot : PublicationSnapshot)
      (changed committed : Bool) (m : Machine h)
      → Within 2 m (push_pending h repo config snapshot changed committed m)
  unfolding push_pending
  push_pending-Within repo config snapshot changed committed m =
      run_then-Within 2 repo "rev-list" _ _ m refl refl (λ pending m.
        try-Within 2 0 (push_if h (is_pending h pending) repo config.git_branch) _ m
          (push_if-Within (is_pending h pending) repo config.git_branch)
          (λ _ m. report-Within repo snapshot changed committed (is_pending h pending) m))

  publish_all-Within :
      (data_dir : String) (config : PublishingConfig) (snapshot : PublicationSnapshot)
      (m : Machine h)
      → Within 2 m (publish_all h data_dir config snapshot m)
  unfolding publish_all
  publish_all-Within data_dir config snapshot m =
      let raw = str_append (join "\n" snapshot.raw_configs) "\n" in
      let encoded = str_append (h.base64 raw) "\n" in
      let repo = str_append data_dir "/publisher-repo" in
      let local = str_append data_dir "/publish" in
      let feed = str_append repo "/subscriptions" in
      try-Within 0 2 (write_both h local raw encoded) _ m (write_both-Within local raw encoded)
        (λ changed m.
          try-Within 0 2 (ensure_repo h data_dir repo config) _ m
            (ensure_repo-Within data_dir repo config)
            (λ _ m.
              try-Within 0 2 (rebase_to_remote h repo config.git_branch) _ m
                (rebase-Within repo config.git_branch)
                (λ _ m.
                  try-Within 0 2 (write_both h feed raw encoded) _ m
                    (write_both-Within feed raw encoded)
                    (λ repo_changed m.
                      try-Within 0 2 (commit_if h repo_changed repo snapshot) _ m
                        (commit_if-Within repo_changed repo snapshot)
                        (λ committed m.
                          push_pending-Within repo config snapshot changed committed m)))))

  publish_snapshot-Within :
      (data_dir : String) (config : PublishingConfig) (snapshot : PublicationSnapshot)
      (raw : List String) (m : Machine h)
      → Within 2 m (publish_snapshot h data_dir config snapshot raw m)
  unfolding publish_snapshot
  publish_snapshot-Within data_dir config snapshot [] m = pure-Within 2 _ m m refl
  publish_snapshot-Within data_dir config snapshot (_ ∷ _) m =
      publish_all-Within data_dir config snapshot m

  -- Whatever its commands and the file system answer, a publication runs at most two pushes, and it
  -- resets nothing.
  pub pushes_twice_at_most :
      (data_dir : String) (config : PublishingConfig) (snapshot : PublicationSnapshot)
      (m : Machine h)
      → Within 2 m (publish h data_dir config snapshot m)
  unfolding publish
  pushes_twice_at_most data_dir config snapshot m = elim (Bool-cases config.enabled) [
    | inl e ↦
        rw (e, publish)
          (publish_snapshot-Within data_dir (record config { enabled = true }) snapshot
            snapshot.raw_configs m)
    | inr e ↦ rw (e, publish) (pure-Within 2 _ m m refl)
  ]
