-- ===== src/Publisher.antt =====
-- The publication of the feed in src/src/publisher/mod.rs. Every command that is run is noted.
pub mod Honest
pub mod Pushes
use Prim.Native.String.{◌++◌ as str_append}
use proxy_fleet.Common.{
  ℕ, String, Bool, true, false, not, ◌&&◌, ◌||◌, Option, none, some, List, [], ◌∷◌, ◌++◌, length,
  ltb, str_eq, unwrap_or, if◌then◌else◌, Result, ok, err,
}
use proxy_fleet.Common.State.{State, pure, ◌>>=◌, ◌>>◌}
use proxy_fleet.Common.Text.{trim}
use proxy_fleet.Store.Upstream.Publish.{PublicationSnapshot}

-- The file system and the commands, outside the service; `base64` is `STANDARD.encode`, `read_u64` is
-- `parse::<u64>()`, and `show` prints a number.
pub record Host : Type 1 where
  pub W : Type 0
  pub read : String → State W (Option String)
  -- a write to a temporary file, and its rename
  pub replace : String → String → State W (Result String (Unit {0}))
  pub is_dir : String → State W Bool
  -- `create_dir_all`, and whether a directory is there and holds something
  pub create_parent : String → State W (Result String (Unit {0}))
  pub holds_entries : String → State W Bool
  pub run : String → List String → State W (Result String String)
  pub base64 : String → String
  pub read_u64 : String → Option ℕ
  pub show : ℕ → String

-- `PublishingConfig`
pub record PublishingConfig : Type 0 where
  pub enabled : Bool
  pub git_remote : String
  pub git_branch : String
  pub author_name : String
  pub author_email : String

pub record PublishResult : Type 0 where
  pub active_count : ℕ
  pub changed : Bool
  pub committed : Bool
  pub pushed : Bool
  pub commit : String

abbrev pub nothing_published : PublishResult
nothing_published = record {
  active_count = 0;
  changed = false;
  committed = false;
  pushed = false;
  commit = "";
}

abbrev pub join : String → List String → String
join separator [] = ""
join separator (s ∷ []) = s
join separator (s ∷ t ∷ rest) = str_append s (str_append separator (join separator (t ∷ rest)))

module _ (h : Host) where
  -- The world, and the commands that were run so far.
  pub record Machine : Type 0 where
    pub world : h.W
    pub commands : List (List String)

  abbrev pub Step : Type 0 → Type 0
  Step A = State Machine (Result String A)

  -- `?`: the rest of a step after a success.
  unfoldable pub and_then : {A B : Type 0} → Result String A → (A → Step B) → Step B
  and_then (ok a) k = k a
  and_then (err e) k = pure (err e)

  unfoldable pub try : {A B : Type 0} → Step A → (A → Step B) → Step B
  unfolding and_then
  try m k = m >>= λ answer. and_then answer k

  abbrev pub lift : {A : Type 0} → State h.W A → State Machine A
  lift step m = ((step m.world).0, record m { world = (step m.world).1 })

  unfoldable pub run_in : String → List String → Step String
  run_in dir args m =
      let (answer, world) = h.run dir args m.world in
      (answer, record { world = world; commands = m.commands ++ args ∷ [] })

  abbrev pub run_git : String → List String → Step String
  run_git dir args = run_in dir ("git" ∷ args)

  unfoldable pub replace_file : String → String → Step Bool
  unfolding try
  replace_file path bytes = try (lift (h.replace path bytes)) (λ _. pure (ok true))

  -- What is done over what the file holds, if it can be read.
  unfoldable pub over_content : String → String → Option String → Step Bool
  unfolding replace_file
  over_content path bytes none = replace_file path bytes
  over_content path bytes (some old) =
      if str_eq old bytes then pure (ok false) else replace_file path bytes

  unfoldable pub write_if_changed : String → String → Step Bool
  unfolding over_content
  write_if_changed path bytes = lift (h.read path) >>= over_content path bytes

  abbrev pub fetch_args : String → List String
  fetch_args branch = "fetch" ∷ "origin" ∷ branch ∷ []

  abbrev pub rebase_args : String → List String
  rebase_args branch = "rebase" ∷ str_append "origin/" branch ∷ []

  abbrev pub push_args : String → List String
  push_args branch = "push" ∷ "origin" ∷ str_append "HEAD:" branch ∷ []

  -- A rebase that failed is undone, and its error is returned.
  unfoldable pub after_rebase : String → Result String String → Step (Unit {0})
  after_rebase dir (ok _) = pure (ok tt)
  after_rebase dir (err text) = do
    run_git dir ("rebase" ∷ "--abort" ∷ [])
    pure (err (str_append "publisher rebase failed: " text))

  unfoldable pub rebase_to_remote : String → String → Step (Unit {0})
  unfolding after_rebase run_in
  rebase_to_remote dir branch =
      try (run_git dir (fetch_args branch))
        (λ _. run_git dir (rebase_args branch) >>= after_rebase dir)

  unfoldable pub after_push : String → String → Result String String → Step (Unit {0})
  unfolding rebase_to_remote run_in
  after_push dir branch (ok _) = pure (ok tt)
  after_push dir branch (err text) =
      try (rebase_to_remote dir branch)
        (λ _. try (run_git dir (push_args branch)) (λ _. pure (ok tt)))

  unfoldable pub push_with_rebase_retry : String → String → Step (Unit {0})
  unfolding after_push run_in
  push_with_rebase_retry dir branch = run_git dir (push_args branch) >>= after_push dir branch

  unfoldable pub clone : String → String → PublishingConfig → Step String
  unfolding run_in
  clone parent dir config = try (lift (h.create_parent dir)) (λ _. do
    full ← lift (h.holds_entries dir)
    if full
        then pure (err (str_append "publisher directory is not an empty Git repository: " dir))
        else run_in parent (
            "git" ∷ "clone" ∷ "--branch" ∷ config.git_branch ∷ "--single-branch" ∷ config.git_remote
            ∷ dir ∷ []))

  unfoldable pub clone_unless : Bool → String → String → PublishingConfig → Step String
  unfolding clone
  clone_unless true parent dir config = pure (ok "")
  clone_unless false parent dir config = clone parent dir config

  unfoldable pub ensure_repo : String → String → PublishingConfig → Step (Unit {0})
  unfolding clone_unless run_in
  ensure_repo parent dir config = do
    there ← lift (h.is_dir (str_append dir "/.git"))
    try (clone_unless there parent dir config) (λ _.
        try (run_git dir ("remote" ∷ "set-url" ∷ "origin" ∷ config.git_remote ∷ [])) (λ _.
          try (run_git dir ("config" ∷ "user.name" ∷ config.author_name ∷ [])) (λ _.
            try (run_git dir ("config" ∷ "user.email" ∷ config.author_email ∷ []))
              (λ _. pure (ok tt)))))

  -- Both files are written before the answers are joined.
  unfoldable pub write_both : String → String → String → Step Bool
  unfolding write_if_changed
  write_both dir raw encoded =
      try (write_if_changed (str_append dir "/active-raw.txt") raw) (λ first.
        try (write_if_changed (str_append dir "/active.txt") encoded)
          (λ second. pure (ok (first || second))))

  unfoldable pub commit_if : Bool → String → PublicationSnapshot → Step Bool
  unfolding run_in
  commit_if false dir snapshot = pure (ok false)
  commit_if true dir snapshot =
      try
        (run_git dir
          ("add" ∷ "--" ∷ "subscriptions/active-raw.txt" ∷ "subscriptions/active.txt" ∷ []))
        (λ _.
          try
            (run_git dir (
              "commit"
              ∷ "-m"
              ∷ join "" (
                  "chore(subscription): publish "
                  ∷ h.show (length snapshot.raw_configs)
                  ∷ " leased proxies (generation "
                  ∷ h.show snapshot.generation
                  ∷ ")"
                  ∷ [])
              ∷ []))
            (λ _. pure (ok true)))

  unfoldable pub push_if : Bool → String → String → Step (Unit {0})
  unfolding push_with_rebase_retry
  push_if false dir branch = pure (ok tt)
  push_if true dir branch = push_with_rebase_retry dir branch

  abbrev count_of : Option ℕ → ℕ
  count_of n = unwrap_or n 0

  abbrev short : Result String String → String
  short (ok text) = trim text
  short (err _) = ""

  -- The result, with the short name of the last commit, if git tells it.
  unfoldable pub report : String → PublicationSnapshot → Bool → Bool → Bool → Step PublishResult
  unfolding run_in trim
  report repo snapshot changed committed pushed = do
    head ← run_git repo ("rev-parse" ∷ "--short" ∷ "HEAD" ∷ [])
    pure (
        ok (record {
          active_count = length snapshot.raw_configs;
          changed = changed;
          committed = committed;
          pushed = pushed;
          commit = short head;
        }))

  abbrev pub is_pending : String → Bool
  is_pending pending = ltb 0 (count_of (h.read_u64 (trim pending)))

  -- What follows the commit: the push of what the remote lacks, and the result.
  unfoldable pub push_pending :
      String → PublishingConfig → PublicationSnapshot → Bool → Bool → Step PublishResult
  unfolding push_if report run_in trim
  push_pending repo config snapshot changed committed =
      try
        (run_git repo
          ("rev-list" ∷ "--count" ∷ join "" ("origin/" ∷ config.git_branch ∷ "..HEAD" ∷ []) ∷ []))
        (λ pending.
          try (push_if (is_pending pending) repo config.git_branch)
            (λ _. report repo snapshot changed committed (is_pending pending)))

  -- The publication of a snapshot that is not empty, in the directory of the database.
  unfoldable pub publish_all : String → PublishingConfig → PublicationSnapshot → Step PublishResult
  unfolding write_both ensure_repo rebase_to_remote commit_if push_pending
  publish_all data_dir config snapshot =
      let raw = str_append (join "\n" snapshot.raw_configs) "\n" in
      let encoded = str_append (h.base64 raw) "\n" in
      let repo = str_append data_dir "/publisher-repo" in
      try (write_both (str_append data_dir "/publish") raw encoded) (λ changed.
        try (ensure_repo data_dir repo config) (λ _.
          try (rebase_to_remote repo config.git_branch) (λ _.
            try (write_both (str_append repo "/subscriptions") raw encoded) (λ repo_changed.
              try (commit_if repo_changed repo snapshot)
                (λ committed. push_pending repo config snapshot changed committed)))))

  unfoldable pub publish_snapshot :
      String → PublishingConfig → PublicationSnapshot → List String → Step PublishResult
  unfolding publish_all
  publish_snapshot data_dir config snapshot [] = pure (ok nothing_published)
  publish_snapshot data_dir config snapshot (_ ∷ _) = publish_all data_dir config snapshot

  unfoldable pub publish : String → PublishingConfig → PublicationSnapshot → Step PublishResult
  unfolding publish_snapshot
  publish data_dir config snapshot =
      if config.enabled
      then publish_snapshot data_dir config snapshot snapshot.raw_configs
      else pure (ok nothing_published)
