-- ===== src/App/Sampler.antt =====
-- `should_emit_failure_log` of src/src/app.rs: one log line for each proxy and failure class in a
-- window of 30 seconds. The map is a list of pairs, one for each key.
use proxy_fleet.Common.{
  ℕ, ◌-◌, ◌<◌, String, Bool, true, false, not, ◌&&◌, ◌≡◌, refl, sym, ap, ◌∙◌, Option, none, some,
  List, [], ◌∷◌, filter, find, ltb, if◌then◌else◌, str_eq, eq_iff, All, Bool-cases, inl, inr, arith,
  lt→ltb, some_eq,
}
use proxy_fleet.Domain.Evidence.{seconds}

-- The proxy and the failure class, and when the last line of theirs was let through.
pub record Sample : Type 0 where
  pub proxy_id : String
  pub failure_class : String
  pub seen : ℕ

abbrev pub Key : Type 0
Key = String × String

abbrev pub window : ℕ
window = seconds 30

abbrev pub has_key : Key → Sample → Bool
has_key (id, class) s = str_eq s.proxy_id id && str_eq s.failure_class class

-- `now.saturating_duration_since(seen) < RETRY_LOG_SAMPLE_WINDOW`
abbrev pub is_recent : ℕ → Sample → Bool
is_recent now s = ltb (now - s.seen) window

-- `HashMap::insert`
abbrev pub insert : Key → ℕ → List Sample → List Sample
insert (id, class) now samples =
    record { proxy_id = id; failure_class = class; seen = now }
    ∷ filter (λ s. not (has_key (id, class) s)) samples

-- The branches on `samples.get(&key)`, after the old samples are gone.
unfoldable pub emit_found : ℕ → Key → List Sample → Option Sample → Bool × List Sample
emit_found now key samples none = (true, insert key now samples)
emit_found now key samples (some s) =
    if is_recent now s then (false, samples) else (true, insert key now samples)

unfoldable pub should_emit_failure_log : Key → ℕ → List Sample → Bool × List Sample
unfolding emit_found
should_emit_failure_log key now samples =
    let kept = filter (is_recent now) samples in emit_found now key kept (find (has_key key) kept)

-- The samples after a sequence of calls, the first call first.
unfoldable pub calls : List (Key × ℕ) → List Sample → List Sample
unfolding should_emit_failure_log
calls [] samples = samples
calls ((key, now) ∷ rest) samples = calls rest (should_emit_failure_log key now samples).1

trans_true {ℓ} : {A : Type ℓ} (p : A → Bool) {x y : A} → x ≡ y → p y ≡ true → p x ≡ true
trans_true p e h = ap p e ∙ h

find-test {ℓ} : {A : Type ℓ} (q : A → Bool) {x : A} (xs : List A) → find q xs ≡ some x → q x ≡ true
find-test q [] f = absurd (cc f)
find-test q (x ∷ xs) f = elim (Bool-cases (q x)) [
  | inl e ↦ trans_true q (sym (some_eq (rw e at f))) e
  | inr e ↦ find-test q xs (rw e at f)
]

find-filter {ℓ} :
    {A : Type ℓ} (p q : A → Bool) {x : A} (xs : List A)
    → find q xs ≡ some x
    → p x ≡ true
    → find q (filter p xs) ≡ some x
find-filter p q [] f h = absurd (cc f)
find-filter p q (x ∷ xs) f h = elim (Bool-cases (q x)) [
  | inl e ↦ let same = some_eq (rw e at f) in rw (trans_true p same h, e) (ap some same)
  | inr e ↦ elim (Bool-cases (p x)) [
    | inl keep ↦ rw (keep, e) (find-filter p q xs (rw e at f) h)
    | inr drop ↦ rw drop (find-filter p q xs (rw e at f) h)
  ]
]

abbrev entry : Key → ℕ → Sample
entry (id, class) now = record { proxy_id = id; failure_class = class; seen = now }

and_true : (a b : Bool) → a && b ≡ true → (a ≡ true) × (b ≡ true)
and_true a b h = (ground arith, ground arith)

-- A sample has one key.
key_of : (key : Key) (s : Sample) → has_key key s ≡ true → key ≡ (s.proxy_id, s.failure_class)
key_of (id, class) s h =
    let (ids, classes) = and_true (str_eq s.proxy_id id) (str_eq s.failure_class class) h in
    cc (sym ((eq_iff s.proxy_id id).0 ids), sym ((eq_iff s.failure_class class).0 classes))

has_own_key : (key : Key) (now : ℕ) → has_key key (entry key now) ≡ true
has_own_key (id, class) now = rw ((eq_iff id id).1 refl, (eq_iff class class).1 refl) refl

other_key :
    (key key' : Key) (now : ℕ) (s : Sample)
    → has_key key s ≡ true
    → has_key key (entry key' now) ≡ false
    → not (has_key key' s) ≡ true
other_key key key' now s h away = elim (Bool-cases (has_key key' s)) [
  | inl e ↦
      let same : key ≡ key' = key_of key s h ∙ sym (key_of key' s e) in
      let own : has_key key (entry key' now) ≡ true =
        ap (λ k. has_key k (entry key' now)) same ∙ has_own_key key' now in
      absurd (cc (away, own))
  | inr e ↦ rw e refl
]

insert_other :
    (key key' : Key) (now : ℕ) (s : Sample) (samples : List Sample)
    → has_key key (entry key' now) ≡ false
    → find (has_key key) samples ≡ some s
    → find (has_key key) (insert key' now samples) ≡ some s
insert_other key key' now s samples away found =
    let kept = other_key key key' now s (find-test (has_key key) samples found) away in
    rw away (find-filter (λ x. not (has_key key' x)) (has_key key) samples found kept)

none_found :
    (key key' : Key) (kept : List Sample) {s : Sample}
    → key ≡ key'
    → find (has_key key') kept ≡ none
    → ¬ (find (has_key key) kept ≡ some s)
none_found key key' kept same e found =
    let e' : find (has_key key) kept ≡ none = ap (λ k. find (has_key k) kept) same ∙ e in
    absurd (cc (e', found))

-- A call within the window of a sample keeps it.
emit_found_keeps :
    (key key' : Key) (now : ℕ) (s : Sample) (kept : List Sample) (o : Option Sample)
    → find (has_key key') kept ≡ o
    → find (has_key key) kept ≡ some s
    → is_recent now s ≡ true
    → find (has_key key) (emit_found now key' kept o).1 ≡ some s
unfolding emit_found
emit_found_keeps key key' now s kept none e found recent =
    elim (Bool-cases (has_key key (entry key' now))) [
      | inl h ↦ absurd (none_found key key' kept (key_of key (entry key' now) h) e found)
      | inr away ↦ insert_other key key' now s kept away found
    ]
emit_found_keeps key key' now s kept (some s') e found recent =
    elim (Bool-cases (is_recent now s')) [
      | inl r ↦ rw r found
      | inr old ↦ elim (Bool-cases (has_key key (entry key' now))) [
        | inl h ↦
            let same : s' ≡ s = some_eq (
              sym e
              ∙ (ap (λ k. find (has_key k) kept) (sym (key_of key (entry key' now) h)) ∙ found)) in
            absurd (cc (ap (is_recent now) same, recent, old))
        | inr away ↦ rw old (insert_other key key' now s kept away found)
      ]
    ]

call_keeps :
    (key key' : Key) (now : ℕ) (s : Sample) (samples : List Sample)
    → find (has_key key) samples ≡ some s
    → now - s.seen < window
    → find (has_key key) (should_emit_failure_log key' now samples).1 ≡ some s
unfolding should_emit_failure_log
call_keeps key key' now s samples found soon =
    let recent = lt→ltb (now - s.seen) window soon in
    emit_found_keeps key key' now s (filter (is_recent now) samples) _ refl
      (find-filter (is_recent now) (has_key key) samples found recent) recent

-- The calls, each with its time, all within the window of `t`.
abbrev pub Within : ℕ → List (Key × ℕ) → Type 0
Within t = All (λ (c : Key × ℕ). c.1 - t < window)

calls_keep :
    (key : Key) (s : Sample) (rest : List (Key × ℕ)) (samples : List Sample)
    → Within s.seen rest
    → find (has_key key) samples ≡ some s
    → find (has_key key) (calls rest samples) ≡ some s
unfolding calls
calls_keep key s [] samples within found = found
calls_keep key s ((key', now) ∷ rest) samples within found =
    calls_keep key s rest _ within.1 (call_keeps key key' now s samples found within.0)

emit_sample :
    (key : Key) (t : ℕ) (kept : List Sample) (o : Option Sample)
    → (emit_found t key kept o).0 ≡ true
    → find (has_key key) (emit_found t key kept o).1 ≡ some (entry key t)
unfolding emit_found
emit_sample key t kept none e = rw (has_own_key key t) refl
emit_sample key t kept (some s) e = elim (Bool-cases (is_recent t s)) [
  | inl r ↦ absurd (cc (rw r at e))
  | inr old ↦ rw (old, has_own_key key t) refl
]

emitted_sample :
    (key : Key) (t : ℕ) (samples : List Sample)
    → (should_emit_failure_log key t samples).0 ≡ true
    → find (has_key key) (should_emit_failure_log key t samples).1 ≡ some (entry key t)
unfolding should_emit_failure_log
emitted_sample key t samples = emit_sample key t (filter (is_recent t) samples) _

silent :
    (key : Key) (now : ℕ) (s : Sample) (samples : List Sample)
    → find (has_key key) samples ≡ some s
    → now - s.seen < window
    → (should_emit_failure_log key now samples).0 ≡ false
unfolding should_emit_failure_log emit_found
silent key now s samples found soon =
    let recent = lt→ltb (now - s.seen) window soon in
    rw (find-filter (is_recent now) (has_key key) samples found recent, recent) refl

-- After a line has been let through at `t`, and whatever calls come within 30 seconds of it, about
-- the same key or about others, no other line of the key is let through within these 30 seconds.
pub one_line_per_window :
    (key : Key) (t now : ℕ) (samples : List Sample) (rest : List (Key × ℕ))
    → (should_emit_failure_log key t samples).0 ≡ true
    → Within t rest
    → now - t < window
    → (should_emit_failure_log key now (calls rest (should_emit_failure_log key t samples).1)).0
      ≡ false
one_line_per_window key t now samples rest emitted within soon =
    silent key now (entry key t) _
      (calls_keep key (entry key t) rest _ within (emitted_sample key t samples emitted)) soon
