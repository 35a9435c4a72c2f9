-- ===== src/Parser/Deduped.antt =====
-- What a parsed subscription reports of its lines.
use proxy_fleet.Common.{
  ℕ, ◌+◌, String, Bool, true, false, ◌||◌, ◌≡◌, refl, sym, ◌∙◌, inl, inr, List, [], ◌∷◌, ◌++◌, any,
  length, length-append, All, All-append, Distinct, Distinct-snoc, Lacks, at_key, str_eq, eq_iff,
  Result, ok, err, Bool-cases, arith, count_if, ok-injective,
}
use proxy_fleet.Parser.{ParsedProxy, ParseReport}
use proxy_fleet.Parser.Validate.{Libraries}
use proxy_fleet.Parser.Share.{parse_share_url}
use proxy_fleet.Parser.Subscription.{add_line, add_lines, subscription_lines, parse_subscription}

abbrev pub hash_of : ParsedProxy → String
hash_of p = p.config_hash

abbrev pub has_hash : List ParsedProxy → String → Bool
has_hash proxies hash = any (at_key hash_of hash) proxies

str_eq_sym : (a b : String) → str_eq a b ≡ str_eq b a
str_eq_sym a b = elim (Bool-cases (str_eq a b)) [
  | inl e ↦ rw ((eq_iff a b).0 e) refl
  | inr e ↦ elim (Bool-cases (str_eq b a)) [
    | inl e' ↦ absurd (cc (e, (eq_iff a b).1 (sym ((eq_iff b a).0 e'))))
    | inr e' ↦ rw (e, e') refl
  ]
]

any-snoc {ℓ} :
    {A : Type ℓ} (test : A → Bool) (xs : List A) (x : A)
    → any test (xs ++ x ∷ []) ≡ (test x || any test xs)
any-snoc test [] x = refl
any-snoc test (y ∷ xs) x = let h = any-snoc test xs x in rw h (ground arith)

any-Lacks :
    (hash : String) (proxies : List ParsedProxy)
    → has_hash proxies hash ≡ false
    → Lacks hash_of hash proxies
any-Lacks hash [] h = tt
any-Lacks hash (p ∷ proxies) h = (ground arith, any-Lacks hash proxies (ground arith))

module _ (parse : String → Result String ParsedProxy) where
  -- What a line came to in a report: its proxy, if it is one, is among the accepted by its hash.
  abbrev pub IsSettled : ParseReport → String → Type 0
  IsSettled report line =
      (p : ParsedProxy) → parse line ≡ ok p → has_hash report.accepted p.config_hash ≡ true

  abbrev failed {ℓ} : {A : Type ℓ} → Result String A → Bool
  failed (ok _) = false
  failed (err _) = true

  abbrev pub fails : String → Bool
  fails line = failed (parse line)

  abbrev pub Came : ParsedProxy → Type 0
  Came p = (line : String) × (parse line ≡ ok p)

  -- The report after some lines, and the set of hashes with it.
  pub record IsSorted (r : List String × ParseReport) : Type 0 where
    pub distinct : Distinct hash_of r.1.accepted
    pub came : All Came r.1.accepted
    pub agrees : (hash : String) → any (str_eq hash) r.0 ≡ has_hash r.1.accepted hash

  -- How a report goes on from another one.
  pub record Extends (n : ℕ) (before after : ParseReport) : Type 0 where
    pub keeps :
        (hash : String) → has_hash before.accepted hash ≡ true → has_hash after.accepted hash ≡ true
    pub rejects : length after.rejected ≡ length before.rejected + n

  abbrev flag : Bool → ℕ
  flag true = 1
  flag false = 0

  add_line_lem :
      (line : String) (parsed : Result String ParsedProxy) (r : List String × ParseReport)
      → parse line ≡ parsed
      → IsSorted r
      → IsSorted (add_line line parsed r.0 r.1)
        × Extends (flag (failed parsed)) r.1 (add_line line parsed r.0 r.1).1
        × ((p : ParsedProxy)
            → parsed ≡ ok p
            → has_hash (add_line line parsed r.0 r.1).1.accepted p.config_hash ≡ true)
  unfolding add_line
  add_line_lem line (err text) (seen, report) e s = (
    record { distinct = s.distinct; came = s.came; agrees = s.agrees },
    record { keeps = λ hash h. h; rejects = length-append report.rejected _ },
    λ p h. absurd (cc h),
  )
  add_line_lem line (ok p) (seen, report) e s =
      let agree = s.agrees p.config_hash in
      elim (Bool-cases (any (str_eq p.config_hash) seen)) [
        | inl old ↦
            rw (old, add_line)
              (
                s,
                record { keeps = λ hash h. h; rejects = omega arith },
                λ q h. rw (← ok-injective h) (sym agree ∙ old),
              )
        | inr new ↦
            rw (new, add_line)
              (
                record {
                  distinct =
                      Distinct-snoc hash_of report.accepted p s.distinct
                        (any-Lacks p.config_hash report.accepted (sym agree ∙ new));
                  came = All-append Came report.accepted (p ∷ []) s.came ((line, e), tt);
                  agrees = λ hash.
                      let same = s.agrees hash in
                      let flip = str_eq_sym hash p.config_hash in
                      let last = any-snoc (at_key hash_of hash) report.accepted p in
                      cc (same, flip, last);
                },
                record {
                  keeps = λ hash h.
                      rw (any-snoc (at_key hash_of hash) report.accepted p) (ground (arith, h));
                  rejects = omega arith;
                },
                λ q h.
                    let here : str_eq p.config_hash p.config_hash ≡ true =
                      (eq_iff p.config_hash p.config_hash).1 refl in
                    let last = any-snoc (at_key hash_of p.config_hash) report.accepted p in
                    rw (← ok-injective h) (rw (last, here) refl),
              )
      ]

  count_if-cons :
      (line : String) (rest : List String)
      → count_if fails (line ∷ rest) ≡ flag (fails line) + count_if fails rest
  count_if-cons line rest = elim (Bool-cases (fails line)) [
    | inl e ↦ rw e (omega arith)
    | inr e ↦ rw e (omega arith)
  ]

  add_lines_lem :
      (lines : List String) (r : List String × ParseReport)
      → IsSorted r
      → IsSorted (add_lines parse lines r.0 r.1)
        × Extends (count_if fails lines) r.1 (add_lines parse lines r.0 r.1).1
        × All (IsSettled (add_lines parse lines r.0 r.1).1) lines
  unfolding add_lines
  add_lines_lem [] r s = (
    record { distinct = s.distinct; came = s.came; agrees = s.agrees },
    record { keeps = λ hash h. h; rejects = omega arith },
    tt,
  )
  add_lines_lem (line ∷ rest) r s =
      let (s', step, here) = add_line_lem line (parse line) r refl s in
      let r' = add_line line (parse line) r.0 r.1 in
      let (s'', others, settled) = add_lines_lem rest r' s' in
      (
        s'',
        record {
          keeps = λ hash h. others.keeps hash (step.keeps hash h);
          rejects = omega (arith, step.rejects, others.rejects, count_if-cons line rest);
        },
        (λ p e. others.keeps p.config_hash (here p e), settled),
      )

  -- What a report says of the lines.
  pub record IsDeduped (lines : List String) (report : ParseReport) : Type 0 where
    pub distinct : Distinct hash_of report.accepted
    pub came : All Came report.accepted
    pub settled : All (IsSettled report) lines
    pub rejected : length report.rejected ≡ count_if fails lines

  add_lines-IsDeduped :
      (lines : List String)
      → IsDeduped lines (add_lines parse lines [] (record { accepted = []; rejected = [] })).1
  add_lines-IsDeduped lines =
      let empty : ParseReport = record { accepted = []; rejected = [] } in
      let (sorted, extends, settled) =
        add_lines_lem lines ([], empty)
          (record { distinct = tt; came = tt; agrees = λ hash. refl }) in
      record {
        distinct = sorted.distinct;
        came = sorted.came;
        settled = settled;
        rejected = omega (arith, extends.rejects);
      }

-- A parsed subscription loses no line: each line that the parser reads is among the accepted
-- proxies by its identity, and as many lines are rejected as it does not read. The accepted proxies
-- all come from lines, and no two of them have the same identity.
pub parse_subscription-IsDeduped :
    (l : Libraries) (payload source : String)
    → IsDeduped
        (λ line. parse_share_url l line source)
        (subscription_lines l payload)
        (parse_subscription l payload source)
unfolding parse_subscription
parse_subscription-IsDeduped l payload source =
    add_lines-IsDeduped (λ line. parse_share_url l line source) (subscription_lines l payload)
