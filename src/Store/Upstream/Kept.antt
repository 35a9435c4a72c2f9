-- ===== src/Store/Upstream/Kept.antt =====
-- Upstream refreshes and the well-formedness of the table of nodes.
use proxy_fleet.Common.{
  ℕ, String, Bool, true, false, ◌≡◌, refl, Option, none, some, List, [], ◌∷◌, ◌++◌, find,
  update_where, str_eq, Bool-cases, inl, inr, arith, All, All-map, All-zip, All-append, Distinct,
  Distinct-snoc, Lacks, find-Lacks, Lacks-update_where, at_key-of_distinct,
}
use proxy_fleet.Common.Float.{Float}
use proxy_fleet.Domain.Lifecycle.{LifecycleState, retired, eq_state}
use proxy_fleet.Parser.{ParsedProxy}
use proxy_fleet.Store.Schema.{Node, has_id, has_hash}
use proxy_fleet.Store.Invariant.{IsSound, IsFleet, id_of, hash_of}
use proxy_fleet.Store.Upkeep.Kept.{update_where-IsFleet, same_state, settled}
use proxy_fleet.Store.Upstream.{
  Member, RefreshRun, Ingested, refreshed, inserted, ingest_found, ingest_one, ingest_many,
}
use proxy_fleet.Store.Upstream.Refresh.{
  is_missing, missed, is_gone, buried, reconcile, Outcome, is_complete, finish_refresh, confirmed,
  copy_from, copy_cached_source_generation,
}

only_retired : (s : LifecycleState) → eq_state s retired ≡ true → s ≡ retired
only_retired s e = ground arith

module _ (f : Float) where
  retired-valid :
      (n : Node f) → IsSound f n → n.lifecycle_state ≡ retired → n.structurally_valid ≡ true
  retired-valid n s e = elim (Bool-cases n.structurally_valid) [
    | inl valid ↦ valid
    | inr broken ↦ absurd (cc (e, s.invalid_iff.0 broken))
  ]

  refreshed-IsSound :
      (now generation : ℕ) (proxy : ParsedProxy) (n : Node f)
      → IsSound f n
      → IsSound f (refreshed f now generation proxy n)
  unfolding refreshed
  refreshed-IsSound now generation proxy n s =
      elim (Bool-cases (eq_state n.lifecycle_state retired)) [
        | inl back ↦
            settled f (refreshed f now generation proxy n) (rw back refl)
              (retired-valid n s (only_retired n.lifecycle_state back)) (rw back refl)
              (rw back refl)
        | inr away ↦
            same_state f n (refreshed f now generation proxy n) (rw away refl) (rw away refl) refl
              refl s
      ]

  inserted-IsSound :
      (now generation : ℕ) (id : String) (proxy : ParsedProxy)
      → IsSound f (inserted f now generation id proxy)
  unfolding inserted
  inserted-IsSound now generation id proxy =
      settled f (inserted f now generation id proxy) refl refl refl refl

  snoc-IsFleet :
      (nodes : List (Node f)) (n : Node f)
      → IsFleet f nodes
      → IsSound f n
      → Lacks (id_of f) n.id nodes
      → Lacks (hash_of f) n.config_hash nodes
      → IsFleet f (nodes ++ n ∷ [])
  snoc-IsFleet nodes n h s id hash = record {
    sound = All-append (IsSound f) nodes (n ∷ []) h.sound (s, tt);
    ids = Distinct-snoc (id_of f) nodes n h.ids id;
    hashes = Distinct-snoc (hash_of f) nodes n h.hashes hash;
  }

  inserted-IsFleet :
      (nodes : List (Node f)) (now generation : ℕ) (id : String) (proxy : ParsedProxy)
      → IsFleet f nodes
      → Lacks (id_of f) id nodes
      → Lacks (hash_of f) proxy.config_hash nodes
      → IsFleet f (nodes ++ inserted f now generation id proxy ∷ [])
  unfolding inserted
  inserted-IsFleet nodes now generation id proxy h =
      snoc-IsFleet nodes (inserted f now generation id proxy) h
        (inserted-IsSound now generation id proxy)

  inserted-Lacks :
      (nodes : List (Node f)) (now generation : ℕ) (id k : String) (proxy : ParsedProxy)
      → str_eq id k ≡ false
      → Lacks (id_of f) k nodes
      → Lacks (id_of f) k (nodes ++ inserted f now generation id proxy ∷ [])
  unfolding inserted
  inserted-Lacks nodes now generation id k proxy other h = All-append _ nodes _ h (other, tt)

  refreshed-id :
      (now g : ℕ) (proxy : ParsedProxy) (n : Node f) → (refreshed f now g proxy n).id ≡ n.id
  unfolding refreshed
  refreshed-id now g proxy n = refl

  refreshed-hash :
      (now g : ℕ) (proxy : ParsedProxy) (n : Node f)
      → (refreshed f now g proxy n).config_hash ≡ n.config_hash
  unfolding refreshed
  refreshed-hash now g proxy n = refl

  abbrev drawn_id : ParsedProxy × String → String
  drawn_id p = p.1

  -- No id that is drawn for a batch is in the table, and no two are the same.
  pub record IsFresh (ps : List (ParsedProxy × String)) (nodes : List (Node f)) : Type 0 where
    pub unknown : All (λ (p : ParsedProxy × String). Lacks (id_of f) p.1 nodes) ps
    pub apart : Distinct drawn_id ps

  module _ (now generation : ℕ) where
    ingest_found-IsFleet :
        (s : Ingested f) (p : ParsedProxy × String) (found : Option (Node f))
        → find (has_hash f p.0.config_hash) s.nodes ≡ found
        → Lacks (id_of f) p.1 s.nodes
        → IsFleet f s.nodes
        → IsFleet f (ingest_found f now generation s p found).nodes
    unfolding ingest_found
    ingest_found-IsFleet s (proxy, id) none new fresh h =
        inserted-IsFleet s.nodes now generation id proxy h fresh
          (find-Lacks (hash_of f) proxy.config_hash s.nodes new)
    ingest_found-IsFleet s (proxy, id) (some row) known fresh h =
        update_where-IsFleet f (has_id f row.id) (refreshed f now generation proxy) s.nodes
          (refreshed-id now generation proxy) (refreshed-hash now generation proxy)
          (λ n _. refreshed-IsSound now generation proxy n) h

    ingest_one-IsFleet :
        (s : Ingested f) (p : ParsedProxy × String)
        → Lacks (id_of f) p.1 s.nodes
        → IsFleet f s.nodes
        → IsFleet f (ingest_one f now generation s p).nodes
    unfolding ingest_one
    ingest_one-IsFleet s p = ingest_found-IsFleet s p _ refl

    ingest_found-Lacks :
        (s : Ingested f) (p : ParsedProxy × String) (k : String) (found : Option (Node f))
        → str_eq p.1 k ≡ false
        → Lacks (id_of f) k s.nodes
        → Lacks (id_of f) k (ingest_found f now generation s p found).nodes
    unfolding ingest_found
    ingest_found-Lacks s (proxy, id) k none other h =
        inserted-Lacks s.nodes now generation id k proxy other h
    ingest_found-Lacks s (proxy, id) k (some row) other h =
        Lacks-update_where (id_of f) k _ (refreshed f now generation proxy) s.nodes
          (refreshed-id now generation proxy) h

    ingest_one-Lacks :
        (s : Ingested f) (p : ParsedProxy × String) (k : String)
        → str_eq p.1 k ≡ false
        → Lacks (id_of f) k s.nodes
        → Lacks (id_of f) k (ingest_one f now generation s p).nodes
    unfolding ingest_one
    ingest_one-Lacks s p k = ingest_found-Lacks s p k _

    -- A batch for which fresh ids are drawn keeps the table of nodes well-formed.
    pub ingest_many-IsFleet :
        (ps : List (ParsedProxy × String)) (s : Ingested f)
        → IsFresh ps s.nodes
        → IsFleet f s.nodes
        → IsFleet f (ingest_many f now generation ps s).nodes
    unfolding ingest_many
    ingest_many-IsFleet [] s fresh h = h
    ingest_many-IsFleet (p ∷ ps) s fresh h =
        let later : All
            (λ (q : ParsedProxy × String). str_eq q.1 p.1 ≡ false × Lacks (id_of f) q.1 s.nodes)
            ps =
          All-zip _ _ ps fresh.apart.0 fresh.unknown.1 in
        ingest_many-IsFleet ps (ingest_one f now generation s p)
          (record {
            unknown =
                All-map _ ps
                  (λ q both.
                    ingest_one-Lacks s p q.1 (at_key-of_distinct drawn_id p q both.0) both.1)
                  later;
            apart = fresh.apart.1;
          })
          (ingest_one-IsFleet s p fresh.unknown.0 h)

  is_gone-valid :
      (now minimum : ℕ) (n : Node f)
      → is_gone f now minimum n ≡ true
      → IsSound f n
      → n.structurally_valid ≡ true
  unfolding is_gone
  is_gone-valid now minimum n e s = elim (Bool-cases n.structurally_valid) [
    | inl valid ↦ valid
    | inr broken ↦ absurd (cc (rw (s.invalid_iff.0 broken) at e))
  ]

  reconcile-IsFleet :
      (now generation minimum : ℕ) (nodes : List (Node f))
      → IsFleet f nodes
      → IsFleet f (reconcile f now generation minimum nodes)
  unfolding reconcile missed buried
  reconcile-IsFleet now generation minimum nodes h =
      update_where-IsFleet f (is_gone f now minimum) (buried f now) _ (λ n. refl) (λ n. refl)
        (λ n e s. settled f (buried f now n) refl (is_gone-valid now minimum n e s) refl refl)
        (update_where-IsFleet f (is_missing f generation) (missed f) nodes (λ n. refl) (λ n. refl)
          (λ n e s. same_state f n (missed f n) refl refl refl refl s) h)

  pub finish_refresh-IsFleet :
      (now minimum : ℕ) (o : Outcome f) (db : List (Node f) × List RefreshRun)
      → IsFleet f db.0
      → IsFleet f (finish_refresh f now minimum o db).1.0
  finish_refresh-IsFleet now minimum o (nodes, runs) h = elim (Bool-cases (is_complete f o)) [
    | inl done ↦
        unfold finish_refresh in rw done (reconcile-IsFleet now o.generation minimum nodes h)
    | inr partly ↦ unfold finish_refresh in rw partly h
  ]

  confirmed-IsFleet :
      (now generation : ℕ) (test : Node f → Bool) (nodes : List (Node f))
      → IsFleet f nodes
      → IsFleet f (update_where test (confirmed f now generation) nodes)
  confirmed-IsFleet now generation test nodes =
      update_where-IsFleet f test _ nodes (λ n. refl) (λ n. refl)
        (λ n e s. same_state f n (confirmed f now generation n) refl refl refl refl s)

  copy_from-IsFleet :
      (now : ℕ) (source : String) (generation : ℕ) (db : List (Node f) × List Member)
      (previous : Option ℕ)
      → IsFleet f db.0
      → IsFleet f (copy_from f now source generation db previous).1.0
  unfolding copy_from
  copy_from-IsFleet now source generation (nodes, members) none h = h
  copy_from-IsFleet now source generation (nodes, members) (some previous) h =
      confirmed-IsFleet now generation _ nodes h

  pub copy_cached-IsFleet :
      (now : ℕ) (source : String) (generation : ℕ) (db : List (Node f) × List Member)
      → IsFleet f db.0
      → IsFleet f (copy_cached_source_generation f now source generation db).1.0
  unfolding copy_cached_source_generation
  copy_cached-IsFleet now source generation (nodes, members) =
      copy_from-IsFleet now source generation (nodes, members) _
