-- ===== src/Projects/Reads.antt =====
-- A handshake that reads a configuration keeps the cache coherent, and gets what the collection has.
use factn_assistant_service.Projects.Coherence.{IsFit}
use native.Mathlib.Nat.{le_refl}
use factn_assistant_service.Base.{
  ap, Option-cases, ◌/◌, ◌⊎◌, ◌∙◌, sym, inr, inl, eq_iff, Bool-cases, arith, ◌≤◌, true, str_eq, ◌≡◌,
  some, ℕ, String, refl,
}
use factn_assistant_service.Projects.Cache.{cached-get, cached-set, cached}
use factn_assistant_service.Projects.{
  microseconds, cache_config, cache_ttl, get_project, get_config, is_project_of,
}
use factn_assistant_service.RedisClient.{get_project_config, set_project_config, Codec}
use factn_assistant_service.Projects.Fresh.{
  find_first-finer, fresh, HasUniqueIds, active_config, is_id,
}
use factn_assistant_service.Projects.Store.{Stores}
use factn_assistant_service.Services.{Collection, Redis}
use factn_assistant_service.Schemas.{ProjectDoc, ProjectConfig, to_project_config}

project_of_id :
    (k tid : String) (d : ProjectDoc) → is_project_of k (some tid) d ≡ true → is_id k d ≡ true
unfolding is_project_of is_id
project_of_id k tid d h = ground (arith, h)

module _ {V : Type 0} (redis : Redis V) (codec : Codec V ProjectConfig)
    (projects : Collection ProjectDoc) where
  -- The world after a handshake has read a configuration.
  abbrev pub after_read : String → String → ℕ → Stores redis projects → Stores redis projects
  after_read k tid now w = record w {
    cache = (get_config redis codec projects k tid now w.docs w.cache).1;
  }

  -- A document that is found for a tenant is the one that the collection has under the id.
  fresh-found :
      (k tid : String) (w : Stores redis projects) (d : ProjectDoc)
      → HasUniqueIds (projects.docs w.docs)
      → get_project projects k (some tid) w.docs ≡ some d
      → fresh k (projects.docs w.docs) ≡ active_config d
  unfolding fresh get_project
  fresh-found k tid w d unique found =
      let in_docs = sym (projects.find_one_lem (is_project_of k (some tid)) w.docs) ∙ found in
      rw (
        find_first-finer (is_id k) (is_project_of k (some tid)) (projects.docs w.docs) d (unique k)
            (project_of_id k tid) in_docs,
        fresh,
      )

  cached-populated :
      (k j : String) (c x : ProjectConfig) (now t : ℕ) (r : redis.Store)
      → now ≤ t
      → cached redis codec j t (set_project_config redis codec k c cache_ttl now r) ≡ some x
      → (str_eq k j ≡ true × (c ≡ x)) ⊎ (cached redis codec j t r ≡ some x)
  cached-populated k j c x now t r after hit =
      ground (arith, cached-set redis codec k j c cache_ttl now t r after)

  evict-IsFit :
      (at : ℕ) (k : String) (t : ℕ) (w : Stores redis projects)
      → IsFit redis codec projects at w
      → IsFit redis codec projects at
          (record w { cache = (get_project_config redis codec k t w.cache).1 })
  evict-IsFit at k t w (coherent, unique) =
      (λ j u c late hit. coherent j u c late (cached-get redis codec k j t u w.cache c hit), unique)

  populate-IsFit :
      (k tid : String) (now : ℕ) (w : Stores redis projects) (d : ProjectDoc)
      → get_project projects k (some tid) w.docs ≡ some d
      → IsFit redis codec projects (now / microseconds) w
      → IsFit redis codec projects
          (now / microseconds)
          (record w { cache = (cache_config redis codec projects d k now w.cache).1 })
  unfolding cache_config
  populate-IsFit k tid now w d found (coherent, unique) = elim (Bool-cases d.is_active) [
    | inr retired ↦ simp retired (coherent, unique)
    | inl active ↦
        let current = fresh-found k tid w d unique found in
        simp active (
          λ j t c late hit.
              elim (cached-populated k j (to_project_config d) c (now / microseconds) t w.cache late
                hit) [
                  | inr kept ↦ coherent j t c late kept
                  | inl (same, is_c) ↦
                      rw (← (eq_iff k j).0 same)
                        (current ∙ simp active (ap (λ (x : ProjectConfig). some x) is_c))
                ],
          unique,
        )
  ]

  pub read-IsFit :
      (k tid : String) (now : ℕ) (w : Stores redis projects)
      → IsFit redis codec projects (now / microseconds) w
      → IsFit redis codec projects (now / microseconds) (after_read k tid now w)
  unfolding get_config
  read-IsFit k tid now w h =
      let t = now / microseconds in
      let evicted = evict-IsFit t k t w h in
      elim (Option-cases (get_project_config redis codec k t w.cache).0) [
        | inr (c, hit) ↦ rw (hit, get_config) evicted
        | inl miss ↦ elim (Option-cases (get_project projects k (some tid) w.docs)) [
          | inl gone ↦ rw (miss, get_config) (rw (gone, get_config) evicted)
          | inr (d, found) ↦
              rw (miss, get_config)
                (rw (found, get_config)
                  (populate-IsFit k tid now
                    (record w { cache = (get_project_config redis codec k t w.cache).1 }) d found
                    evicted))
        ]
      ]

  -- In a fit world the cache cannot be told from reading the collection.
  pub get_config-active_config :
      (k tid : String) (now : ℕ) (w : Stores redis projects) (d : ProjectDoc)
      → IsFit redis codec projects (now / microseconds) w
      → get_project projects k (some tid) w.docs ≡ some d
      → (get_config redis codec projects k tid now w.docs w.cache).0 ≡ active_config d
  unfolding get_config cached cache_config
  get_config-active_config k tid now w d (coherent, unique) found =
      let t = now / microseconds in
      elim (Option-cases (get_project_config redis codec k t w.cache).0) [
        | inr (c, hit) ↦
            rw (hit, get_config)
              (sym (coherent k t c (le_refl t) hit) ∙ fresh-found k tid w d unique found)
        | inl miss ↦
            rw (miss, get_config)
              (rw (found, get_config)
                (elim (Bool-cases d.is_active) [
                  | inl active ↦ simp active (refl)
                  | inr retired ↦ simp retired (refl)
                ]))
      ]
