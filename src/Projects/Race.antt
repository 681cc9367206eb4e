-- ===== src/Projects/Race.antt =====
-- A handshake that reads a project while the dashboard updates it.
use factn_assistant_service.Base.{
  eq_refl, ◌∙◌, arith, ltb, some, ◌+◌, ◌<◌, ◌≤◌, ◌/◌, true, ◌≡◌, ℕ, String,
}
use factn_assistant_service.RedisClient.{get_project_config, Codec}
use factn_assistant_service.Projects.{
  get_project, cache_ttl, microseconds, get_config, cache_config,
}
use factn_assistant_service.Projects.Cache.{cached-set, cached}
use factn_assistant_service.Schemas.{to_project_config, ProjectDoc, ProjectConfig}
use factn_assistant_service.Projects.Store.{update, Stores, Changes}
use factn_assistant_service.Services.{Collection, Redis}

module _ {V : Type 0} (redis : Redis V) (codec : Codec V ProjectConfig)
    (projects : Collection ProjectDoc) where
  get_config-hit :
      (k tid : String) (now : ℕ) (c : ProjectConfig) (s : projects.State) (r : redis.Store)
      → (get_project_config redis codec k (now / microseconds) r).0 ≡ some c
      → (get_config redis codec projects k tid now s r).0 ≡ some c
  unfolding get_config
  get_config-hit k tid now c s r hit = rw (hit, get_config)

  -- A handshake reads an active project's document and then, before it caches the configuration, an
  -- update of the project runs, whatever it changes: for the sixty seconds after the handshake has
  -- cached what it read, every connection gets the configuration of before the update.
  pub stale_after_update :
      (k tid : String) (changes : Changes) (now later : ℕ) (w : Stores redis projects)
      (d : ProjectDoc)
      → get_project projects k (some tid) w.docs ≡ some d
      → d.is_active ≡ true
      → now / microseconds ≤ later / microseconds
      → later / microseconds < now / microseconds + cache_ttl
      → let updated = (update redis projects k tid changes now w).1 in
        let cached_late = (cache_config redis codec projects d k now updated.cache).1 in
        (get_config redis codec projects k tid later updated.docs cached_late).0
        ≡ some (to_project_config d)
  unfolding cache_config cached
  stale_after_update k tid changes now later w d read active after soon =
      let updated = (update redis projects k tid changes now w).1 in
      let hit =
        cached-set redis codec k k (to_project_config d) cache_ttl (now / microseconds)
          (later / microseconds) updated.cache after in
      let lives : ltb (later / microseconds) (now / microseconds + cache_ttl) ≡ true =
        ground (arith, soon) in
      get_config-hit k tid later (to_project_config d) updated.docs
        (cache_config redis codec projects d k now updated.cache).1
        (simp active (hit ∙ rw (eq_refl k) (rw lives)))
