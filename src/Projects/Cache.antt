-- ===== src/Projects/Cache.antt =====
-- What the operations of the cache do to the configurations that it gives out.
use factn_assistant_service.Base.{
  false, ◌∙◌, true, sym, Bool, ◌+◌, ltb, inr, str_eq, inl, arith, if◌then◌else◌, Option-cases, ◌≤◌,
  ◌≡◌, none, ℕ, some, String, Option,
}
use factn_assistant_service.RedisClient.Keys.{project_key-eq}
use factn_assistant_service.RedisClient.{
  project_key, decode_or_evict, set_project_config, invalidate_project_config, get_project_config,
  Codec,
}
use factn_assistant_service.Schemas.{ProjectConfig}
use factn_assistant_service.Services.{Redis}

pub left_of_if {ℓ} :
    {A : Type ℓ} (b : Bool) (x : Option A) (a : A) → (if b then none else x) ≡ some a → x ≡ some a
left_of_if true x a h = cc
left_of_if false x a h = h

module _ {V : Type 0} (redis : Redis V) (codec : Codec V ProjectConfig) where
  open redis use {Store}

  -- The configuration that the cache gives for a project at a time.
  unfoldable pub cached : String → ℕ → Store → Option ProjectConfig
  cached project_id t r = (get_project_config redis codec project_id t r).0

  unfoldable pub loaded : Option V → Option ProjectConfig
  loaded none = none
  loaded (some raw) = codec.loads raw

  pub cached_lem :
      (j : String) (t : ℕ) (r : Store) → cached j t r ≡ loaded (redis.get t (project_key j) r)
  unfolding cached get_project_config decode_or_evict loaded
  cached_lem j t r = ground arith

  pub cached-invalidate :
      (k j : String) (t : ℕ) (r : Store)
      → cached j t (invalidate_project_config redis k r)
        ≡ (if str_eq k j then none else cached j t r)
  unfolding invalidate_project_config loaded
  cached-invalidate k j t r = ground (
    arith,
    cached_lem j t (redis.delete (project_key k) r),
    cached_lem j t r,
    redis.get-delete t (project_key k) (project_key j) r,
    project_key-eq k j,
  )

  pub cached-set :
      (k j : String) (c : ProjectConfig) (ttl now t : ℕ) (r : Store)
      → now ≤ t
      → cached j t (set_project_config redis codec k c ttl now r)
        ≡ (if str_eq k j then (if ltb t (now + ttl) then some c else none) else cached j t r)
  unfolding set_project_config loaded
  cached-set k j c ttl now t r after = ground (
    arith,
    cached_lem j t (redis.set now (project_key k) (codec.dumps c) ttl r),
    cached_lem j t r,
    redis.get-set now t (project_key k) (project_key j) (codec.dumps c) ttl r after,
    project_key-eq k j,
    codec.loads-dumps c,
  )

  -- Reading evicts what does not decode, and no configuration comes of it.
  pub cached-get :
      (k j : String) (now t : ℕ) (r : Store) (c : ProjectConfig)
      → cached j t (get_project_config redis codec k now r).1 ≡ some c
      → cached j t r ≡ some c
  unfolding get_project_config decode_or_evict invalidate_project_config
  cached-get k j now t r c h = elim (Option-cases (redis.get now (project_key k) r)) [
    | inl gone ↦ rw (gone, decode_or_evict) at h
    | inr (raw, found) ↦ elim (Option-cases (codec.loads raw)) [
      | inr (x, good) ↦ rw good at (rw (found, decode_or_evict) at h)
      | inl corrupt ↦
          let h' = rw corrupt at (rw (found, decode_or_evict) at h) in
          left_of_if (str_eq k j) (cached j t r) c (sym (cached-invalidate k j t r) ∙ h')
    ]
  ]
