-- ===== src/RedisClient.antt =====
-- db/redis_client.py: rate limit counters, ephemeral tokens and the project cache, over a Redis
-- server. `dumps` and `loads` stand for the JSON text of a value; `none` is JSONDecodeError.
pub mod RateLimit
pub mod SingleUse
pub mod Keys
use factn_assistant_service.Base.{
  ◌*◌, ◌==◌, if◌then◌else◌, leb, ◌/◌, ◌+◌, min, ◌≡◌, str_append, some, none, max, List, Bool, ℕ,
  String, Option, refl,
}
use factn_assistant_service.Services.{Redis}
use Prim.Native.Nat.{digits}

abbrev pub ephemeral_token_max_ttl : ℕ
ephemeral_token_max_ttl = 300

abbrev pub ephemeral_token_default_ttl : ℕ
ephemeral_token_default_ttl = 60

-- The payload that an ephemeral token stands for; metadata are pairs of texts.
pub record TokenPayload : Type 0 where
  pub project_id : String
  pub tenant_id : String
  pub api_key_id : String
  pub rate_limit_rpm : ℕ
  pub issued_at : ℕ
  pub expires_at : ℕ
  pub metadata : List (String × String)

-- The JSON text of values of one type, with what `json.loads` gives back for it.
pub record Codec (V A : Type 0) : Type 0 where
  pub dumps : A → V
  pub loads : V → Option A
  pub loads-dumps : (a : A) → loads (dumps a) ≡ some a

unfoldable pub token_key : String → String
token_key raw_token = str_append "ephemeral_token:" raw_token

unfoldable pub project_key : String → String
project_key project_id = str_append "project_config:" project_id

-- `max(1, min(ttl, EPHEMERAL_TOKEN_MAX_TTL))`
unfoldable pub clamp_ttl : ℕ → ℕ
clamp_ttl ttl = max 1 (min ttl ephemeral_token_max_ttl)

module _ {V : Type 0} (redis : Redis V) where
  open redis use {Store}

  -- `rate_limit:{key_prefix}:{window}`, with `decimal` for the text of a number. The call is allowed
  -- if the count is within the limit.
  unfoldable pub check_and_increment_rate_limit :
      (ℕ → String) → String → ℕ → ℕ → ℕ → Store → (Bool × ℕ) × Store
  check_and_increment_rate_limit decimal key_prefix limit window_s now s =
      let key =
        str_append "rate_limit:"
          (str_append key_prefix (str_append ":" (decimal (now / window_s)))) in
      let s' = redis.incr now key s in
      let count = redis.counter now key s' in
      (
        (leb count limit, count),
        (if count == 1 then redis.expire now key (window_s * 2) s' else s'),
      )

  module _ (codec : Codec V TokenPayload) where
    -- `raw_token` is the text that `secrets.token_urlsafe` makes. `now` is both `int(time.time())` and the
    -- second in which Redis sets the key: what is left of that second is not modelled.
    unfoldable pub create_ephemeral_token :
        String
        → String
        → String
        → ℕ
        → ℕ
        → List (String × String)
        → String
        → ℕ
        → Store
        → (String × ℕ) × Store
    create_ephemeral_token project_id tenant_id api_key_id rate_limit_rpm ttl metadata raw_token now
          s =
        let seconds = clamp_ttl ttl in
        (
          (raw_token, now + seconds),
          redis.set now (token_key raw_token)
              (codec.dumps (record {
                project_id = project_id;
                tenant_id = tenant_id;
                api_key_id = api_key_id;
                rate_limit_rpm = rate_limit_rpm;
                issued_at = now;
                expires_at = now + seconds;
                metadata = metadata;
              }))
              seconds s,
        )

    unfoldable pub loads_raw : Option V → Option TokenPayload
    loads_raw none = none
    loads_raw (some raw) = codec.loads raw

    -- The script `_LUA_REDEEM`, GET and DEL in one step, and the decoding of what it returned.
    unfoldable pub redeem_ephemeral_token : String → ℕ → Store → Option TokenPayload × Store
    redeem_ephemeral_token raw_token now s = elim (redis.get now (token_key raw_token) s) [
      | none ↦ (none, s)
      | some raw ↦ (codec.loads raw, redis.delete (token_key raw_token) s)
    ]

    unfoldable pub peek_ephemeral_token : String → ℕ → Store → Option TokenPayload
    peek_ephemeral_token raw_token now s = loads_raw (redis.get now (token_key raw_token) s)

  unfoldable pub get_ephemeral_token_ttl : String → ℕ → Store → Option ℕ
  get_ephemeral_token_ttl raw_token now s = redis.ttl now (token_key raw_token) s

  module _ {C : Type 0} (codec : Codec V C) where
    unfoldable pub decode_or_evict : Option V → String → Store → Option C × Store
    decode_or_evict none key s = (none, s)
    decode_or_evict (some raw) key s = elim (codec.loads raw) [
      | none ↦ (none, redis.delete key s)
      | some c ↦ (some c, s)
    ]

    -- A cached text that does not decode is evicted.
    unfoldable pub get_project_config : String → ℕ → Store → Option C × Store
    get_project_config project_id now s =
        decode_or_evict (redis.get now (project_key project_id) s) (project_key project_id) s

    unfoldable pub set_project_config : String → C → ℕ → ℕ → Store → Store
    set_project_config project_id config ttl now s =
        redis.set now (project_key project_id) (codec.dumps config) ttl s

  unfoldable pub invalidate_project_config : String → Store → Store
  invalidate_project_config project_id s = redis.delete (project_key project_id) s
