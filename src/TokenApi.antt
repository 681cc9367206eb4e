-- ===== src/TokenApi.antt =====
-- The routes of api/tokens.py, which mint and rotate ephemeral tokens for the holder of a secret key.
-- A refusal is the HTTP status. Times are whole microseconds; Redis counts seconds.
pub mod Rotate
use factn_assistant_service.Base.{
  length, str_eq, not, ltb, ◌&&◌, some, ok, ◌/◌, none, leb, if◌then◌else◌, err, List, Result, Bool,
  ℕ, String, Option,
}
use factn_assistant_service.Texts.{strip, after_prefix}
use factn_assistant_service.ApiKeys.{get_by_raw_key}
use factn_assistant_service.Projects.{get_config, microseconds}
use factn_assistant_service.RedisClient.{
  TokenPayload, Codec, create_ephemeral_token, redeem_ephemeral_token, peek_ephemeral_token,
  get_ephemeral_token_ttl, ephemeral_token_max_ttl,
}
use factn_assistant_service.Schemas.{
  ApiKeyDoc, ProjectConfig, ProjectDoc, KeyType, publishable, secret,
}
use factn_assistant_service.Services.{Collection, Redis}

-- `ttl_seconds: int = Field(ge=1, le=EPHEMERAL_TOKEN_MAX_TTL)`
unfoldable pub is_ttl : ℕ → Bool
is_ttl ttl = leb 1 ttl && leb ttl ephemeral_token_max_ttl

-- The key after "Bearer ", stripped; a header that is absent is an empty text.
unfoldable pub bearer_key : Option String → Result ℕ String
bearer_key none = err 401
bearer_key (some header) = elim (after_prefix "Bearer " header) [
  | none ↦ err 401
  | some rest ↦ if str_eq (strip rest) "" then err 401 else ok (strip rest)
]

pub record TokenResponse : Type 0 where
  pub ephemeral_token : String
  pub expires_at : ℕ
  pub ttl_seconds : ℕ
  pub project_id : String

pub record RotateTokenResponse : Type 0 where
  pub ephemeral_token : String
  pub expires_at : ℕ
  pub ttl_seconds : ℕ
  pub project_id : String
  pub previous_remaining_ttl : ℕ

module _ {V : Type 0} (redis : Redis V) (tokens : Codec V TokenPayload)
    (configs : Codec V ProjectConfig) (projects : Collection ProjectDoc)
    (keys : Collection ApiKeyDoc) (verify : String → String → Bool) where
  pub record TokenStores : Type 0 where
    pub store : redis.Store
    pub project_docs : projects.State
    pub key_docs : keys.State

  -- `get_config_for_key` of a key that may mint, with the config found
  unfoldable pub config_for_key :
      ApiKeyDoc → ℕ → TokenStores → Result ℕ (ApiKeyDoc × ProjectConfig) × TokenStores
  config_for_key key_doc now w =
      let (config, r) =
        get_config redis configs projects key_doc.project_id key_doc.tenant_id now w.project_docs
          w.store in
      elim config [
        | none ↦ (err 404, record w { store = r })
        | some c ↦ (ok (key_doc, c), record w { store = r })
      ]

  -- Only a secret key goes on.
  unfoldable pub check_key_type :
      KeyType → ApiKeyDoc → ℕ → TokenStores → Result ℕ (ApiKeyDoc × ProjectConfig) × TokenStores
  check_key_type publishable key_doc now w = (err 403, w)
  check_key_type secret key_doc now w = config_for_key key_doc now w

  unfoldable pub require_secret_key :
      Option String → ℕ → TokenStores → Result ℕ (ApiKeyDoc × ProjectConfig) × TokenStores
  require_secret_key header now w = elim (bearer_key header) [
    | err code ↦ (err code, w)
    | ok raw_key ↦
        let (found, s) = get_by_raw_key keys verify raw_key now w.key_docs in
        let w' = record w { key_docs = s } in
        elim found [
          | none ↦ (err 401, w')
          | some key_doc ↦ check_key_type key_doc.key_type key_doc now w'
        ]
  ]

  -- The call of `create_ephemeral_token` that both routes make.
  unfoldable pub mint :
      ApiKeyDoc
      → ProjectConfig
      → ℕ
      → List (String × String)
      → String
      → ℕ
      → redis.Store
      → (String × ℕ) × redis.Store
  mint key_doc config ttl metadata raw_token now r =
      create_ephemeral_token redis tokens config.project_id config.tenant_id key_doc.id
        key_doc.rate_limit_rpm ttl metadata raw_token (now / microseconds) r

  unfoldable pub create_token :
      Option String
      → ℕ
      → List (String × String)
      → String
      → ℕ
      → TokenStores
      → Result ℕ TokenResponse × TokenStores
  create_token header ttl metadata raw_token now w =
      let (who, w') = require_secret_key header now w in
      if is_ttl ttl
      then (elim who [
        | err code ↦ (err code, w')
        | ok (key_doc, config) ↦ if ltb 10 (length metadata) then (err 422, w') else (
          ok (record {
            ephemeral_token = (mint key_doc config ttl metadata raw_token now w'.store).0.0;
            expires_at = (mint key_doc config ttl metadata raw_token now w'.store).0.1;
            ttl_seconds = ttl;
            project_id = config.project_id;
          }),
          record w' { store = (mint key_doc config ttl metadata raw_token now w'.store).1 },
        )
      ])
      else (err 422, w)

  -- `rotate_token` from the redemption on: the old token with its remaining lifetime and its payload,
  -- at the time of the redemption
  unfoldable pub replace_token :
      ApiKeyDoc
      → ProjectConfig
      → String
      → ℕ
      → TokenPayload
      → ℕ
      → String
      → ℕ
      → redis.Store
      → Result ℕ RotateTokenResponse × redis.Store
  replace_token key_doc config current old_ttl old_payload ttl raw_token now r =
      let (consumed, r') = redeem_ephemeral_token redis tokens current (now / microseconds) r in
      elim consumed [
        | none ↦ (err 409, r')
        | some p ↦ (
          ok (record {
            ephemeral_token = (mint key_doc config ttl old_payload.metadata raw_token now r').0.0;
            expires_at = (mint key_doc config ttl old_payload.metadata raw_token now r').0.1;
            ttl_seconds = ttl;
            project_id = config.project_id;
            previous_remaining_ttl = old_ttl;
          }),
          (mint key_doc config ttl old_payload.metadata raw_token now r').1,
        )
      ]

  -- `rotate_token` for a key that may mint. Between the peek at the time `now` and the redemption at
  -- the time `later`, other requests and connections use the server: `meanwhile`.
  unfoldable pub rotate_for_key :
      ApiKeyDoc
      → ProjectConfig
      → String
      → ℕ
      → String
      → ℕ
      → ℕ
      → (redis.Store → redis.Store)
      → redis.Store
      → Result ℕ RotateTokenResponse × redis.Store
  rotate_for_key key_doc config current ttl raw_token now later meanwhile r =
      elim (get_ephemeral_token_ttl redis current (now / microseconds) r) [
        | none ↦ (err 404, r)
        | some old_ttl ↦ elim (peek_ephemeral_token redis tokens current (now / microseconds) r) [
          | none ↦ (err 404, r)
          | some p ↦
              if str_eq p.project_id config.project_id
              then replace_token key_doc config current old_ttl p ttl raw_token later (meanwhile r)
              else (err 403, r)
        ]
      ]

  unfoldable pub rotate_token :
      Option String
      → String
      → ℕ
      → String
      → ℕ
      → ℕ
      → (redis.Store → redis.Store)
      → TokenStores
      → Result ℕ RotateTokenResponse × TokenStores
  rotate_token header current ttl raw_token now later meanwhile w =
      let (who, w') = require_secret_key header now w in
      if is_ttl ttl && not (str_eq current "")
      then (elim who [
        | err code ↦ (err code, w')
        | ok (key_doc, config) ↦
            let (answer, r) =
              rotate_for_key key_doc config current ttl raw_token now later meanwhile w'.store in
            (answer, record w' { store = r })
      ])
      else (err 422, w)
