-- ===== src/TokenApi/Rotate.antt =====
-- What `rotate_token` of api/tokens.py does to the ephemeral tokens.
use factn_assistant_service.Base.{
  ◌∙◌, ok_inj, eq_iff, ap, Bool-cases, inr, sym, ok_ne_err, inl, Option-cases, ok, Result, Option,
  arith, none, some, ltb, str_eq, if◌then◌else◌, ◌≡◌, ◌≤◌, ◌+◌, ◌/◌, List, ℕ, Bool, String,
}
use factn_assistant_service.TokenApi.{RotateTokenResponse, mint, replace_token, rotate_for_key}
use factn_assistant_service.RedisClient.{
  TokenPayload, Codec, clamp_ttl, token_key, loads_raw, create_ephemeral_token,
  redeem_ephemeral_token, peek_ephemeral_token, get_ephemeral_token_ttl,
}
use factn_assistant_service.RedisClient.SingleUse.{token_key-eq, redeem_once}
use factn_assistant_service.Projects.{microseconds}
use factn_assistant_service.Schemas.{ApiKeyDoc, ProjectConfig, ProjectDoc}
use factn_assistant_service.Services.{Collection, Redis}

module _ {V : Type 0} (redis : Redis V) (tokens : Codec V TokenPayload)
    (configs : Codec V ProjectConfig) (projects : Collection ProjectDoc)
    (keys : Collection ApiKeyDoc) (verify : String → String → Bool) where
  -- The payload of a token that `mint` makes at a time
  abbrev pub minted : ApiKeyDoc → ProjectConfig → ℕ → List (String × String) → ℕ → TokenPayload
  minted key_doc config ttl metadata now = record {
    project_id = config.project_id;
    tenant_id = config.tenant_id;
    api_key_id = key_doc.id;
    rate_limit_rpm = key_doc.rate_limit_rpm;
    issued_at = now / microseconds;
    expires_at = now / microseconds + clamp_ttl ttl;
    metadata = metadata;
  }

  peek-mint :
      (key_doc : ApiKeyDoc) (config : ProjectConfig) (ttl now t : ℕ)
      (metadata : List (String × String)) (tok other : String) (r : redis.Store)
      → now / microseconds ≤ t
      → peek_ephemeral_token redis tokens other t
          (mint redis tokens configs projects keys verify key_doc config ttl metadata tok now r).1
        ≡ (if str_eq tok other
            then (if ltb t (now / microseconds + clamp_ttl ttl)
                then some (minted key_doc config ttl metadata now)
                else none)
            else peek_ephemeral_token redis tokens other t r)
  unfolding mint create_ephemeral_token peek_ephemeral_token loads_raw
  peek-mint key_doc config ttl now t metadata tok other r late = ground (
    arith,
    redis.get-set (now / microseconds) t (token_key tok) (token_key other)
        (tokens.dumps (minted key_doc config ttl metadata now)) (clamp_ttl ttl) r late,
    token_key-eq tok other,
    tokens.loads-dumps (minted key_doc config ttl metadata now),
  )

  -- What the token that a rotation replaced, the new one and any other give at a time from then on,
  -- where `before` is what the other gave.
  abbrev pub after_rotation :
      ApiKeyDoc
      → ProjectConfig
      → String
      → ℕ
      → List (String × String)
      → String
      → ℕ
      → ℕ
      → String
      → Option TokenPayload
      → Option TokenPayload
  after_rotation key_doc config current ttl metadata raw_token now t other before =
      if str_eq raw_token other
      then (if ltb t (now / microseconds + clamp_ttl ttl)
          then some (minted key_doc config ttl metadata now)
          else none)
      else if str_eq current other
      then none
      else before

  abbrev rotate :
      ApiKeyDoc
      → ProjectConfig
      → String
      → ℕ
      → String
      → ℕ
      → ℕ
      → (redis.Store → redis.Store)
      → redis.Store
      → Result ℕ RotateTokenResponse × redis.Store
  rotate = rotate_for_key redis tokens configs projects keys verify

  replace_token-peek :
      (key_doc : ApiKeyDoc) (config : ProjectConfig) (current : String) (old_ttl : ℕ)
      (p : TokenPayload) (ttl : ℕ) (raw_token : String) (now t : ℕ) (other : String)
      (r : redis.Store) (answer : RotateTokenResponse)
      → now / microseconds ≤ t
      → (replace_token redis tokens configs projects keys verify key_doc config current old_ttl p
          ttl raw_token now r).0
        ≡ ok answer
      → (answer.project_id ≡ config.project_id)
        × (peek_ephemeral_token redis tokens other t
              (replace_token redis tokens configs projects keys verify key_doc config current
                old_ttl p ttl raw_token now r).1
            ≡ after_rotation key_doc config current ttl p.metadata raw_token now t other
                (peek_ephemeral_token redis tokens other t r))
  unfolding replace_token
  replace_token-peek key_doc config current old_ttl p ttl raw_token now t other r answer late done =
      let redeemed = redeem_ephemeral_token redis tokens current (now / microseconds) r in
      elim (Option-cases redeemed.0) [
        | inl gone ↦ absurd (ok_ne_err answer 409 (sym (rw (gone, replace_token) at done)))
        | inr (q, won) ↦ (
          sym (ap (λ a. a.project_id) (ok_inj _ answer (rw (won, replace_token) at done))),
          rw (won, replace_token)
              (peek-mint key_doc config ttl now t p.metadata raw_token other redeemed.1 late
                ∙ rw ((redeem_once redis tokens current (now / microseconds) r q won).2 other t)),
        )
      ]

  -- A rotation that answers with a token, whatever runs between its peek and its redemption: the token
  -- that was handed in stood, when it was looked up, for a payload of the key's own project; and from
  -- the second of the redemption on the new token gives, until its lifetime is over, that project with
  -- the old metadata and the key's own rate limit, the old token gives nothing (unless the new one has
  -- the same text), and every other token gives what it gave before the redemption.
  pub rotate_for_key-tokens :
      (key_doc : ApiKeyDoc) (config : ProjectConfig) (current : String) (ttl : ℕ)
      (raw_token : String) (now later t : ℕ) (other : String)
      (meanwhile : redis.Store → redis.Store) (r : redis.Store) (answer : RotateTokenResponse)
      → later / microseconds ≤ t
      → (rotate key_doc config current ttl raw_token now later meanwhile r).0 ≡ ok answer
      → (answer.project_id ≡ config.project_id)
        × (p : TokenPayload) × (peek_ephemeral_token redis tokens current (now / microseconds) r
            ≡ some p)
        × (p.project_id ≡ config.project_id)
        × (peek_ephemeral_token redis tokens other t
              (rotate key_doc config current ttl raw_token now later meanwhile r).1
            ≡ after_rotation key_doc config current ttl p.metadata raw_token later t other
                (peek_ephemeral_token redis tokens other t (meanwhile r)))
  unfolding rotate_for_key
  rotate_for_key-tokens key_doc config current ttl raw_token now later t other meanwhile r answer
        late done =
      let at = now / microseconds in
      elim (Option-cases (get_ephemeral_token_ttl redis current at r)) [
        | inl expired ↦ absurd (ok_ne_err answer 404 (sym (rw (expired, rotate_for_key) at done)))
        | inr (old_ttl, lives) ↦
            elim (Option-cases (peek_ephemeral_token redis tokens current at r)) [
              | inl missing ↦
                  absurd (ok_ne_err answer 404 (sym (rw (lives, missing, rotate_for_key) at done)))
              | inr (p, there) ↦ elim (Bool-cases (str_eq p.project_id config.project_id)) [
                | inr foreign ↦ absurd (
                    ok_ne_err answer 403 (sym (rw (lives, there, foreign, rotate_for_key) at done)))
                | inl own ↦
                    let (same, peeks) =
                      replace_token-peek key_doc config current old_ttl p ttl raw_token later t
                        other (meanwhile r) answer late
                        (rw (lives, there, own, rotate_for_key) at done) in
                    (
                      same,
                      p,
                      there,
                      (eq_iff p.project_id config.project_id).0 own,
                      rw (lives, there, own, rotate_for_key) peeks,
                    )
              ]
            ]
      ]
