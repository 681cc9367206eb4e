-- ===== src/Tests/Tokens.antt =====
-- Keys and tokens on a small server and small collections.
use factn_assistant_service.Base.{
  ◌+◌, keep_if, false, arith, List, ltb, min, if◌then◌else◌, ◌≡◌, str_eq, ◌∷◌, true, some, none, [],
  Bool, ℕ, String, refl,
}
use factn_assistant_service.AuthTokens.Purge.{purge-verify_and_rotate}
use factn_assistant_service.AuthTokens.Race.{
  find_match, rotate_around, rotate_around-rotate, rotate_around-revoke_for_tenant,
}
use factn_assistant_service.AuthTokens.{
  is_live_for, has_id, refresh_ttl, revoke_for_tenant, is_of_tenant, verify_and_rotate, Fresh,
}
use factn_assistant_service.Schemas.{secret, is_valid, AuthTokenDoc, ApiKeyDoc}
use factn_assistant_service.AuthTokens.Reuse.{reuse_keeps_family}
use factn_assistant_service.ApiKeys.Revoke.{revoke-get_by_raw_key}
use factn_assistant_service.ApiKeys.Lookup.{get_by_raw_key-Admits, Admits}
use factn_assistant_service.RedisClient.SingleUse.{redeem_once}
use factn_assistant_service.ApiKeys.{
  mark_revoked, take_chars, has_prefix, check_candidates, revoke, is_key_of, get_by_raw_key,
}
use factn_assistant_service.RedisClient.RateLimit.{allowed_calls-window, allowed_calls}
use factn_assistant_service.RedisClient.{
  peek_ephemeral_token, redeem_ephemeral_token, TokenPayload, Codec,
}
use factn_assistant_service.Services.Server.{text_at, server_redis, count_at, Server}
use factn_assistant_service.Services.Instances.{list_collection}
use factn_assistant_service.Services.{Redis, Collection}

abbrev redis : Redis TokenPayload
redis = server_redis TokenPayload

abbrev codec : Codec TokenPayload TokenPayload
codec = record { dumps = λ p. p; loads = λ p. some p; loads-dumps = λ p. refl }

abbrev payload : TokenPayload
payload = record {
  project_id = "p1";
  tenant_id = "t1";
  api_key_id = "k1";
  rate_limit_rpm = 60;
  issued_at = 100;
  expires_at = 160;
  metadata = [];
}

abbrev empty_server : Server TokenPayload
empty_server = record { texts = λ _. none; counters = λ _. (0, none) }

abbrev with_token : Server TokenPayload
with_token = record { texts = λ _. some (payload, 160); counters = λ _. (0, none) }

redeem_once_example :
    let s' = (redeem_ephemeral_token redis codec "abc" 120 with_token).1 in
    ((later : ℕ) → (redeem_ephemeral_token redis codec "abc" later s').0 ≡ none)
    × ((later : ℕ) → peek_ephemeral_token redis codec "abc" later s' ≡ none)
    × ((other : String) (later : ℕ)
        → peek_ephemeral_token redis codec other later s' ≡ (
            if str_eq "abc" other
            then none
            else peek_ephemeral_token redis codec other later with_token))
unfolding redeem_ephemeral_token text_at
redeem_once_example = redeem_once redis codec "abc" 120 with_token payload refl

abbrev decimal : ℕ → String
decimal n = "2"

allowed_calls-window_example :
    allowed_calls redis decimal "key" 2 (120 ∷ 130 ∷ 179 ∷ []) empty_server ≡ min 2 3
unfolding count_at
allowed_calls-window_example =
    allowed_calls-window redis decimal "key" 2 2 120 (130 ∷ 179 ∷ []) empty_server
      ((omega arith), refl, ((omega arith), refl, ((omega arith), refl, tt))) refl

abbrev keys : Collection ApiKeyDoc
keys = list_collection ApiKeyDoc

abbrev verify : String → String → Bool
verify hash raw = str_eq hash raw

abbrev raw : String
raw = "sk_live_0123456789"

abbrev key_doc : ApiKeyDoc
key_doc = record {
  id = "k1";
  project_id = "p1";
  tenant_id = "t1";
  label = "server";
  key_prefix = "sk_live_0123";
  key_hash = raw;
  key_type = secret;
  rate_limit_rpm = 60;
  revoked = false;
  revoked_at = none;
  created_at = 10;
  last_used_at = none;
  expires_at = some 1_000;
}

abbrev other_doc : ApiKeyDoc
other_doc = record key_doc { id = "k2" }

abbrev revoked_doc : ApiKeyDoc
revoked_doc = record key_doc { revoked = true; revoked_at = some 20 }

get_by_raw_key-Admits_example : Admits verify raw 500 key_doc
unfolding get_by_raw_key check_candidates has_prefix take_chars is_valid
get_by_raw_key-Admits_example =
    get_by_raw_key-Admits keys verify raw 500 (revoked_doc ∷ key_doc ∷ []) key_doc refl

revoke-get_by_raw_key_example : is_key_of "k1" "t1" other_doc ≡ false
unfolding revoke get_by_raw_key check_candidates has_prefix take_chars is_valid is_key_of
    mark_revoked
revoke-get_by_raw_key_example =
    revoke-get_by_raw_key keys verify "k1" "t1" raw 400 500 (key_doc ∷ other_doc ∷ []) other_doc
      (omega arith) refl

abbrev tokens : Collection AuthTokenDoc
tokens = list_collection AuthTokenDoc

abbrev refresh_doc : AuthTokenDoc
refresh_doc = record {
  id = "r1";
  tenant_id = "t1";
  token_hash = "first";
  token_family = "f1";
  created_at = 10;
  expires_at = 604_810;
}

abbrev fresh : Fresh
fresh = record { raw_token = "second"; doc_id = "r2"; family = "f2" }

abbrev other_fresh : Fresh
other_fresh = record { raw_token = "third"; doc_id = "r3"; family = "f3" }

reuse_keeps_family_example :
    let after =
      (verify_and_rotate tokens (λ h. h) verify "first" none fresh 50 (refresh_doc ∷ [])).1 in
    let reuse = verify_and_rotate tokens (λ h. h) verify "first" (some "t1") other_fresh 60 after in
    (reuse ≡ (none, after))
    × ((next : AuthTokenDoc) × ((verify_and_rotate tokens
            (λ h. h)
            verify
            "second"
            none
            other_fresh
            70
            reuse.1).0
          ≡ some (next, "third"))
        × (next.tenant_id ≡ "t1")
        × (next.token_family ≡ "f1"))
unfolding is_live_for has_id
reuse_keeps_family_example =
    reuse_keeps_family tokens (λ h. h) verify "first" none (some "t1") fresh other_fresh other_fresh
      50 60 70 (refresh_doc ∷ []) refresh_doc refl tt (refl, tt) refl refl (omega arith) refl

abbrev expired_doc : AuthTokenDoc
expired_doc = record refresh_doc { id = "r0"; expires_at = 40 }

purge-verify_and_rotate_example :
    (verify_and_rotate tokens (λ h. h) verify "first" none fresh 50 (refresh_doc ∷ [])).0
    ≡ (verify_and_rotate tokens
        (λ h. h)
        verify
        "first"
        none
        fresh
        50
        (expired_doc ∷ refresh_doc ∷ [])).0
purge-verify_and_rotate_example =
    purge-verify_and_rotate tokens (λ h. h) verify "first" none fresh 45 50
      (expired_doc ∷ refresh_doc ∷ []) (refresh_doc ∷ [])
      ((λ d. ltb 45 d.expires_at), refl, (λ d live. ground (arith, live))) (omega arith)

rotate_around-rotate_example :
    let between : List AuthTokenDoc → List AuthTokenDoc =
      λ x. (verify_and_rotate tokens (λ h. h) verify "first" none other_fresh 50 x).1 in
    let outer =
      rotate_around tokens (λ h. h) verify between "first" none fresh 50 (refresh_doc ∷ []) in
    (one : AuthTokenDoc) × (two : AuthTokenDoc) × (outer.0 ≡ some (one, "second"))
    × ((verify_and_rotate tokens (λ h. h) verify "first" none other_fresh 50 (refresh_doc ∷ [])).0
        ≡ some (two, "third"))
    × (outer.1 ≡ two ∷ one ∷ [])
    × (one.tenant_id ≡ "t1")
    × (two.tenant_id ≡ "t1")
    × (one.expires_at ≡ 50 + refresh_ttl)
    × (two.expires_at ≡ 50 + refresh_ttl)
unfolding find_match is_live_for has_id
rotate_around-rotate_example =
    rotate_around-rotate tokens (λ h. h) verify "first" none fresh other_fresh 50 (refresh_doc ∷ [])
      refresh_doc refl refl refl

rotate_around-revoke_for_tenant_example :
    let between : List AuthTokenDoc → List AuthTokenDoc =
      λ x. (revoke_for_tenant tokens "t1" x).1 in
    let outer =
      rotate_around tokens (λ h. h) verify between "first" none fresh 50 (refresh_doc ∷ []) in
    (new : AuthTokenDoc) × (outer.0 ≡ some (new, "second"))
    × (keep_if (is_of_tenant "t1") outer.1 ≡ new ∷ [])
    × (new.expires_at ≡ 50 + refresh_ttl)
unfolding find_match is_live_for
rotate_around-revoke_for_tenant_example =
    rotate_around-revoke_for_tenant tokens (λ h. h) verify "first" none fresh 50 (refresh_doc ∷ [])
      refresh_doc refl
