-- ===== src/RedisClient/SingleUse.antt =====
-- An ephemeral token is redeemed at most once, and only while it lives.
use factn_assistant_service.RedisClient.Keys.{append-eq}
use factn_assistant_service.RedisClient.{
  loads_raw, peek_ephemeral_token, token_key, redeem_ephemeral_token, Codec, TokenPayload,
}
use factn_assistant_service.Base.{
  arith, ◌≢◌, ◌∙◌, sym, inr, eq_refl, Option-cases, none, inl, if◌then◌else◌, some, ◌≡◌, ℕ, str_eq,
  String,
}
use factn_assistant_service.Services.{Redis}

-- Distinct tokens have distinct keys.
pub token_key-eq : (a b : String) → str_eq (token_key a) (token_key b) ≡ str_eq a b
unfolding token_key
token_key-eq a b = append-eq "ephemeral_token:" a b

some-ne-none {ℓ} : {A : Type ℓ} (a : A) → some a ≢ none
some-ne-none a e = cc

module _ {V : Type 0} (redis : Redis V) (codec : Codec V TokenPayload) where
  open redis use {Store}

  redeem_found :
      (tok : String) (now : ℕ) (s : Store) (raw : V)
      → redis.get now (token_key tok) s ≡ some raw
      → redeem_ephemeral_token redis codec tok now s
        ≡ (codec.loads raw, redis.delete (token_key tok) s)
  unfolding redeem_ephemeral_token
  redeem_found tok now s raw found = rw (found, redeem_ephemeral_token)

  pub redeem_reads :
      (tok : String) (now : ℕ) (s : Store)
      → (redeem_ephemeral_token redis codec tok now s).0
        ≡ peek_ephemeral_token redis codec tok now s
  unfolding redeem_ephemeral_token peek_ephemeral_token loads_raw
  redeem_reads tok now s = ground arith

  peek-gone :
      (tok : String) (now : ℕ) (s : Store)
      → redis.get now (token_key tok) s ≡ none
      → peek_ephemeral_token redis codec tok now s ≡ none
  unfolding peek_ephemeral_token loads_raw
  peek-gone tok now s gone = rw gone

  peek-delete :
      (tok other : String) (t : ℕ) (s : Store)
      → peek_ephemeral_token redis codec other t (redis.delete (token_key tok) s)
        ≡ (if str_eq tok other then none else peek_ephemeral_token redis codec other t s)
  unfolding peek_ephemeral_token loads_raw
  peek-delete tok other t s =
      ground (arith, redis.get-delete t (token_key tok) (token_key other) s, token_key-eq tok other)

  peek-delete_self :
      (tok : String) (t : ℕ) (s : Store)
      → peek_ephemeral_token redis codec tok t (redis.delete (token_key tok) s) ≡ none
  peek-delete_self tok t s = rw (peek-delete tok tok t s) (rw eq_refl)

  -- Whoever redeems a token that is there takes it: from then on, at every time, redeeming it again
  -- or peeking at it gives nothing, and every other token peeks as before.
  pub redeem_once :
      (tok : String) (now : ℕ) (s : Store) (p : TokenPayload)
      → (redeem_ephemeral_token redis codec tok now s).0 ≡ some p
      → let s' = (redeem_ephemeral_token redis codec tok now s).1 in
        ((later : ℕ) → (redeem_ephemeral_token redis codec tok later s').0 ≡ none)
        × ((later : ℕ) → peek_ephemeral_token redis codec tok later s' ≡ none)
        × ((other : String) (later : ℕ)
            → peek_ephemeral_token redis codec other later s'
              ≡ (if str_eq tok other then none else peek_ephemeral_token redis codec other later s))
  redeem_once tok now s p won = elim (Option-cases (redis.get now (token_key tok) s)) [
    | inl gone ↦
        absurd (some-ne-none p (sym won ∙ redeem_reads tok now s ∙ peek-gone tok now s gone))
    | inr (raw, found) ↦ rw (redeem_found tok now s raw found) (
      λ later.
          redeem_reads tok later (redis.delete (token_key tok) s) ∙ peek-delete_self tok later s,
      λ later. peek-delete_self tok later s,
      λ other later. peek-delete tok other later s,
    )
  ]
