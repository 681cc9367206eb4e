-- ===== src/RedisClient/RateLimit.antt =====
-- The fixed-window rate limit: of the calls in one window, the first `limit` are allowed.
use factn_assistant_service.Base.{
  false, ◌==◌, arith, length, ap, ◌∙◌, ◌*◌, min, eq_refl, ◌+◌, suc, [], ◌≤◌, ◌<◌, leb,
  if◌then◌else◌, ◌≡◌, ◌∷◌, ◌/◌, str_append, List, String, ℕ, refl,
}
use factn_assistant_service.Services.{Redis}
use factn_assistant_service.RedisClient.{check_and_increment_rate_limit}

not_first : (c : ℕ) → (suc (suc c) == 1) ≡ false
not_first c = ground arith

module _ {V : Type 0} (redis : Redis V) (decimal : ℕ → String) (key_prefix : String)
    (limit : ℕ) where
  open redis use {Store}

  -- The calls at the given times in turn: how many are allowed.
  unfoldable pub allowed_calls : List ℕ → Store → ℕ
  allowed_calls [] s = 0
  allowed_calls (t ∷ ts) s =
      let ((allowed, count), s') =
        check_and_increment_rate_limit redis decimal key_prefix limit 60 t s in
      (if allowed then 1 else 0) + allowed_calls ts s'

  -- the key of the window number `w`
  abbrev pub window_key : ℕ → String
  window_key w = str_append "rate_limit:" (str_append key_prefix (str_append ":" (decimal w)))

  -- Times of the window `w`, none before `t` and none before the one in front of it.
  abbrev pub InWindow : ℕ → ℕ → List ℕ → Type 0
  InWindow w t [] = Unit
  InWindow w t (u ∷ us) = (t ≤ u) × (u / 60 ≡ w) × InWindow w u us

  count_up :
      (t w : ℕ) (s : Store)
      → redis.counter t (window_key w) (redis.incr t (window_key w) s)
        ≡ suc (redis.counter t (window_key w) s)
  count_up t w s = rw (redis.counter-incr t (window_key w) (window_key w) s) (rw eq_refl)

  check_later :
      (w c d t : ℕ) (s : Store)
      → t / 60 ≡ w
      → t < d
      → redis.counter t (window_key w) s ≡ suc c
      → redis.KeptUntil d (window_key w) s
      → let after = check_and_increment_rate_limit redis decimal key_prefix limit 60 t s in
        (after.0.0 ≡ leb (suc (suc c)) limit)
        × (redis.counter t (window_key w) after.1 ≡ suc (suc c))
        × redis.KeptUntil d (window_key w) after.1
  unfolding check_and_increment_rate_limit
  check_later w c d t s in_w before count kept =
      let counted = count_up t w s ∙ ap suc count in
      rw (in_w, counted, not_first c)
        (refl, counted, redis.incr-KeptUntil d t (window_key w) (window_key w) s before kept)

  check_first :
      (w t : ℕ) (s : Store)
      → t / 60 ≡ w
      → redis.counter t (window_key w) s ≡ 0
      → let after = check_and_increment_rate_limit redis decimal key_prefix limit 60 t s in
        (after.0.0 ≡ leb 1 limit)
        × (redis.counter t (window_key w) after.1 ≡ 1)
        × redis.KeptUntil (t + 120) (window_key w) after.1
  unfolding check_and_increment_rate_limit
  check_first w t s in_w count =
      let counted = count_up t w s ∙ ap suc count in
      let some_calls : 0 < redis.counter t (window_key w) (redis.incr t (window_key w) s) =
        omega (arith, counted) in
      rw (in_w, counted)
        (
          refl,
          redis.counter-expire t (window_key w) (window_key w) 120 (redis.incr t (window_key w) s)
                (omega arith)
              ∙ counted,
          redis.expire-KeptUntil t (window_key w) 120 (redis.incr t (window_key w) s) some_calls,
        )

  -- Calls of a window after `suc c` of its calls.
  allowed_later :
      (w c d t : ℕ) (ts : List ℕ) (s : Store)
      → (w + 1) * 60 ≤ d
      → InWindow w t ts
      → redis.counter t (window_key w) s ≡ suc c
      → redis.KeptUntil d (window_key w) s
      → allowed_calls ts s + min limit (suc c) ≡ min limit (suc c + length ts)
  unfolding allowed_calls
  allowed_later w c d t [] s far inside count kept = omega arith
  allowed_later w c d t (u ∷ us) s far inside count kept =
      let before : u < d = omega (arith, inside.1) in
      let now = redis.counter-KeptUntil d t u (window_key w) s kept inside.0 before ∙ count in
      let (ok_u, count', kept') = check_later w c d u s inside.1 before now kept in
      let ih =
        allowed_later w (suc c) d u us
          (check_and_increment_rate_limit redis decimal key_prefix limit 60 u s).1 far inside.2
          count' kept' in
      rw ok_u (ground (arith, ih))

  -- In a window of sixty seconds in which the key has not been counted before, whatever the times of
  -- the calls, as many are allowed as the limit says, or all if there are fewer.
  pub allowed_calls-window :
      (w t : ℕ) (ts : List ℕ) (s : Store)
      → InWindow w t (t ∷ ts)
      → redis.counter t (window_key w) s ≡ 0
      → allowed_calls (t ∷ ts) s ≡ min limit (length (t ∷ ts))
  unfolding allowed_calls
  allowed_calls-window w t ts s inside count =
      let (ok_t, count', kept') = check_first w t s inside.1 count in
      let ih =
        allowed_later w 0 (t + 120) t ts
          (check_and_increment_rate_limit redis decimal key_prefix limit 60 t s).1
          (omega (arith, inside.1)) inside.2 count' kept' in
      rw ok_t (ground (arith, ih))
