-- ===== src/Services/Server.antt =====
-- A server as two maps: the texts with their deadlines, and the counters with theirs.
use factn_assistant_service.Base.{
  eq_iff, ◌∙◌, eq_refl, ap, inr, inl, Bool-cases, ◌≤◌, ◌↔◌, ◌-◌, arith, ◌≡◌, ◌<◌, ◌+◌, suc, none,
  ltb, str_eq, some, if◌then◌else◌, Option, ℕ, String, refl,
}
use factn_assistant_service.Services.{Redis}

pub record Server (V : Type 0) : Type 0 where
  pub texts : String → Option (V × ℕ)
  pub counters : String → ℕ × Option ℕ

module _ {V : Type 0} where
  unfoldable pub text_at : ℕ → Option (V × ℕ) → Option V
  text_at t none = none
  text_at t (some (v, d)) = if ltb t d then some v else none

  unfoldable pub left_at : ℕ → Option (V × ℕ) → Option ℕ
  left_at t none = none
  left_at t (some (v, d)) = if ltb t d then some (d - t) else none

-- the value of a counter, whose key may have expired
unfoldable pub count_at : ℕ → ℕ × Option ℕ → ℕ
count_at t (n, none) = n
count_at t (n, some d) = if ltb t d then n else 0

unfoldable pub incr_at : ℕ → ℕ × Option ℕ → ℕ × Option ℕ
incr_at t (n, none) = (suc n, none)
incr_at t (n, some d) = if ltb t d then (suc n, some d) else (1, none)

unfoldable pub expire_at : ℕ → ℕ → ℕ × Option ℕ → ℕ × Option ℕ
expire_at t seconds c =
    let n = count_at t c in if ltb 0 n then (n, some (t + seconds)) else (0, none)

unfoldable pub change {ℓ} : {A : Type ℓ} → String → A → (String → A) → String → A
change k a m j = if str_eq k j then a else m j

pub ttl_none :
    {V : Type 0} (t : ℕ) (x : Option (V × ℕ)) → (left_at t x ≡ none) ↔ (text_at t x ≡ none)
unfolding left_at text_at
ttl_none t none = (λ _. refl, λ _. refl)
ttl_none t (some (v, d)) = ground arith

pub set_at :
    {V : Type 0} (t now seconds : ℕ) (k j : String) (v : V) (m : String → Option (V × ℕ))
    → text_at t (change k (some (v, now + seconds)) m j)
      ≡ (if str_eq k j then (if ltb t (now + seconds) then some v else none) else text_at t (m j))
unfolding text_at change
set_at t now seconds k j v m = ground arith

pub delete_at :
    {V : Type 0} (t : ℕ) (k j : String) (m : String → Option (V × ℕ))
    → text_at t (change k none m j) ≡ (if str_eq k j then none else text_at t (m j))
unfolding text_at change
delete_at t k j m = ground arith

count-incr : (t : ℕ) (c : ℕ × Option ℕ) → count_at t (incr_at t c) ≡ suc (count_at t c)
unfolding count_at incr_at
count-incr t (n, none) = refl
count-incr t (n, some d) = ground arith

count-expire :
    (t seconds : ℕ) (c : ℕ × Option ℕ)
    → 0 < seconds
    → count_at t (expire_at t seconds c) ≡ count_at t c
unfolding expire_at count_at
count-expire t seconds c pos = ground arith

deadline-expire :
    (t seconds : ℕ) (c : ℕ × Option ℕ)
    → 0 < count_at t c
    → (expire_at t seconds c).1 ≡ some (t + seconds)
unfolding expire_at
deadline-expire t seconds c pos = ground arith

deadline-incr : (d t : ℕ) (c : ℕ × Option ℕ) → t < d → c.1 ≡ some d → (incr_at t c).1 ≡ some d
unfolding incr_at
deadline-incr d t (n, none) lt e = cc
deadline-incr d t (n, some x) lt e = ground arith

pub count_kept :
    (d t u : ℕ) (c : ℕ × Option ℕ) → c.1 ≡ some d → t ≤ u → u < d → count_at u c ≡ count_at t c
unfolding count_at
count_kept d t u (n, none) e le lt = cc
count_kept d t u (n, some x) e le lt = ground arith

pub incr_at_key :
    (t : ℕ) (k j : String) (m : String → ℕ × Option ℕ)
    → count_at t (change k (incr_at t (m k)) m j)
      ≡ (if str_eq k j then suc (count_at t (m j)) else count_at t (m j))
unfolding change
incr_at_key t k j m = elim (Bool-cases (str_eq k j)) [
  | inl same ↦
      rw (same, change)
        (count-incr t (m k) ∙ ap (λ (i : String). suc (count_at t (m i))) ((eq_iff k j).0 same))
  | inr other ↦ rw (other, change)
]

pub expire_at_key :
    (t seconds : ℕ) (k j : String) (m : String → ℕ × Option ℕ)
    → 0 < seconds
    → count_at t (change k (expire_at t seconds (m k)) m j) ≡ count_at t (m j)
unfolding change
expire_at_key t seconds k j m pos = elim (Bool-cases (str_eq k j)) [
  | inl same ↦
      rw (same, change)
        (count-expire t seconds (m k) pos
          ∙ ap (λ (i : String). count_at t (m i)) ((eq_iff k j).0 same))
  | inr other ↦ rw (other, change)
]

pub deadline_at_key :
    (d t : ℕ) (k j : String) (m : String → ℕ × Option ℕ)
    → t < d
    → (m j).1 ≡ some d
    → (change k (incr_at t (m k)) m j).1 ≡ some d
unfolding change
deadline_at_key d t k j m lt kept = elim (Bool-cases (str_eq k j)) [
  | inl same ↦
      rw (same, change)
        (deadline-incr d t (m k) lt (ap (λ (i : String). (m i).1) ((eq_iff k j).0 same) ∙ kept))
  | inr other ↦ rw (other, change) kept
]

pub expired_key :
    (t seconds : ℕ) (k : String) (m : String → ℕ × Option ℕ)
    → 0 < count_at t (m k)
    → (change k (expire_at t seconds (m k)) m k).1 ≡ some (t + seconds)
unfolding change
expired_key t seconds k m pos = rw eq_refl (deadline-expire t seconds (m k) pos)

abbrev pub server_redis : (V : Type 0) → Redis V
server_redis V = record {
  Store = Server V;
  get = λ t k s. text_at t (s.texts k);
  ttl = λ t k s. left_at t (s.texts k);
  set = λ now k v seconds s. record s { texts = change k (some (v, now + seconds)) s.texts };
  delete = λ k s. record s { texts = change k none s.texts };
  counter = λ t k s. count_at t (s.counters k);
  incr = λ t k s. record s { counters = change k (incr_at t (s.counters k)) s.counters };
  expire = λ t k seconds s. record s {
    counters = change k (expire_at t seconds (s.counters k)) s.counters;
  };
  get-set = λ now t k j v seconds s _. set_at t now seconds k j v s.texts;
  get-delete = λ t k j s. delete_at t k j s.texts;
  ttl-none = λ t k s. ttl_none t (s.texts k);
  KeptUntil = λ d k s. (s.counters k).1 ≡ some d;
  counter-incr = λ t k j s. incr_at_key t k j s.counters;
  counter-expire = λ t k j seconds s pos. expire_at_key t seconds k j s.counters pos;
  expire-KeptUntil = λ t k seconds s pos. expired_key t seconds k s.counters pos;
  incr-KeptUntil = λ d t k j s lt kept. deadline_at_key d t k j s.counters lt kept;
  counter-KeptUntil = λ d t u k s kept le lt. count_kept d t u (s.counters k) kept le lt;
}
