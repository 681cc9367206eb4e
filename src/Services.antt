-- ===== src/Services.antt =====
-- The services that the program calls and does not implement, as interfaces: a Redis server and
-- MongoDB collections, each with the documented behaviour that the code relies on. Times are whole
-- seconds where Redis counts them.
pub mod Lists
pub mod Paging
pub mod Instances
pub mod Server
use factn_assistant_service.Base.{
  All, min, ◌-◌, ◌==◌, length, ◌<◌, count_if, suc, not, ◌≢◌, ◌↔◌, none, some, [], ◌∷◌, ◌+◌, ◌++◌,
  ltb, str_eq, find_first, keep_if, if◌then◌else◌, ◌≤◌, ◌≡◌, Option, String, Bool, ℕ, List, refl,
}
use factn_assistant_service.Services.Paging.{IsDescending}
use factn_assistant_service.Services.Lists.{update_first, remove_first}

-- A Redis server that stores texts `V`. `ttl` is none where the server answers a negative number.
pub record Redis (V : Type 0) : Type 1 where
  pub Store : Type 0
  pub get : ℕ → String → Store → Option V
  pub ttl : ℕ → String → Store → Option ℕ
  -- `SET key value EX seconds` at a time
  pub set : ℕ → String → V → ℕ → Store → Store
  pub delete : String → Store → Store
  -- the integer at a key, 0 where there is none, and `INCR` with the new value
  pub counter : ℕ → String → Store → ℕ
  pub incr : ℕ → String → Store → Store
  -- `EXPIRE key seconds` at a time
  pub expire : ℕ → String → ℕ → Store → Store
  pub get-set :
      (now t : ℕ) (k j : String) (v : V) (seconds : ℕ) (s : Store)
      → now ≤ t
      → get t j (set now k v seconds s)
        ≡ (if str_eq k j then (if ltb t (now + seconds) then some v else none) else get t j s)
  pub get-delete :
      (t : ℕ) (k j : String) (s : Store)
      → get t j (delete k s) ≡ (if str_eq k j then none else get t j s)
  pub ttl-none : (t : ℕ) (k : String) (s : Store) → (ttl t k s ≡ none) ↔ (get t k s ≡ none)
  -- the key is kept until the given second
  pub KeptUntil : ℕ → String → Store → Type 0
  pub counter-incr :
      (t : ℕ) (k j : String) (s : Store)
      → counter t j (incr t k s) ≡ (if str_eq k j then suc (counter t j s) else counter t j s)
  pub counter-expire :
      (t : ℕ) (k j : String) (seconds : ℕ) (s : Store)
      → 0 < seconds
      → counter t j (expire t k seconds s) ≡ counter t j s
  pub expire-KeptUntil :
      (t : ℕ) (k : String) (seconds : ℕ) (s : Store)
      → 0 < counter t k s
      → KeptUntil (t + seconds) k (expire t k seconds s)
  pub incr-KeptUntil :
      (d t : ℕ) (k j : String) (s : Store) → t < d → KeptUntil d j s → KeptUntil d j (incr t k s)
  pub counter-KeptUntil :
      (d t u : ℕ) (k : String) (s : Store)
      → KeptUntil d k s
      → t ≤ u
      → u < d
      → counter u k s ≡ counter t k s

-- A collection, seen through the list of its documents. `update_one` also gives its
-- `modified_count`, and `delete_many` its `deleted_count`.
pub record Collection (D : Type 0) : Type 1 where
  pub State : Type 0
  pub docs : State → List D
  pub find : (D → Bool) → State → List D
  pub find_one : (D → Bool) → State → Option D
  pub insert_one : D → State → State
  pub update_one : (D → Bool) → (D → D) → State → ℕ × State
  pub delete_one : (D → Bool) → State → State
  pub delete_many : (D → Bool) → State → ℕ × State
  -- `insert_one` into a collection with unique indexes, where the predicate says which documents have a
  -- unique key of the new one: `none` where there is one, since the call raises DuplicateKeyError
  pub insert_unique : (D → Bool) → D → State → Option State
  pub insert_unique-free :
      (clashes : D → Bool) (d : D) (s : State)
      → find_one clashes s ≡ none
      → insert_unique clashes d s ≡ some (insert_one d s)
  pub insert_unique-taken :
      (clashes : D → Bool) (d : D) (s : State) (taken : D)
      → find_one clashes s ≡ some taken
      → insert_unique clashes d s ≡ none
  pub find_lem : (p : D → Bool) (s : State) → find p s ≡ keep_if p (docs s)
  pub find_one_lem : (p : D → Bool) (s : State) → find_one p s ≡ find_first p (docs s)
  pub docs-insert_one : (d : D) (s : State) → docs (insert_one d s) ≡ docs s ++ d ∷ []
  pub docs-update_one :
      (p : D → Bool) (f : D → D) (s : State) → docs (update_one p f s).1 ≡ update_first p f (docs s)
  pub unmatched-update_one :
      (p : D → Bool) (f : D → D) (s : State)
      → find_first p (docs s) ≡ none
      → (update_one p f s).0 ≡ 0
  pub modified-update_one :
      (p : D → Bool) (f : D → D) (s : State) (d : D)
      → find_first p (docs s) ≡ some d
      → f d ≢ d
      → (update_one p f s).0 ≡ 1
  pub docs-delete_one : (p : D → Bool) (s : State) → docs (delete_one p s) ≡ remove_first p (docs s)
  pub docs-delete_many :
      (p : D → Bool) (s : State) → docs (delete_many p s).1 ≡ keep_if (λ d. not (p d)) (docs s)
  pub count-delete_many : (p : D → Bool) (s : State) → (delete_many p s).0 ≡ count_if p (docs s)
  -- an update that modified nothing
  pub unchanged-update_one :
      (p : D → Bool) (f : D → D) (s : State)
      → (update_one p f s).0 ≡ 0
      → docs (update_one p f s).1 ≡ docs s
  -- `find(p).sort(key, -1).skip(skip).limit(limit)`, where a limit of 0 is no limit
  pub find_page : (D → Bool) → (D → ℕ) → ℕ → ℕ → State → List D
  pub length-find_page :
      (p : D → Bool) (key : D → ℕ) (skip limit : ℕ) (s : State)
      → length (find_page p key skip limit s) ≡ (
          if limit == 0 then count_if p (docs s) - skip else min limit (count_if p (docs s) - skip))
  pub find_page-IsDescending :
      (p : D → Bool) (key : D → ℕ) (skip limit : ℕ) (s : State)
      → IsDescending key (find_page p key skip limit s)
  pub All-find_page :
      (P : D → Type 0) (p : D → Bool) (key : D → ℕ) (skip limit : ℕ) (s : State)
      → All P (keep_if p (docs s))
      → All P (find_page p key skip limit s)
