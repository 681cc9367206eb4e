-- ===== src/Projects/Fresh.antt =====
-- The configuration that a project has in the collection, with no cache in between.
use factn_assistant_service.Base.{
  inr, arith, inl, [], Bool-cases, ◌∷◌, ◌++◌, false, true, some, none, ◌≤◌, ◌≡◌, str_eq,
  if◌then◌else◌, find_first, count_if, Option, Bool, String, List, refl,
}
use factn_assistant_service.Schemas.{to_project_config, ProjectConfig, ProjectDoc}
use factn_assistant_service.Services.Lists.{update_first}

unfoldable pub is_id : String → ProjectDoc → Bool
is_id project_id d = str_eq d.id project_id

abbrev pub active_config : ProjectDoc → Option ProjectConfig
active_config d = if d.is_active then some (to_project_config d) else none

unfoldable pub fresh : String → List ProjectDoc → Option ProjectConfig
fresh project_id ds = elim (find_first (is_id project_id) ds) [
  | none ↦ none
  | some d ↦ active_config d
]

-- No two documents have one id.
abbrev pub HasUniqueIds : List ProjectDoc → Type 0
HasUniqueIds ds = (project_id : String) → count_if (is_id project_id) ds ≤ 1

pub fresh-append :
    (j : String) (d : ProjectDoc) (ds : List ProjectDoc) (c : ProjectConfig)
    → fresh j ds ≡ some c
    → fresh j (ds ++ d ∷ []) ≡ some c
unfolding fresh
fresh-append j d [] c h = cc
fresh-append j d (x ∷ ds) c h = elim (Bool-cases (is_id j x)) [
  | inl hit ↦ rw (hit, fresh) (rw (hit, fresh) at h)
  | inr miss ↦ rw (miss, fresh) (fresh-append j d ds c (rw (miss, fresh) at h))
]

-- An update of the documents of another id.
pub fresh-update_other :
    (j : String) (p : ProjectDoc → Bool) (f : ProjectDoc → ProjectDoc) (ds : List ProjectDoc)
    → ((x : ProjectDoc) → p x ≡ true → is_id j x ≡ false)
    → ((x : ProjectDoc) → p x ≡ true → is_id j (f x) ≡ false)
    → fresh j (update_first p f ds) ≡ fresh j ds
unfolding fresh
fresh-update_other j p f [] before after = refl
fresh-update_other j p f (x ∷ ds) before after = elim (Bool-cases (p x)) [
  | inl hit ↦ rw (hit, fresh) (rw (before x hit, after x hit, fresh))
  | inr miss ↦ elim (Bool-cases (is_id j x)) [
    | inl found ↦ rw (miss, fresh) (rw (found, fresh))
    | inr passed ↦ rw (miss, fresh) (rw (passed, fresh) (fresh-update_other j p f ds before after))
  ]
]

-- An update that no configuration shows.
pub fresh-update_hidden :
    (j : String) (p : ProjectDoc → Bool) (f : ProjectDoc → ProjectDoc) (ds : List ProjectDoc)
    → ((x : ProjectDoc) → is_id j (f x) ≡ is_id j x)
    → ((x : ProjectDoc) → active_config (f x) ≡ active_config x)
    → fresh j (update_first p f ds) ≡ fresh j ds
unfolding fresh
fresh-update_hidden j p f [] same_id same_config = refl
fresh-update_hidden j p f (x ∷ ds) same_id same_config = elim (Bool-cases (p x)) [
  | inl hit ↦ elim (Bool-cases (is_id j x)) [
    | inl found ↦ rw (hit, fresh) (rw (same_id x, found, fresh) (same_config x))
    | inr passed ↦ rw (hit, fresh) (rw (same_id x, passed, fresh))
  ]
  | inr miss ↦ elim (Bool-cases (is_id j x)) [
    | inl found ↦ rw (miss, fresh) (rw (found, fresh))
    | inr passed ↦
        rw (miss, fresh) (rw (passed, fresh) (fresh-update_hidden j p f ds same_id same_config))
  ]
]

pub count_if-update_first :
    (q p : ProjectDoc → Bool) (f : ProjectDoc → ProjectDoc) (ds : List ProjectDoc)
    → ((x : ProjectDoc) → q (f x) ≡ q x)
    → count_if q (update_first p f ds) ≡ count_if q ds
count_if-update_first q p f [] same = refl
count_if-update_first q p f (x ∷ ds) same = elim (Bool-cases (p x)) [
  | inl hit ↦ rw hit (rw (same x))
  | inr miss ↦ rw miss (rw (count_if-update_first q p f ds same))
]

none_found :
    (q : ProjectDoc → Bool) (p : ProjectDoc → Bool) (ds : List ProjectDoc) (d : ProjectDoc)
    → count_if q ds ≡ 0
    → ((x : ProjectDoc) → p x ≡ true → q x ≡ true)
    → find_first p ds ≡ some d
    → ⊥
none_found q p [] d zero_q finer e = cc
none_found q p (x ∷ ds) d zero_q finer e = elim (Bool-cases (q x)) [
  | inl hit ↦ absurd (ground (arith, hit, zero_q))
  | inr miss ↦ elim (Bool-cases (p x)) [
    | inl picked ↦ cc (finer x picked)
    | inr passed ↦ none_found q p ds d (ground (arith, miss, zero_q)) finer (rw passed at e)
  ]
]

-- Where one document at most fits, a finer search finds the same.
pub find_first-finer :
    (q p : ProjectDoc → Bool) (ds : List ProjectDoc) (d : ProjectDoc)
    → count_if q ds ≤ 1
    → ((x : ProjectDoc) → p x ≡ true → q x ≡ true)
    → find_first p ds ≡ some d
    → find_first q ds ≡ some d
find_first-finer q p [] d unique finer e = e
find_first-finer q p (x ∷ ds) d unique finer e = elim (Bool-cases (p x)) [
  | inl picked ↦ rw (finer x picked) (rw picked at e)
  | inr passed ↦ elim (Bool-cases (q x)) [
    | inr miss ↦
        rw miss (find_first-finer q p ds d (ground (arith, miss, unique)) finer (rw passed at e))
    | inl hit ↦ absurd (none_found q p ds d (ground (arith, hit, unique)) finer (rw passed at e))
  ]
]
