-- ===== src/Services/Instances.antt =====
-- A collection that is the list of its documents.
use factn_assistant_service.Base.{
  length-keep_if, ◌∙◌, min, ap, ◌-◌, inr, ◌==◌, inl, if◌then◌else◌, arith, Bool-cases, ◌≡◌, length,
  suc, Bool, not, count_if, [], ◌∷◌, ◌++◌, none, find_first, some, keep_if, ℕ, List, Option, refl,
}
use factn_assistant_service.Services.Paging.{
  length-page, All-page, page-IsDescending, sort_desc, page,
}
use factn_assistant_service.Services.Lists.{remove_first, update_first}
use factn_assistant_service.Services.{Collection}

-- `modified_count` is 1 wherever a document matched.
abbrev pub modified : {D : Type 0} → Option D → ℕ
modified none = 0
modified (some _) = 1

suc_ne_zero : (n : ℕ) → suc n ≡ 0 → ⊥
suc_ne_zero n e = absurd (omega arith)

pub update_first-unmatched :
    {D : Type 0} (p : D → Bool) (f : D → D) (s : List D)
    → modified (find_first p s) ≡ 0
    → update_first p f s ≡ s
update_first-unmatched {D} p f [] h = refl
update_first-unmatched {D} p f (d ∷ s) h = elim (Bool-cases (p d)) [
  | inl hit ↦ absurd (suc_ne_zero 0 (rw hit at h))
  | inr miss ↦ rw miss (ap (λ (t : List D). d ∷ t) (update_first-unmatched p f s (rw miss at h)))
]

pub page_of_kept :
    {D : Type 0} (p : D → Bool) (key : D → ℕ) (skip limit : ℕ) (s : List D)
    → length (page skip limit (sort_desc key (keep_if p s)))
      ≡ (if limit == 0 then count_if p s - skip else min limit (count_if p s - skip))
page_of_kept p key skip limit s = length-page key skip limit (keep_if p s) ∙ rw (length-keep_if p s)

abbrev pub list_collection : (D : Type 0) → Collection D
list_collection D = record {
  State = List D;
  docs = λ s. s;
  find = keep_if;
  find_one = find_first;
  insert_one = λ d s. s ++ d ∷ [];
  update_one = λ p f s. (modified (find_first p s), update_first p f s);
  delete_one = remove_first;
  delete_many = λ p s. (count_if p s, keep_if (λ d. not (p d)) s);
  insert_unique =
      λ clashes d s. elim (find_first clashes s) [ some taken ↦ none | none ↦ some (s ++ d ∷ []) ];
  insert_unique-free = λ clashes d s free. rw free;
  insert_unique-taken = λ clashes d s taken hit. rw hit;
  find_lem = λ _ _. refl;
  find_one_lem = λ _ _. refl;
  docs-insert_one = λ _ _. refl;
  docs-update_one = λ _ _ _. refl;
  unmatched-update_one = λ p f s h. rw h;
  modified-update_one = λ p f s d h _. rw h;
  docs-delete_one = λ _ _. refl;
  docs-delete_many = λ _ _. refl;
  count-delete_many = λ _ _. refl;
  unchanged-update_one = λ p f s none_matched. update_first-unmatched p f s none_matched;
  find_page = λ p key skip limit s. page skip limit (sort_desc key (keep_if p s));
  length-find_page = λ p key skip limit s. page_of_kept p key skip limit s;
  find_page-IsDescending = λ p key skip limit s. page-IsDescending key skip limit (keep_if p s);
  All-find_page = λ P p key skip limit s h. All-page P key skip limit (keep_if p s) h;
}
