-- ===== src/Services/Lists.antt =====
-- What updates and deletions do to the list of a collection's documents.
use factn_assistant_service.Base.{
  ap, none, ◌≤◌, ◌++◌, sym, refl, keep_if, false, length, count_if, any_of, All, inr, arith, inl,
  Bool-cases, true, some, [], ◌≡◌, if◌then◌else◌, ◌∷◌, find_first, List, Bool,
}
use mathlib.Core.Option.{some-injective, some-ne-none}

module _ {ℓ} {A : Type ℓ} where
  abbrev pub update_first : (A → Bool) → (A → A) → List A → List A
  update_first p f [] = []
  update_first p f (x ∷ xs) = if p x then f x ∷ xs else x ∷ update_first p f xs

  abbrev pub remove_first : (A → Bool) → List A → List A
  remove_first p [] = []
  remove_first p (x ∷ xs) = if p x then xs else x ∷ remove_first p xs

  pub find_first-holds :
      (p : A → Bool) (xs : List A) (a : A) → find_first p xs ≡ some a → p a ≡ true
  find_first-holds p [] a h = cc
  find_first-holds p (x ∷ xs) a h = elim (Bool-cases (p x)) [
    | inl yes_x ↦ ground (arith, yes_x)
    | inr no_x ↦ find_first-holds p xs a (ground (arith, no_x))
  ]

module _ {ℓ κ} {A : Type ℓ} (P : A → Type κ) where
  pub All-append : (xs : List A) (a : A) → All P xs → P a → All P (xs ++ a ∷ [])
  All-append [] a h p = (p, tt)
  All-append (x ∷ xs) a h p = (h.0, All-append xs a h.1 p)

  pub All-update_first :
      (p : A → Bool) (f : A → A) (xs : List A)
      → ((x : A) → p x ≡ true → P x → P (f x))
      → All P xs
      → All P (update_first p f xs)
  All-update_first p f [] step h = tt
  All-update_first p f (x ∷ xs) step h = elim (Bool-cases (p x)) [
    | inl here ↦ rw here (step x here h.0, h.1)
    | inr later ↦ rw later (h.0, All-update_first p f xs step h.1)
  ]

  pub All-find_first :
      (p : A → Bool) (xs : List A) (a : A) → find_first p xs ≡ some a → All P xs → P a
  All-find_first p [] a h all = cc
  All-find_first p (x ∷ xs) a h all = elim (Bool-cases (p x)) [
    | inl here ↦ rw (sym (some-injective x a (rw here at h))) all.0
    | inr later ↦ All-find_first p xs a (rw later at h) all.1
  ]

pub count_if-any :
    {A : Type 0} (p : A → Bool) (xs : List A) → any_of p xs ≡ false → count_if p xs ≡ 0
count_if-any p [] h = refl
count_if-any p (x ∷ xs) h = ground (arith, h, count_if-any p xs)

pub length-update_first :
    {A : Type 0} (p : A → Bool) (f : A → A) (xs : List A) → length (update_first p f xs) ≡ length xs
length-update_first p f [] = refl
length-update_first p f (x ∷ xs) = ground (arith, length-update_first p f xs)

-- An update that keeps what `q` says of an item keeps the number of items that `q` accepts.
pub count_if-updated :
    {A : Type 0} (q p : A → Bool) (f : A → A) (xs : List A)
    → ((x : A) → p x ≡ true → q (f x) ≡ q x)
    → count_if q (update_first p f xs) ≡ count_if q xs
count_if-updated q p f [] keeps = refl
count_if-updated q p f (x ∷ xs) keeps = elim (Bool-cases (p x)) [
  | inl here ↦ rw (here, keeps x here)
  | inr later ↦ rw (later, count_if-updated q p f xs keeps)
]

pub count_if-kept :
    {A : Type 0} (q p : A → Bool) (xs : List A) → count_if q (keep_if p xs) ≤ count_if q xs
count_if-kept q p [] = omega arith
count_if-kept q p (x ∷ xs) = ground (arith, count_if-kept q p xs)

pub find_first-last :
    {A : Type 0} (p : A → Bool) (xs : List A) (a : A)
    → find_first p xs ≡ none
    → p a ≡ true
    → find_first p (xs ++ a ∷ []) ≡ some a
find_first-last p [] a missing hit = rw hit refl
find_first-last p (x ∷ xs) a missing hit = elim (Bool-cases (p x)) [
  | inl here ↦ absurd (some-ne-none x (rw here at missing))
  | inr later ↦ rw later (find_first-last p xs a (rw later at missing) hit)
]

pub update_first-last :
    {A : Type 0} (p : A → Bool) (f : A → A) (xs : List A) (a : A)
    → find_first p xs ≡ none
    → p a ≡ true
    → update_first p f (xs ++ a ∷ []) ≡ xs ++ f a ∷ []
update_first-last p f [] a missing hit = rw hit refl
update_first-last {A} p f (x ∷ xs) a missing hit = elim (Bool-cases (p x)) [
  | inl here ↦ absurd (some-ne-none x (rw here at missing))
  | inr later ↦
      rw later (ap (λ (ys : List A). x ∷ ys) (update_first-last p f xs a (rw later at missing) hit))
]

pub count_if-remove_first :
    {A : Type 0} (q p : A → Bool) (xs : List A) → count_if q (remove_first p xs) ≤ count_if q xs
count_if-remove_first q p [] = omega arith
count_if-remove_first q p (x ∷ xs) = ground (arith, count_if-remove_first q p xs)

pub count_if-missing :
    {A : Type 0} (p : A → Bool) (xs : List A) → find_first p xs ≡ none → count_if p xs ≡ 0
count_if-missing p [] missing = refl
count_if-missing p (x ∷ xs) missing = elim (Bool-cases (p x)) [
  | inl here ↦ absurd (some-ne-none x (rw here at missing))
  | inr later ↦ rw later (count_if-missing p xs (rw later at missing))
]
