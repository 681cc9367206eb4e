-- ===== src/Services/Paging.antt =====
-- Sorted pages of a list: `sort(key, -1)`, `skip` and `limit` of a cursor.
use factn_assistant_service.Base.{
  inr, ap, ◌∙◌, ◌-◌, min, inl, ◌≡◌, ◌==◌, zero, leb, arith, ◌≤◌, ◌∷◌, suc, length, if◌then◌else◌,
  [], Bool-cases, All, List, ℕ, refl,
}

module _ {ℓ} {A : Type ℓ} where
  abbrev pub take : ℕ → List A → List A
  take zero xs = []
  take (suc n) [] = []
  take (suc n) (x ∷ xs) = x ∷ take n xs

  abbrev pub drop : ℕ → List A → List A
  drop zero xs = xs
  drop (suc n) [] = []
  drop (suc n) (x ∷ xs) = drop n xs

  -- No item has a greater key than one before it.
  abbrev pub IsDescending : (A → ℕ) → List A → Type 0
  IsDescending key [] = Unit
  IsDescending key (x ∷ xs) = All (λ y. key y ≤ key x) xs × IsDescending key xs

  abbrev pub insert_desc : (A → ℕ) → A → List A → List A
  insert_desc key a [] = a ∷ []
  insert_desc key a (x ∷ xs) = if leb (key x) (key a) then a ∷ x ∷ xs else x ∷ insert_desc key a xs

  abbrev pub sort_desc : (A → ℕ) → List A → List A
  sort_desc key [] = []
  sort_desc key (x ∷ xs) = insert_desc key x (sort_desc key xs)

  -- A limit of 0 is no limit.
  abbrev pub page : ℕ → ℕ → List A → List A
  page skip limit xs = if limit == 0 then drop skip xs else take limit (drop skip xs)

  length-insert_desc :
      (key : A → ℕ) (a : A) (xs : List A) → length (insert_desc key a xs) ≡ suc (length xs)
  length-insert_desc key a [] = refl
  length-insert_desc key a (x ∷ xs) = ground (arith, length-insert_desc key a xs)

  length-sort_desc : (key : A → ℕ) (xs : List A) → length (sort_desc key xs) ≡ length xs
  length-sort_desc key [] = refl
  length-sort_desc key (x ∷ xs) =
      length-insert_desc key x (sort_desc key xs) ∙ ap suc (length-sort_desc key xs)

  length-take : (n : ℕ) (xs : List A) → length (take n xs) ≡ min n (length xs)
  length-take zero xs = omega arith
  length-take (suc n) [] = omega arith
  length-take (suc n) (x ∷ xs) = omega (arith, length-take n xs)

  length-drop : (n : ℕ) (xs : List A) → length (drop n xs) ≡ length xs - n
  length-drop zero xs = omega arith
  length-drop (suc n) [] = omega arith
  length-drop (suc n) (x ∷ xs) = omega (arith, length-drop n xs)

  pub length-page :
      (key : A → ℕ) (skip limit : ℕ) (xs : List A)
      → length (page skip limit (sort_desc key xs))
        ≡ (if limit == 0 then length xs - skip else min limit (length xs - skip))
  length-page key skip limit xs = elim (Bool-cases (limit == 0)) [
    | inl none_given ↦
        rw none_given (length-drop skip (sort_desc key xs) ∙ rw (length-sort_desc key xs))
    | inr given ↦ rw given (
        length-take limit (drop skip (sort_desc key xs))
        ∙ rw (length-drop skip (sort_desc key xs)) (rw (length-sort_desc key xs)))
  ]

module _ {ℓ κ} {A : Type ℓ} (P : A → Type κ) where
  All-insert_desc :
      (key : A → ℕ) (a : A) (xs : List A) → P a → All P xs → All P (insert_desc key a xs)
  All-insert_desc key a [] p h = (p, tt)
  All-insert_desc key a (x ∷ xs) p h = elim (Bool-cases (leb (key x) (key a))) [
    | inl first ↦ rw first (p, h)
    | inr later ↦ rw later (h.0, All-insert_desc key a xs p h.1)
  ]

  All-sort_desc : (key : A → ℕ) (xs : List A) → All P xs → All P (sort_desc key xs)
  All-sort_desc key [] h = tt
  All-sort_desc key (x ∷ xs) h =
      All-insert_desc key x (sort_desc key xs) h.0 (All-sort_desc key xs h.1)

  All-take : (n : ℕ) (xs : List A) → All P xs → All P (take n xs)
  All-take zero xs h = tt
  All-take (suc n) [] h = tt
  All-take (suc n) (x ∷ xs) h = (h.0, All-take n xs h.1)

  All-drop : (n : ℕ) (xs : List A) → All P xs → All P (drop n xs)
  All-drop zero xs h = h
  All-drop (suc n) [] h = tt
  All-drop (suc n) (x ∷ xs) h = All-drop n xs h.1

  pub All-page :
      (key : A → ℕ) (skip limit : ℕ) (xs : List A)
      → All P xs
      → All P (page skip limit (sort_desc key xs))
  All-page key skip limit xs h =
      let rest = All-drop skip (sort_desc key xs) (All-sort_desc key xs h) in
      elim (Bool-cases (limit == 0)) [
        | inl none_given ↦ rw none_given rest
        | inr given ↦ rw given (All-take limit (drop skip (sort_desc key xs)) rest)
      ]

module _ {ℓ} {A : Type ℓ} (key : A → ℕ) where
  All-le_trans :
      (x y : A) (xs : List A)
      → key x ≤ key y
      → All (λ z. key z ≤ key x) xs
      → All (λ z. key z ≤ key y) xs
  All-le_trans x y [] h all = tt
  All-le_trans x y (z ∷ xs) h all = (omega arith, All-le_trans x y xs h all.1)

  insert_desc-IsDescending :
      (a : A) (xs : List A) → IsDescending key xs → IsDescending key (insert_desc key a xs)
  insert_desc-IsDescending a [] h = (tt, tt)
  insert_desc-IsDescending a (x ∷ xs) h = elim (Bool-cases (leb (key x) (key a))) [
    | inl first ↦
        rw first ((ground (arith, first), All-le_trans x a xs (ground (arith, first)) h.0), h)
    | inr later ↦ rw later (
      All-insert_desc (λ z. key z ≤ key x) key a xs (ground (arith, later)) h.0,
      insert_desc-IsDescending a xs h.1,
    )
  ]

  sort_desc-IsDescending : (xs : List A) → IsDescending key (sort_desc key xs)
  sort_desc-IsDescending [] = tt
  sort_desc-IsDescending (x ∷ xs) =
      insert_desc-IsDescending x (sort_desc key xs) (sort_desc-IsDescending xs)

  take-IsDescending : (n : ℕ) (xs : List A) → IsDescending key xs → IsDescending key (take n xs)
  take-IsDescending zero xs h = tt
  take-IsDescending (suc n) [] h = tt
  take-IsDescending (suc n) (x ∷ xs) h =
      (All-take (λ y. key y ≤ key x) n xs h.0, take-IsDescending n xs h.1)

  drop-IsDescending : (n : ℕ) (xs : List A) → IsDescending key xs → IsDescending key (drop n xs)
  drop-IsDescending zero xs h = h
  drop-IsDescending (suc n) [] h = tt
  drop-IsDescending (suc n) (x ∷ xs) h = drop-IsDescending n xs h.1

  pub page-IsDescending :
      (skip limit : ℕ) (xs : List A) → IsDescending key (page skip limit (sort_desc key xs))
  page-IsDescending skip limit xs =
      let rest = drop-IsDescending skip (sort_desc key xs) (sort_desc-IsDescending xs) in
      elim (Bool-cases (limit == 0)) [
        | inl none_given ↦ rw none_given rest
        | inr given ↦ rw given (take-IsDescending limit (drop skip (sort_desc key xs)) rest)
      ]
