-- ===== src/MongoDb/Ensure.antt =====
-- What the start of db/indexes.py leaves, whatever an earlier start has left.
use mathlib.Core.Path.{subst}
use factn_assistant_service.Base.{
  arith, ◌&&◌, sym, any_of, ◌∙◌, refl, not, ap, ◌∷◌, true, false, ◌≡◌, ◌++◌, Bool, All, [], List,
}
use mathlib.Core.List.{append-nil, append_assoc}
use factn_assistant_service.MongoDb.{
  Database, Index, clashes, all_indexes, create_indexes, ensure_indexes, tenant_indexes,
  project_indexes, api_key_indexes, session_indexes, auth_token_indexes,
}

-- No index of the second list clashes with one before it, in it or in the first list.
abbrev are_apart : List Index → List Index → Bool
are_apart before [] = true
are_apart before (ix ∷ ixs) = not (any_of (clashes ix) before) && are_apart (before ++ ix ∷ []) ixs

all_indexes_apart : are_apart [] all_indexes ≡ true
unfolding all_indexes tenant_indexes project_indexes api_key_indexes session_indexes
    auth_token_indexes
all_indexes_apart = refl

are_apart-append :
    (before pre post : List Index)
    → are_apart before (pre ++ post) ≡ true
    → are_apart (before ++ pre) post ≡ true
are_apart-append before [] post h = rw (append-nil before) h
are_apart-append before (ix ∷ pre) post h =
    subst (λ b. are_apart b post ≡ true) (append_assoc before (ix ∷ []) pre)
      (are_apart-append (before ++ ix ∷ []) pre post (ground (arith, h)))

module _ (database : Database) where
  open database use {State}

  -- No unique index of the list has duplicates.
  abbrev pub AreBuildable : List Index → State → Type 0
  AreBuildable ixs s = All (λ ix. database.has_duplicates ix s ≡ false) ixs

  -- Indexes that are there already are left alone.
  create_indexes-again :
      (before pre after : List Index) (s : State)
      → database.indexes s ≡ before ++ (pre ++ after)
      → (more : List Index)
      → create_indexes database (pre ++ more) s ≡ create_indexes database more s
  unfolding create_indexes
  create_indexes-again before [] after s there more = refl
  create_indexes-again before (ix ∷ pre) after s there more =
      rw (database.create_index-again ix before (pre ++ after) s there, create_indexes)
        (create_indexes-again (before ++ ix ∷ []) pre after s
          (there ∙ sym (append_assoc before (ix ∷ []) (pre ++ after))) more)

  buildable-kept :
      (ixs : List Index) (s s' : State)
      → ((jx : Index) → database.has_duplicates jx s' ≡ database.has_duplicates jx s)
      → AreBuildable ixs s
      → AreBuildable ixs s'
  buildable-kept [] s s' same h = tt
  buildable-kept (ix ∷ ixs) s s' same h = (same ix ∙ h.0, buildable-kept ixs s s' same h.1)

  create_indexes-new :
      (before ixs : List Index) (s : State)
      → database.indexes s ≡ before
      → are_apart before ixs ≡ true
      → AreBuildable ixs s
      → ((create_indexes database ixs s).0 ≡ true)
        × (database.indexes (create_indexes database ixs s).1 ≡ before ++ ixs)
  unfolding create_indexes
  create_indexes-new before [] s there apart good = (refl, there ∙ sym (append-nil before))
  create_indexes-new before (ix ∷ ixs) s there apart good =
      let fresh : any_of (clashes ix) (database.indexes s) ≡ false =
        rw there (ground (arith, apart)) in
      let (s', made, now_there, same) = database.create_index-new ix s fresh good.0 in
      let rest =
        create_indexes-new (before ++ ix ∷ []) ixs s' (now_there ∙ ap (λ b. b ++ ix ∷ []) there)
          (ground (arith, apart)) (buildable-kept ixs s s' same good.1) in
      rw (made, create_indexes) (rest.0, rest.1 ∙ append_assoc before (ix ∷ []) ixs)

  -- Wherever in the order of the calls the starts before have stopped, none or all of the indexes made
  -- included, and where no documents share a key of a unique index that is still to be made: a start goes
  -- through and leaves exactly all the indexes, in the order of the calls.
  pub ensure_indexes_resumes :
      (pre post : List Index) (s : State)
      → all_indexes ≡ pre ++ post
      → database.indexes s ≡ pre
      → AreBuildable post s
      → ((ensure_indexes database s).0 ≡ true)
        × (database.indexes (ensure_indexes database s).1 ≡ all_indexes)
  unfolding ensure_indexes
  ensure_indexes_resumes pre post s split there good =
      let same : ensure_indexes database s ≡ create_indexes database post s =
        ap (λ ixs. create_indexes database ixs s) split
        ∙ create_indexes-again [] pre [] s (there ∙ sym (append-nil pre)) post in
      let apart : are_apart pre post ≡ true =
        are_apart-append [] pre post (subst (λ x. are_apart [] x ≡ true) split all_indexes_apart) in
      let (done, holds) = create_indexes-new pre post s there apart good in
      (ap (λ r. r.0) same ∙ done, ap (λ r. database.indexes r.1) same ∙ holds ∙ sym split)

  -- The calls end at the first index that documents stand in the way of.
  pub ensure_indexes_duplicates :
      (pre post : List Index) (ix : Index) (s : State)
      → all_indexes ≡ pre ++ ix ∷ post
      → database.indexes s ≡ pre
      → database.has_duplicates ix s ≡ true
      → ensure_indexes database s ≡ (false, s)
  unfolding ensure_indexes create_indexes
  ensure_indexes_duplicates pre post ix s split there taken =
      let apart : are_apart pre (ix ∷ post) ≡ true =
        are_apart-append [] pre (ix ∷ post)
          (subst (λ x. are_apart [] x ≡ true) split all_indexes_apart) in
      let fresh : any_of (clashes ix) (database.indexes s) ≡ false =
        rw there (ground (arith, apart)) in
      ap (λ ixs. create_indexes database ixs s) split
      ∙ create_indexes-again [] pre [] s (there ∙ sym (append-nil pre)) (ix ∷ post)
      ∙ rw (database.create_index-duplicates ix s fresh taken, create_indexes) refl
