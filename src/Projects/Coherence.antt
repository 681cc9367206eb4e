-- ===== src/Projects/Coherence.antt =====
-- The cache never gives out a configuration that the collection has left behind, as long as every
-- operation runs to its end before the next.
use factn_assistant_service.Base.{
  ◌∙◌, none, sym, Option, inr, count_if-append, inl, [], ◌∷◌, ◌==◌, ◌++◌, eq_iff, Bool-cases, false,
  count_if, arith, ◌≤◌, true, str_eq, ◌≡◌, some, ℕ, String, refl,
}
use factn_assistant_service.Projects.Cache.{left_of_if, cached-invalidate, cached}
use factn_assistant_service.RedisClient.{invalidate_project_config, Codec}
use factn_assistant_service.Projects.Fresh.{
  fresh-update_other, fresh-update_hidden, fresh-append, fresh, count_if-update_first, HasUniqueIds,
  active_config, is_id,
}
use factn_assistant_service.Projects.Store.{
  no_changes, touch_last_accessed, soft_delete, update, create, Stores, NewProject, new_project_doc,
  Changes, mark_accessed, is_owned, apply_changes,
}
use factn_assistant_service.Services.{Collection, Redis}
use factn_assistant_service.Schemas.{ProjectDoc, ProjectConfig, to_project_config}

apply_changes-id : (c : Changes) (now : ℕ) (d : ProjectDoc) → (apply_changes c now d).id ≡ d.id
unfolding apply_changes
apply_changes-id c now d = refl

owned_id : (k tid : String) (d : ProjectDoc) → is_owned k tid d ≡ true → is_id k d ≡ true
unfolding is_owned is_id
owned_id k tid d h = ground (arith, h)

other_id :
    (k j : String) (d : ProjectDoc) → is_id k d ≡ true → str_eq k j ≡ false → is_id j d ≡ false
unfolding is_id
other_id k j d h apart = rw ((eq_iff d.id k).0 h) apart

is_id_changed :
    (j : String) (c : Changes) (now : ℕ) (d : ProjectDoc)
    → is_id j (apply_changes c now d) ≡ is_id j d
unfolding is_id apply_changes
is_id_changed j c now d = refl

is_id_accessed : (j : String) (now : ℕ) (d : ProjectDoc) → is_id j (mark_accessed now d) ≡ is_id j d
unfolding is_id mark_accessed
is_id_accessed j now d = refl

config_accessed : (now : ℕ) (d : ProjectDoc) → active_config (mark_accessed now d) ≡ active_config d
unfolding mark_accessed to_project_config
config_accessed now d = refl

is_id_new :
    (j new_id tid : String) (b : NewProject) (now : ℕ)
    → is_id j (new_project_doc new_id tid b now) ≡ str_eq new_id j
unfolding is_id new_project_doc
is_id_new j new_id tid b now = refl

pub none_ne_some : (c : ProjectConfig) → ◌≡◌ {A = Option ProjectConfig} none (some c) → ⊥
none_ne_some c e = cc

module _ {V : Type 0} (redis : Redis V) (codec : Codec V ProjectConfig)
    (projects : Collection ProjectDoc) where
  abbrev pub World : Type 0
  World = Stores redis projects

  -- From the second `at` on, what the cache gives is what the collection has.
  abbrev pub IsCoherent : ℕ → World → Type 0
  IsCoherent at w =
      (j : String) (t : ℕ) (c : ProjectConfig)
      → at ≤ t
      → cached redis codec j t w.cache ≡ some c
      → fresh j (projects.docs w.docs) ≡ some c

  abbrev pub IsFit : ℕ → World → Type 0
  IsFit at w = IsCoherent at w × HasUniqueIds (projects.docs w.docs)

  pub create-IsFit :
      (at : ℕ) (new_id tid : String) (b : NewProject) (now : ℕ) (w : World)
      → count_if (is_id new_id) (projects.docs w.docs) ≡ 0
      → IsFit at w
      → IsFit at (create redis projects new_id tid b now w).1
  unfolding create
  create-IsFit at new_id tid b now w unused (coherent, unique) =
      let d = new_project_doc new_id tid b now in
      rw (projects.docs-insert_one d w.docs) (
        λ j t c late hit. fresh-append j d (projects.docs w.docs) c (coherent j t c late hit),
        λ j. created_once j,
      )
    where
      created_once :
          (j : String)
          → count_if (is_id j) (projects.docs w.docs ++ new_project_doc new_id tid b now ∷ []) ≤ 1
      created_once j = ground (
        arith,
        count_if-append (is_id j) (projects.docs w.docs) (new_project_doc new_id tid b now ∷ []),
        is_id_new j new_id tid b now,
        eq_iff new_id j,
        unique j,
        unused,
      )

  pub update-IsFit :
      (at : ℕ) (k tid : String) (changes : Changes) (now : ℕ) (w : World)
      → IsFit at w
      → IsFit at (update redis projects k tid changes now w).1
  unfolding update
  update-IsFit at k tid changes now w (coherent, unique) =
      let p = is_owned k tid in
      let f = apply_changes changes now in
      let docs' = projects.docs-update_one p f w.docs in
      let unique' : HasUniqueIds (projects.docs (projects.update_one p f w.docs).1) = rw docs' (λ j.
        rw
          (count_if-update_first (is_id j) p f (projects.docs w.docs) (is_id_changed j changes now))
          (unique j)) in
      elim (Bool-cases ((projects.update_one p f w.docs).0 == 0)) [
        | inl unchanged ↦
            let same = projects.unchanged-update_one p f w.docs (ground (arith, unchanged)) in
            rw unchanged ((λ j t c late hit. rw same (coherent j t c late hit)), unique')
        | inr modified ↦ rw modified (
          (λ j t c late hit. elim (Bool-cases (str_eq k j)) [
            | inl same ↦ absurd (
                none_ne_some c
                  (rw same at (sym (cached-invalidate redis codec k j t w.cache) ∙ hit)))
            | inr apart ↦ rw docs' (
                fresh-update_other j p f (projects.docs w.docs)
                  (λ x q. other_id k j x (owned_id k tid x q) apart)
                  (λ x q.
                    other_id k j (f x) (is_id_changed k changes now x ∙ owned_id k tid x q) apart)
                ∙ coherent j t c late (
                    left_of_if (str_eq k j) (cached redis codec j t w.cache) c
                      (sym (cached-invalidate redis codec k j t w.cache) ∙ hit)))
          ]),
          unique',
        )
      ]

  invalidate-IsFit :
      (at : ℕ) (k : String) (w : World)
      → IsFit at w
      → IsFit at (record w { cache = invalidate_project_config redis k w.cache })
  invalidate-IsFit at k w (coherent, unique) = (
    λ j t c late hit. coherent j t c late (
        left_of_if (str_eq k j) (cached redis codec j t w.cache) c
          (sym (cached-invalidate redis codec k j t w.cache) ∙ hit)),
    unique,
  )

  pub soft_delete-IsFit :
      (at : ℕ) (k tid : String) (now : ℕ) (w : World)
      → IsFit at w
      → IsFit at (soft_delete redis projects k tid now w).1
  unfolding soft_delete
  soft_delete-IsFit at k tid now w h =
      let gone : Changes = record no_changes { is_active = some false } in
      let updated = update-IsFit at k tid gone now w h in
      elim (Bool-cases (update redis projects k tid gone now w).0) [
        | inl done ↦
            rw done (invalidate-IsFit at k (update redis projects k tid gone now w).1 updated)
        | inr missed ↦ rw missed updated
      ]

  pub touch-IsFit :
      (at : ℕ) (k tid : String) (now : ℕ) (w : World)
      → IsFit at w
      → IsFit at (touch_last_accessed redis projects k tid now w)
  unfolding touch_last_accessed
  touch-IsFit at k tid now w (coherent, unique) =
      let p = is_owned k tid in
      rw (projects.docs-update_one p (mark_accessed now) w.docs) (
        λ j t c late hit.
            fresh-update_hidden j p (mark_accessed now) (projects.docs w.docs)
              (is_id_accessed j now) (config_accessed now)
            ∙ coherent j t c late hit,
        λ j.
            rw
              (count_if-update_first (is_id j) p (mark_accessed now) (projects.docs w.docs)
                (is_id_accessed j now))
              (unique j),
      )
