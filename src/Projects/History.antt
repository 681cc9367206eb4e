-- ===== src/Projects/History.antt =====
-- Histories of whole operations on the projects: handshakes that read configurations, and the writes
-- of the dashboard.
use factn_assistant_service.Projects.Coherence.{
  touch-IsFit, soft_delete-IsFit, update-IsFit, none_ne_some, create-IsFit, IsFit, World,
}
use factn_assistant_service.Projects.Reads.{read-IsFit, get_config-active_config, after_read}
use factn_assistant_service.Base.{
  ◌∙◌, sym, if◌then◌else◌, some, none, arith, ◌≡◌, count_if, ◌/◌, ◌≤◌, String, ℕ,
}
use factn_assistant_service.Schemas.{to_project_config, ProjectDoc, ProjectConfig}
use factn_assistant_service.Projects.Store.{
  touch_last_accessed, soft_delete, update, Changes, create, NewProject,
}
use factn_assistant_service.Projects.{get_config, get_project, microseconds}
use factn_assistant_service.Projects.Fresh.{HasUniqueIds, is_id}
use native.Mathlib.Nat.{le_trans}
use factn_assistant_service.Projects.Cache.{cached}
use factn_assistant_service.Services.{Collection, Redis}
use factn_assistant_service.RedisClient.{Codec}

module _ {V : Type 0} (redis : Redis V) (codec : Codec V ProjectConfig)
    (projects : Collection ProjectDoc) where
  -- One operation at a time. The id of a new project is one that no document has.
  pub data Step (now : ℕ) : World redis codec projects → World redis codec projects → Type 0 where
    creates :
        (new_id tid : String) (b : NewProject) (w : World redis codec projects)
        → count_if (is_id new_id) (projects.docs w.docs) ≡ 0
        → Step now w (create redis projects new_id tid b now w).1
    updates :
        (k tid : String) (changes : Changes) (w : World redis codec projects)
        → Step now w (update redis projects k tid changes now w).1
    deletes :
        (k tid : String) (w : World redis codec projects)
        → Step now w (soft_delete redis projects k tid now w).1
    accesses :
        (k tid : String) (w : World redis codec projects)
        → Step now w (touch_last_accessed redis projects k tid now w)
    reads :
        (k tid : String) (w : World redis codec projects)
        → Step now w (after_read redis codec projects k tid now w)

  -- Operations one after the other, at times that do not go back.
  pub data History (t : ℕ) (w : World redis codec projects)
      : ℕ → World redis codec projects → Type 0 where
    start : History t w t w
    then_at :
        {u now : ℕ} {v x : World redis codec projects}
        → History t w u v
        → u ≤ now
        → Step now v x
        → History t w now x

  IsFit-later :
      (a b : ℕ) (w : World redis codec projects)
      → a ≤ b
      → IsFit redis codec projects a w
      → IsFit redis codec projects b w
  IsFit-later a b w le (coherent, unique) =
      (λ j t c late hit. coherent j t c (le_trans le late) hit, unique)

  Step-IsFit :
      (now : ℕ) {v x : World redis codec projects}
      → Step now v x
      → IsFit redis codec projects (now / microseconds) v
      → IsFit redis codec projects (now / microseconds) x
  Step-IsFit now (creates new_id tid b w unused) h =
      create-IsFit redis codec projects (now / microseconds) new_id tid b now w unused h
  Step-IsFit now (updates k tid changes w) h =
      update-IsFit redis codec projects (now / microseconds) k tid changes now w h
  Step-IsFit now (deletes k tid w) h =
      soft_delete-IsFit redis codec projects (now / microseconds) k tid now w h
  Step-IsFit now (accesses k tid w) h =
      touch-IsFit redis codec projects (now / microseconds) k tid now w h
  Step-IsFit now (reads k tid w) h = read-IsFit redis codec projects k tid now w h

  History-IsFit :
      {t : ℕ} {w : World redis codec projects} {u : ℕ} {v : World redis codec projects}
      → History t w u v
      → IsFit redis codec projects (t / microseconds) w
      → IsFit redis codec projects (u / microseconds) v
  History-IsFit start h = h
  History-IsFit (then_at {u} {now} {v} earlier le step) h = Step-IsFit now step (
      IsFit-later (u / microseconds) (now / microseconds) v (omega arith) (History-IsFit earlier h))

  -- After any history of whole operations, from a cache that gives nothing and documents with distinct
  -- ids, the configuration that a handshake resolves for a project of the tenant is the one that the
  -- collection has at that time, and none where the project is not active: the cache cannot be told
  -- from reading the collection.
  pub get_config-refines :
      (t u now : ℕ) (w v : World redis codec projects) (k tid : String) (d : ProjectDoc)
      → ((j : String) (s : ℕ) → cached redis codec j s w.cache ≡ none)
      → HasUniqueIds (projects.docs w.docs)
      → History t w u v
      → u ≤ now
      → get_project projects k (some tid) v.docs ≡ some d
      → (get_config redis codec projects k tid now v.docs v.cache).0
        ≡ (if d.is_active then some (to_project_config d) else none)
  get_config-refines t u now w v k tid d nothing unique history le found =
      let first : IsFit redis codec projects (t / microseconds) w =
        (λ j s c late hit. absurd (none_ne_some c (sym (nothing j s) ∙ hit)), unique) in
      get_config-active_config redis codec projects k tid now v d
        (IsFit-later (u / microseconds) (now / microseconds) v (omega arith)
          (History-IsFit history first))
        found
