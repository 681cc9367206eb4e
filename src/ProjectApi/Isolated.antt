-- ===== src/ProjectApi/Isolated.antt =====
-- Requests to api/projects.py touch no project of a tenant that makes none of them.
use factn_assistant_service.Projects.Store.{
  NewProject, create, update, soft_delete, touch_last_accessed, is_owned, is_project_of_tenant,
  apply_changes, mark_accessed, new_project_doc, no_changes, Changes,
}
use factn_assistant_service.ProjectApi.WrittenTools.{serve-Written}
use factn_assistant_service.Base.{
  inr, ap, inl, [], Bool-cases, ◌∷◌, ◌++◌, refl, arith, ◌∙◌, ℕ, str_eq, some, keep_if, eq_iff, true,
  false, String, ◌≡◌, List, Bool,
}
use factn_assistant_service.Schemas.{ProjectDoc}
use factn_assistant_service.Services.{Collection, Redis}
use factn_assistant_service.ProjectApi.{Store}
use factn_assistant_service.ProjectApi.Traffic.{Traffic, serve}
use factn_assistant_service.ProjectApi.Written.{
  Written, nothing, creates, updates, deletes, accesses, AreAllowed,
}
use factn_assistant_service.Services.Lists.{update_first}

-- An update of items that a filter drops, before and after, does not show behind the filter.
keep_if-updated :
    {A : Type 0} (q p : A → Bool) (f : A → A) (xs : List A)
    → ((x : A) → p x ≡ true → q x ≡ false)
    → ((x : A) → p x ≡ true → q (f x) ≡ false)
    → keep_if q (update_first p f xs) ≡ keep_if q xs
keep_if-updated q p f [] before after = refl
keep_if-updated q p f (x ∷ xs) before after = elim (Bool-cases (p x)) [
  | inl hit ↦ rw hit (rw (before x hit) (rw (after x hit)))
  | inr miss ↦ elim (Bool-cases (q x)) [
    | inl kept ↦ rw miss (rw kept (ap (λ l. x ∷ l) (keep_if-updated q p f xs before after)))
    | inr dropped ↦ rw miss (rw dropped (keep_if-updated q p f xs before after))
  ]
]

keep_if-new :
    {A : Type 0} (q : A → Bool) (xs : List A) (a : A)
    → q a ≡ false
    → keep_if q (xs ++ a ∷ []) ≡ keep_if q xs
keep_if-new q [] a h = rw h
keep_if-new q (x ∷ xs) a h = elim (Bool-cases (q x)) [
  | inl kept ↦ rw kept (ap (λ l. x ∷ l) (keep_if-new q xs a h))
  | inr dropped ↦ rw dropped (keep_if-new q xs a h)
]

module _ {V : Type 0} (redis : Redis V) (projects : Collection ProjectDoc)
    (tenant_id : String) where
  -- The projects of the tenant
  abbrev pub projects_of : Store redis projects → List ProjectDoc
  projects_of w = keep_if (is_project_of_tenant tenant_id) (projects.docs w.docs)

  -- An id other than the tenant's
  abbrev pub IsOther : String → Type 0
  IsOther id = str_eq id tenant_id ≡ false

  foreign :
      (k tid : String) (d : ProjectDoc)
      → IsOther tid
      → is_owned k tid d ≡ true
      → is_project_of_tenant tenant_id d ≡ false
  unfolding is_owned is_project_of_tenant
  foreign k tid d other owned =
      let owner : d.tenant_id ≡ tid = (eq_iff d.tenant_id tid).0 (ground (arith, owned)) in
      simp owner other

  update-projects_of :
      (k tid : String) (c : Changes) (now : ℕ) (w : Store redis projects)
      → IsOther tid
      → projects_of (update redis projects k tid c now w).1 ≡ projects_of w
  unfolding update
  update-projects_of k tid c now w other =
      rw (projects.docs-update_one (is_owned k tid) (apply_changes c now) w.docs) (
        keep_if-updated (is_project_of_tenant tenant_id) (is_owned k tid) (apply_changes c now)
          (projects.docs w.docs) (λ d owned. foreign k tid d other owned)
          (λ d owned. unfold is_project_of_tenant apply_changes in foreign k tid d other owned))

  create-projects_of :
      (new_id tid : String) (b : NewProject) (now : ℕ) (w : Store redis projects)
      → IsOther tid
      → projects_of (create redis projects new_id tid b now w).1 ≡ projects_of w
  unfolding create new_project_doc is_project_of_tenant
  create-projects_of new_id tid b now w other =
      rw (projects.docs-insert_one (new_project_doc new_id tid b now) w.docs) (
        keep_if-new (λ d. str_eq d.tenant_id tenant_id) (projects.docs w.docs)
          (new_project_doc new_id tid b now) other)

  touch-projects_of :
      (k tid : String) (now : ℕ) (w : Store redis projects)
      → IsOther tid
      → projects_of (touch_last_accessed redis projects k tid now w) ≡ projects_of w
  unfolding touch_last_accessed
  touch-projects_of k tid now w other =
      rw (projects.docs-update_one (is_owned k tid) (mark_accessed now) w.docs) (
        keep_if-updated (is_project_of_tenant tenant_id) (is_owned k tid) (mark_accessed now)
          (projects.docs w.docs) (λ d owned. foreign k tid d other owned)
          (λ d owned. unfold is_project_of_tenant mark_accessed in foreign k tid d other owned))

  Written-projects_of :
      (w : Store redis projects) {v : Store redis projects}
      → Written redis projects IsOther w v
      → projects_of v ≡ projects_of w
  unfolding soft_delete
  Written-projects_of w nothing = refl
  Written-projects_of w (creates new_id tid b now u other h) =
      create-projects_of new_id tid b now u other ∙ Written-projects_of w h
  Written-projects_of w (updates k tid c now u other h) =
      update-projects_of k tid c now u other ∙ Written-projects_of w h
  Written-projects_of w (deletes k tid now u other h) =
      update-projects_of k tid (record no_changes { is_active = some false }) now u other
      ∙ Written-projects_of w h
  Written-projects_of w (accesses k tid now u other h) =
      touch-projects_of k tid now u other ∙ Written-projects_of w h

  -- Whatever requests other tenants make to create, read, change or delete projects and tools, also in
  -- the middle of one another, and whichever project ids they name: the projects of a tenant that makes
  -- none of them are the same documents, in the same order, afterwards.
  pub serve-projects_of :
      (traffic : Traffic) (w : Store redis projects)
      → AreAllowed redis projects IsOther traffic
      → projects_of (serve redis projects traffic w) ≡ projects_of w
  serve-projects_of traffic w others =
      Written-projects_of w (serve-Written redis projects IsOther w traffic w others nothing)
