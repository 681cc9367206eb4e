-- ===== src/ProjectApi/Deleted.antt =====
-- The limit on projects of api/projects.py after a deletion, which only marks the project inactive.
use factn_assistant_service.Base.{
  ◌∙◌, [], ◌∷◌, arith, ◌+◌, str_eq, length, Bool-cases, false, inr, inl, err, ◌≤◌, refl,
  Result-cases, List, some, count_if, ◌≡◌, ℕ, String,
}
use mathlib.Core.Path.{subst}
use factn_assistant_service.Schemas.{TenantDoc, ProjectDoc}
use factn_assistant_service.Services.{Collection, Redis}
use factn_assistant_service.ProjectApi.{create_project, delete_project, get_or_404, Store}
use factn_assistant_service.Projects.Store.{
  NewProject, update, soft_delete, list_for_tenant, is_project_of_tenant, is_owned, apply_changes,
  no_changes, Changes,
}
use factn_assistant_service.PlanLimits.{max_projects, is_within_project_limit, get_all_limits}
use factn_assistant_service.PlanLimits.Caps.{IsWithin, admission_tests_iff}
use factn_assistant_service.Services.Lists.{count_if-updated}

-- No plan's limit on projects is above 25.
limit_le : (plan : String) (limit : ℕ) → max_projects plan ≡ some limit → limit ≤ 25
unfolding max_projects get_all_limits
limit_le plan limit h = elim (Bool-cases (str_eq plan "free")) [
  | inl free ↦ ground (arith, h, free)
  | inr paid ↦ elim (Bool-cases (str_eq plan "starter")) [
    | inl starter ↦ ground (arith, h, paid, starter)
    | inr above ↦ ground (arith, h, paid, above)
  ]
]

module _ {V : Type 0} (redis : Redis V) (projects : Collection ProjectDoc) where
  -- The projects of a tenant, active or not
  abbrev pub number_of_projects : String → Store redis projects → ℕ
  number_of_projects tenant_id w = count_if (is_project_of_tenant tenant_id) (projects.docs w.docs)

  update-number_of_projects :
      (tid k owner : String) (c : Changes) (now : ℕ) (w : Store redis projects)
      → number_of_projects tid (update redis projects k owner c now w).1 ≡ number_of_projects tid w
  unfolding update is_project_of_tenant apply_changes
  update-number_of_projects tid k owner c now w =
      rw (projects.docs-update_one (is_owned k owner) (apply_changes c now) w.docs) (
        count_if-updated (is_project_of_tenant tid) (is_owned k owner) (apply_changes c now)
          (projects.docs w.docs) (λ d owned. refl))

  delete_project-number_of_projects :
      (t : TenantDoc) (k tid : String) (now : ℕ) (w : Store redis projects)
      → number_of_projects tid (delete_project redis projects t k now w).1
        ≡ number_of_projects tid w
  unfolding delete_project soft_delete
  delete_project-number_of_projects t k tid now w =
      elim (Result-cases (get_or_404 projects k t w.docs)) [
        | inl (code, missing) ↦ rw (missing, delete_project)
        | inr (d, there) ↦
            rw (there, delete_project)
              (update-number_of_projects tid k t.id (record no_changes { is_active = some false })
                now w)
      ]

  create_project-full :
      (t : TenantDoc) (b : NewProject) (new_id : String) (now limit : ℕ) (w : Store redis projects)
      → max_projects t.plan ≡ some limit
      → limit ≤ number_of_projects t.id w
      → (create_project redis projects t b new_id now w).0 ≡ err 403
  unfolding create_project list_for_tenant
  create_project-full t b new_id now limit w capped full =
      let n = length (list_for_tenant redis projects t.id 1_000 0 w) in
      let counted =
        projects.length-find_page (is_project_of_tenant t.id) (λ d. d.created_at) 0 1_000 w.docs in
      elim (Bool-cases (is_within_project_limit t.plan n)) [
        | inl fits ↦
            let below : n + 1 ≤ limit =
              subst (IsWithin (n + 1)) capped ((admission_tests_iff t.plan n).1.0 fits) in
            absurd (omega (arith, below, counted, full, limit_le t.plan limit capped))
        | inr refused ↦ rw (refused, create_project)
      ]

  -- The stores after requests of the tenant that delete projects, each with its id and time
  unfoldable pub delete_all :
      TenantDoc → List (String × ℕ) → Store redis projects → Store redis projects
  delete_all t [] w = w
  delete_all t (x ∷ rest) w = delete_all t rest (delete_project redis projects t x.0 x.1 w).1

  delete_all-number_of_projects :
      (t : TenantDoc) (tid : String) (deletes : List (String × ℕ)) (w : Store redis projects)
      → number_of_projects tid (delete_all t deletes w) ≡ number_of_projects tid w
  unfolding delete_all
  delete_all-number_of_projects t tid [] w = refl
  delete_all-number_of_projects t tid (x ∷ rest) w =
      delete_all-number_of_projects t tid rest (delete_project redis projects t x.0 x.1 w).1
      ∙ delete_project-number_of_projects t x.0 tid x.1 w

  -- For every plan with a limit on projects: a tenant that has that many projects is refused a new one
  -- with 403 also right after it deleted one of them, and after any number of deletions, since the
  -- documents of deleted projects keep counting.
  pub create_after_deletes :
      (t : TenantDoc) (b : NewProject) (new_id : String) (now limit : ℕ)
      (deletes : List (String × ℕ)) (w : Store redis projects)
      → max_projects t.plan ≡ some limit
      → limit ≤ number_of_projects t.id w
      → (create_project redis projects t b new_id now (delete_all t deletes w)).0 ≡ err 403
  create_after_deletes t b new_id now limit deletes w capped full =
      create_project-full t b new_id now limit (delete_all t deletes w) capped
        (omega (arith, delete_all-number_of_projects t t.id deletes w, full))
