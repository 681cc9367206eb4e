-- ===== src/ProjectApi/Stocked.antt =====
-- Each write of the routes of api/projects.py keeps the tools of every project in order.
use factn_assistant_service.PlanLimits.{max_rate_limit_rpm, max_session_ttl_seconds}
use factn_assistant_service.PlanLimits.Caps.{IsWithin}
use factn_assistant_service.Projects.Store.{
  or_else, update, soft_delete, create, touch_last_accessed, Changes, no_changes, NewProject,
  apply_changes, is_owned, new_project_doc, mark_accessed,
}
use factn_assistant_service.Base.{
  ◌≤◌, ok_inj, sym, ok_ne_err, inr, ◌∙◌, str_eq, inl, find_first, ap, Option-cases, Bool-cases,
  arith, ok, none, false, eq_iff, ◌≢◌, true, some, ◌≡◌, ℕ, All, Option, String,
}
use mathlib.Core.Path.{subst}
use factn_assistant_service.ProjectApi.{get_or_404, Store}
use factn_assistant_service.Schemas.{TenantDoc, ProjectDoc}
use factn_assistant_service.Services.{Collection, Redis}
use factn_assistant_service.ProjectApi.Tools.{IsToolbox, empty-IsToolbox}
use factn_assistant_service.Projects.{get_project, is_project_of}
use factn_assistant_service.Services.Lists.{
  All-append, All-update_first, All-find_first, find_first-holds,
}

-- A field that is given has the property.
abbrev pub IfGiven {ℓ} : {A : Type ℓ} → (A → Type 0) → Option A → Type 0
IfGiven P none = Unit
IfGiven P (some a) = P a

or_else-IfGiven :
    {A : Type 0} (P : A → Type 0) (given : Option A) (old : A)
    → IfGiven P given
    → P old
    → P (or_else given old)
or_else-IfGiven P none old h p = p
or_else-IfGiven P (some new) old h p = h

-- An update gives a good set of tools and values within the plan's limits, where it gives any.
abbrev pub FitsPlan : String → Changes → Type 0
FitsPlan plan c =
    IfGiven (IsToolbox plan) c.tools
    × IfGiven (λ ttl. ttl ≤ max_session_ttl_seconds plan) c.session_ttl_seconds
    × IfGiven (λ rpm. IsWithin rpm (max_rate_limit_rpm plan)) c.rate_limit_rpm

-- A project with a good set of tools, whose session time and rate limit are within the plan's.
abbrev pub IsOnPlan : String → ProjectDoc → Type 0
IsOnPlan plan d =
    IsToolbox plan d.tools
    × (d.session_ttl_seconds ≤ max_session_ttl_seconds plan)
    × IsWithin d.rate_limit_rpm (max_rate_limit_rpm plan)

module _ {V : Type 0} (redis : Redis V) (projects : Collection ProjectDoc)
    (plan_of : String → String) where
  abbrev pub IsStockedDoc : ProjectDoc → Type 0
  IsStockedDoc d = IsOnPlan (plan_of d.tenant_id) d

  -- Every project is on the plan of its tenant.
  abbrev pub IsStocked : Store redis projects → Type 0
  IsStocked w = All IsStockedDoc (projects.docs w.docs)

  owner_is : (k tid : String) (d : ProjectDoc) → is_owned k tid d ≡ true → d.tenant_id ≡ tid
  unfolding is_owned
  owner_is k tid d h = (eq_iff d.tenant_id tid).0 (ground (arith, h))

  changed_doc :
      (k tid : String) (c : Changes) (now : ℕ) (d : ProjectDoc)
      → FitsPlan (plan_of tid) c
      → is_owned k tid d ≡ true
      → IsStockedDoc d
      → IsStockedDoc (apply_changes c now d)
  unfolding apply_changes
  changed_doc k tid c now d fits owned (stocked, timely, slow) =
      let plan = plan_of d.tenant_id in
      let (tools_fit, ttl_fits, rpm_fits) =
        subst (λ tenant. FitsPlan (plan_of tenant) c) (sym (owner_is k tid d owned)) fits in
      (
        or_else-IfGiven (IsToolbox plan) c.tools d.tools tools_fit stocked,
        or_else-IfGiven (λ ttl. ttl ≤ max_session_ttl_seconds plan) c.session_ttl_seconds
            d.session_ttl_seconds ttl_fits timely,
        or_else-IfGiven (λ rpm. IsWithin rpm (max_rate_limit_rpm plan)) c.rate_limit_rpm
            d.rate_limit_rpm rpm_fits slow,
      )

  pub update-IsStocked :
      (k tid : String) (c : Changes) (now : ℕ) (w : Store redis projects)
      → FitsPlan (plan_of tid) c
      → IsStocked w
      → IsStocked (update redis projects k tid c now w).1
  unfolding update
  update-IsStocked k tid c now w supplied h =
      rw (projects.docs-update_one (is_owned k tid) (apply_changes c now) w.docs) (
        All-update_first IsStockedDoc (is_owned k tid) (apply_changes c now) (projects.docs w.docs)
          (λ d owned good. changed_doc k tid c now d supplied owned good) h)

  pub soft_delete-IsStocked :
      (k tid : String) (now : ℕ) (w : Store redis projects)
      → IsStocked w
      → IsStocked (soft_delete redis projects k tid now w).1
  unfolding soft_delete
  soft_delete-IsStocked k tid now w h =
      update-IsStocked k tid (record no_changes { is_active = some false }) now w (tt, tt, tt) h

  pub touch-IsStocked :
      (k tid : String) (now : ℕ) (w : Store redis projects)
      → IsStocked w
      → IsStocked (touch_last_accessed redis projects k tid now w)
  unfolding touch_last_accessed mark_accessed
  touch-IsStocked k tid now w h =
      rw (projects.docs-update_one (is_owned k tid) (mark_accessed now) w.docs) (
        All-update_first IsStockedDoc (is_owned k tid) (mark_accessed now) (projects.docs w.docs)
          (λ d owned good. good) h)

  pub create-IsStocked :
      (new_id tid : String) (b : NewProject) (now : ℕ) (w : Store redis projects)
      → b.session_ttl_seconds ≤ max_session_ttl_seconds (plan_of tid)
      → IsWithin b.rate_limit_rpm (max_rate_limit_rpm (plan_of tid))
      → IsStocked w
      → IsStocked (create redis projects new_id tid b now w).1
  unfolding create new_project_doc
  create-IsStocked new_id tid b now w timely slow h =
      rw (projects.docs-insert_one (new_project_doc new_id tid b now) w.docs) (
        All-append IsStockedDoc (projects.docs w.docs) (new_project_doc new_id tid b now) h
          (empty-IsToolbox (plan_of tid), timely, slow))

  own_tenant :
      (k tid : String) (d : ProjectDoc)
      → tid ≢ ""
      → is_project_of k (some tid) d ≡ true
      → d.tenant_id ≡ tid
  unfolding is_project_of
  own_tenant k tid d named h = elim (Bool-cases (str_eq tid "")) [
    | inl empty ↦ absurd (named ((eq_iff tid "").0 empty))
    | inr given ↦ (eq_iff d.tenant_id tid).0 (ground (arith, h, given))
  ]

  get_or_404-found :
      (k : String) (t : TenantDoc) (s : projects.State) (d : ProjectDoc)
      → get_or_404 projects k t s ≡ ok d
      → find_first (is_project_of k (some t.id)) (projects.docs s) ≡ some d
  unfolding get_or_404 get_project
  get_or_404-found k t s d found =
      let p = is_project_of k (some t.id) in
      elim (Option-cases (projects.find_one p s)) [
        | inl none_there ↦
            absurd (ok_ne_err d 404 (sym (rw (none_there, get_or_404, get_project) at found)))
        | inr (x, there) ↦
            sym (projects.find_one_lem p s)
            ∙ there
            ∙ ap some (ok_inj x d (rw (there, get_or_404, get_project) at found))
      ]

  -- What a route reads of the tenant's project
  pub get_or_404-stocked :
      (k : String) (t : TenantDoc) (w : Store redis projects) (d : ProjectDoc)
      → t.id ≢ ""
      → t.plan ≡ plan_of t.id
      → IsStocked w
      → get_or_404 projects k t w.docs ≡ ok d
      → IsOnPlan t.plan d
  get_or_404-stocked k t w d named pays h found =
      let p = is_project_of k (some t.id) in
      let there = get_or_404-found k t w.docs d found in
      let owner = own_tenant k t.id d named (find_first-holds p (projects.docs w.docs) d there) in
      let same_plan : plan_of d.tenant_id ≡ t.plan = ap plan_of owner ∙ sym pays in
      subst (λ plan. IsOnPlan plan d) same_plan
        (All-find_first IsStockedDoc p (projects.docs w.docs) d there h)
