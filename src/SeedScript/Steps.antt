-- ===== src/SeedScript/Steps.antt =====
-- The two parts of scripts/seed.py that look before they make something.
use factn_assistant_service.Base.{
  count_if-append, eq_refl, ◌∙◌, ap, sym, suc, inl, ◌⊎◌, min, inr, Option-cases, some, none, refl,
  find_first, ℕ, [], arith, String, ◌∷◌, count_if, ◌≡◌, length, ◌<◌, List,
}
use mathlib.Core.Path.{subst}
use mathlib.Core.Option.{some-injective}
use factn_assistant_service.Texts.{strip}
use factn_assistant_service.Projects.{is_tenant}
use factn_assistant_service.Schemas.{ApiKeyDoc, ProjectDoc, TenantDoc}
use factn_assistant_service.Services.{Collection, Redis}
use factn_assistant_service.Projects.Store.{
  Stores, list_for_tenant, is_project_of_tenant, new_project_doc,
}
use factn_assistant_service.Tenants.{
  get_by_email, update_password_hash, new_tenant, has_email, set_password_hash,
}
use factn_assistant_service.Tenants.Newest.{
  create_tenant-new, update_password_hash-IsNewest, get_by_email-IsNewest,
}
use factn_assistant_service.SeedScript.{
  seed_tenant, seed_project, seed_email, seed_name, seed_password, demo_project,
}
use factn_assistant_service.Projects.Store as Store

List-cases : {A : Type 0} (xs : List A) → (xs ≡ []) ⊎ ((x : A) × (rest : List A) × (xs ≡ x ∷ rest))
List-cases [] = inl refl
List-cases (x ∷ xs) = inr (x, xs, refl)

module _ {V : Type 0} (redis : Redis V) (tenants : Collection TenantDoc)
    (projects : Collection ProjectDoc) (keys : Collection ApiKeyDoc) (lower : String → String)
    (hash_password hash_key : String → String) where
  seed_tenant-found :
      (new_id : String) (now : ℕ) (s : tenants.State) (t : TenantDoc)
      → get_by_email tenants lower seed_email s ≡ some t
      → seed_tenant redis tenants projects keys lower hash_password hash_key new_id now s
        ≡ (some t, s)
  unfolding seed_tenant
  seed_tenant-found new_id now s t found = rw (found, seed_tenant) refl

  seed_tenant-new :
      (new_id : String) (now : ℕ) (s : tenants.State)
      → get_by_email tenants lower seed_email s ≡ none
      → let doc = new_tenant new_id seed_name (strip (lower seed_email)) now in
        seed_tenant redis tenants projects keys lower hash_password hash_key new_id now s ≡ (
          some doc,
          (update_password_hash tenants new_id
              (hash_password seed_password)
              now
              (tenants.insert_one doc s)).1,
        )
  unfolding seed_tenant get_by_email new_tenant
  seed_tenant-new new_id now s missing =
      let made = create_tenant-new tenants lower seed_name seed_email new_id now s missing in
      rw (missing, seed_tenant) (rw (made, seed_tenant) (rw made refl))

  -- A run finds the tenant that one before it has used.
  pub seed_tenant-again :
      (new_id next_id : String) (now later : ℕ) (s s' : tenants.State) (t : TenantDoc)
      → find_first (is_tenant new_id) (tenants.docs s) ≡ none
      → seed_tenant redis tenants projects keys lower hash_password hash_key new_id now s
        ≡ (some t, s')
      → (t' : TenantDoc) × (t'.id ≡ t.id)
        × (seed_tenant redis tenants projects keys lower hash_password hash_key next_id later s'
            ≡ (some t', s'))
  unfolding new_tenant set_password_hash get_by_email
  seed_tenant-again new_id next_id now later s s' t fresh seeded =
      elim (Option-cases (get_by_email tenants lower seed_email s)) [
        | inr (old, found) ↦
            let same = sym (seed_tenant-found new_id now s old found) ∙ seeded in
            let is_t : old ≡ t = some-injective old t (ap (λ r. r.0) same) in
            (
              old,
              ap (λ x. x.id) is_t,
              seed_tenant-found next_id later s' old (
                  subst (λ x. get_by_email tenants lower seed_email x ≡ some old)
                    (ap (λ r. r.1) same) found),
            )
        | inl missing ↦
            let doc = new_tenant new_id seed_name (strip (lower seed_email)) now in
            let after = set_password_hash (hash_password seed_password) now doc in
            let made = tenants.insert_one doc s in
            let left =
              (update_password_hash tenants new_id (hash_password seed_password) now made).1 in
            let same = sym (seed_tenant-new new_id now s missing) ∙ seeded in
            let newest =
              update_password_hash-IsNewest tenants (tenants.docs s) doc made
                (hash_password seed_password) now (tenants.docs-insert_one doc s, fresh) in
            let unused : find_first (has_email (strip (lower seed_email))) (tenants.docs s) ≡ none =
              sym (tenants.find_one_lem (has_email (strip (lower seed_email))) s) ∙ missing in
            let found : get_by_email tenants lower seed_email left ≡ some after =
              get_by_email-IsNewest tenants lower seed_email (tenants.docs s) after left newest.0
                unused refl in
            (
              after,
              ap (λ x. x.id) (some-injective doc t (ap (λ r. r.0) same)),
              seed_tenant-found next_id later s' after (
                  subst (λ x. get_by_email tenants lower seed_email x ≡ some after)
                    (ap (λ r. r.1) same) found),
            )
      ]

  seed_project-there :
      (tenant_id new_id : String) (now : ℕ) (w : Stores redis projects) (p : ProjectDoc)
      (rest : List ProjectDoc)
      → list_for_tenant redis projects tenant_id 1 0 w ≡ p ∷ rest
      → seed_project redis tenants projects keys lower hash_password hash_key tenant_id new_id now w
        ≡ (p, w)
  unfolding seed_project
  seed_project-there tenant_id new_id now w p rest are = rw (are, seed_project) refl

  seed_project-new :
      (tenant_id new_id : String) (now : ℕ) (w : Stores redis projects)
      → list_for_tenant redis projects tenant_id 1 0 w ≡ []
      → seed_project redis tenants projects keys lower hash_password hash_key tenant_id new_id now w
        ≡ Store.create redis projects new_id tenant_id demo_project now w
  unfolding seed_project
  seed_project-new tenant_id new_id now w nothing = rw (nothing, seed_project) refl

  listed_count :
      (tenant_id : String) (w : Stores redis projects)
      → length (list_for_tenant redis projects tenant_id 1 0 w)
        ≡ min 1 (count_if (is_project_of_tenant tenant_id) (projects.docs w.docs))
  unfolding list_for_tenant
  listed_count tenant_id w =
      let q = is_project_of_tenant tenant_id in
      omega (arith, projects.length-find_page q (λ d. d.created_at) 0 1 w.docs)

  created_counts :
      (tenant_id new_id : String) (now : ℕ) (w : Stores redis projects)
      → 0
        < count_if
            (is_project_of_tenant tenant_id)
            (projects.docs (Store.create redis projects new_id tenant_id demo_project now w).1.docs)
  unfolding Store.create new_project_doc is_project_of_tenant
  created_counts tenant_id new_id now w =
      let doc = new_project_doc new_id tenant_id demo_project now in
      let q = is_project_of_tenant tenant_id in
      let one : count_if q (doc ∷ []) ≡ 1 = rw (eq_refl tenant_id) refl in
      rw (projects.docs-insert_one doc w.docs)
        (omega (arith, one, count_if-append q (projects.docs w.docs) (doc ∷ [])))

  -- A tenant that has a project gets no other.
  pub seed_project-kept :
      (tenant_id new_id : String) (now : ℕ) (w : Stores redis projects)
      → 0 < count_if (is_project_of_tenant tenant_id) (projects.docs w.docs)
      → (p : ProjectDoc) × (seed_project redis tenants projects keys lower hash_password hash_key
            tenant_id new_id now w
          ≡ (p, w))
  seed_project-kept tenant_id new_id now w there =
      elim (List-cases (list_for_tenant redis projects tenant_id 1 0 w)) [
        | inr (p, rest, are) ↦ (p, seed_project-there tenant_id new_id now w p rest are)
        | inl nothing ↦
            let none_listed : length (list_for_tenant redis projects tenant_id 1 0 w) ≡ 0 =
              ap (λ (l : List ProjectDoc). length l) nothing in
            absurd (omega (arith, there, none_listed, listed_count tenant_id w))
      ]

  pub seed_project-leaves :
      (tenant_id new_id : String) (now : ℕ) (w : Stores redis projects)
      → let w' =
          (seed_project redis tenants projects keys lower hash_password hash_key tenant_id new_id
            now w).1 in
        0 < count_if (is_project_of_tenant tenant_id) (projects.docs w'.docs)
  seed_project-leaves tenant_id new_id now w =
      let q = is_project_of_tenant tenant_id in
      elim (List-cases (list_for_tenant redis projects tenant_id 1 0 w)) [
        | inr (p, rest, are) ↦
            let one_listed : length (list_for_tenant redis projects tenant_id 1 0 w)
                ≡ suc (length rest) =
              ap (λ (l : List ProjectDoc). length l) are in
            rw (seed_project-there tenant_id new_id now w p rest are)
              (omega (arith, one_listed, listed_count tenant_id w))
        | inl nothing ↦
            rw (seed_project-new tenant_id new_id now w nothing)
              (created_counts tenant_id new_id now w)
      ]
