-- ===== src/AccountApi/Registered.antt =====
-- Whoever has registered at api/auth.py can log in, and is let in by the access token.
use factn_assistant_service.Tenants.Newest.{
  get_tenant-id, get_by_email-IsNewest, create_tenant-taken, update_password_hash-IsNewest,
  create_tenant-new, get_tenant-IsNewest, IsNewest,
}
use factn_assistant_service.Base.{
  ◌∙◌, ap, sym, ◌/◌, ok_ne_err, false, Option-cases, str_eq, inl, none, inr, refl, find_first,
  Bool-cases, true, some, ok, ◌≡◌, Option, ℕ, String, List,
}
use factn_assistant_service.Projects.{microseconds, is_tenant, get_tenant}
use factn_assistant_service.AccessTokens.{
  subject, is_access, access_claims, create_access_token, decode_access_token, request_token,
  get_current_tenant, active_tenant,
}
use factn_assistant_service.Texts.{strip}
use factn_assistant_service.SessionEvents.{non_empty}
use factn_assistant_service.Schemas.{AuthTokenDoc, TenantDoc}
use factn_assistant_service.Services.{Collection, Redis}
use mathlib.Core.Path.{subst}
use factn_assistant_service.AccountApi.{
  Libraries, Accounts, SignedIn, register, login, sign_in, signed_in, check_credentials,
  check_login_rate_limit, upgrade_hash,
}
use factn_assistant_service.AuthTokens.{Fresh, create}
use factn_assistant_service.Tenants.{
  new_tenant, has_email, set_password_hash, update_password_hash, get_by_email,
}

module _ (lib : Libraries) {V : Type 0} (redis : Redis V) (tenants : Collection TenantDoc)
    (tokens : Collection AuthTokenDoc) where
  -- The document that a registration leaves
  unfoldable pub registered : String → String → String → String → ℕ → TenantDoc
  registered name email password new_id now =
      set_password_hash (lib.hash_password password) now
        (new_tenant new_id (strip name) (strip (lib.lower (lib.lower email))) now)

  register-IsNewest :
      (name email password new_id : String) (fresh : Fresh) (now : ℕ)
      (w : Accounts lib redis tenants tokens) (a : SignedIn)
      → (register lib redis tenants tokens name email password new_id fresh now w).0 ≡ ok a
      → find_first (is_tenant new_id) (tenants.docs w.tenant_docs) ≡ none
      → IsNewest tenants
          (tenants.docs w.tenant_docs)
          (registered name email password new_id now)
          (register lib redis tenants tokens name email password new_id fresh now w).1.tenant_docs
        × (find_first (has_email (strip (lib.lower (lib.lower email)))) (tenants.docs w.tenant_docs)
            ≡ none)
  unfolding register sign_in registered new_tenant
  register-IsNewest name email password new_id fresh now w a done new =
      let key = strip (lib.lower (lib.lower email)) in
      let doc = new_tenant new_id (strip name) key now in
      let docs = tenants.docs w.tenant_docs in
      let made =
        create_tenant-new tenants lib.lower (strip name) (lib.lower email) new_id now
          w.tenant_docs in
      elim (Option-cases (tenants.find_one (has_email key) w.tenant_docs)) [
        | inr (taken, hit) ↦ absurd (
            ok_ne_err a 409 (
              sym (
                rw
                  (
                    create_tenant-taken tenants lib.lower (strip name) (lib.lower email) new_id now
                        w.tenant_docs taken hit,
                    register,
                  )
                  at done)))
        | inl free ↦ (
          rw (made free, register)
              (rw (made free) (
                update_password_hash-IsNewest tenants docs doc
                  (tenants.insert_one doc w.tenant_docs) (lib.hash_password password) now
                  (tenants.docs-insert_one doc w.tenant_docs, new))),
          sym (tenants.find_one_lem (has_email key) w.tenant_docs) ∙ free,
        )
      ]

  upgrade_hash-IsNewest :
      (ds : List TenantDoc) (d : TenantDoc) (password : String) (now : ℕ) (s : tenants.State)
      → IsNewest tenants ds d s
      → (e : TenantDoc) × (get_tenant tenants d.id
            (upgrade_hash lib redis tenants tokens d password now s)
          ≡ some e)
        × (e.is_active ≡ d.is_active)
        × (e.email ≡ d.email)
  unfolding upgrade_hash set_password_hash
  upgrade_hash-IsNewest ds d password now s newest =
      elim (Bool-cases (lib.needs_rehash d.password_hash)) [
        | inr current ↦
            (d, rw (current, upgrade_hash) (get_tenant-IsNewest tenants ds d s newest), refl, refl)
        | inl old ↦
            let new = set_password_hash (lib.hash_password password) now d in
            (
              new,
              rw (old, upgrade_hash)
                  (get_tenant-IsNewest tenants ds new
                    (update_password_hash tenants d.id (lib.hash_password password) now s).1
                    (update_password_hash-IsNewest tenants ds d s (lib.hash_password password) now
                      newest)),
              refl,
              refl,
            )
      ]

  -- A login by the email and the password of an active tenant that the rate limit lets through
  login-found :
      (client_ip email password : String) (fresh : Fresh) (now : ℕ)
      (w : Accounts lib redis tenants tokens) (d : TenantDoc)
      → (check_login_rate_limit lib redis tenants tokens client_ip now w.store).0 ≡ true
      → get_by_email tenants lib.lower email w.tenant_docs ≡ some d
      → d.is_active ≡ true
      → lib.verify_password password d.password_hash ≡ true
      → let after = login lib redis tenants tokens client_ip email password fresh now w in
        (after.0 ≡ ok (signed_in lib d fresh.raw_token now))
        × (after.1.tenant_docs ≡ upgrade_hash lib redis tenants tokens d password now w.tenant_docs)
  unfolding login check_credentials sign_in create active_tenant
  login-found client_ip email password fresh now w d allowed found active right =
      let checked : check_credentials lib redis tenants tokens email password (record w {
        store = (check_login_rate_limit lib redis tenants tokens client_ip now w.store).1;
      })
          ≡ ok d =
        rw (found, check_credentials) (rw (active, active_tenant) (rw right refl)) in
      (
        rw (allowed, login) (rw (checked, login) refl),
        rw (allowed, login) (rw (checked, login) refl),
      )

  access_token-get_current_tenant :
      (d e : TenantDoc) (raw : String) (cookie : Option String) (now later : ℕ) (s : tenants.State)
      → let access_token = (signed_in lib d raw now).access_token in
        str_eq access_token "" ≡ false
        → lib.jwt.decode (later / microseconds) access_token
          ≡ some (access_claims d.id d.email d.plan now)
        → get_tenant tenants d.id s ≡ some e
        → e.is_active ≡ true
        → get_current_tenant lib.jwt tenants (some access_token) cookie later s ≡ ok e
  unfolding get_current_tenant request_token non_empty decode_access_token signed_in
      create_access_token access_claims is_access subject active_tenant
  access_token-get_current_tenant d e raw cookie now later s given decoded found active =
      rw (given, non_empty, request_token, get_current_tenant)
        (rw (decoded, decode_access_token, get_current_tenant)
          (rw (found, get_current_tenant) (rw (active, active_tenant) refl)))

  -- Who has registered, with an id that no tenant had, logs in with that email and password before
  -- anything else happens to the tenants, where the login rate limit lets the request through, the password
  -- hasher verifies the hash that it made and lower case is stable: the answer is of the tenant that
  -- registered. Where the library's text for the claims of that tenant is not empty and decodes to them at
  -- some later time, a request with the access token is then made by that tenant.
  pub register-login :
      (name email password new_id : String) (fresh : Fresh) (now : ℕ)
      (w : Accounts lib redis tenants tokens) (a : SignedIn) (client_ip : String)
      (next_fresh : Fresh) (cookie : Option String) (then_now later : ℕ)
      → (register lib redis tenants tokens name email password new_id fresh now w).0 ≡ ok a
      → find_first (is_tenant new_id) (tenants.docs w.tenant_docs) ≡ none
      → lib.verify_password password (lib.hash_password password) ≡ true
      → lib.lower (lib.lower email) ≡ lib.lower email
      → let w' = (register lib redis tenants tokens name email password new_id fresh now w).1 in
        (check_login_rate_limit lib redis tenants tokens client_ip then_now w'.store).0 ≡ true
        → let claims = access_claims new_id (strip (lib.lower email)) "free" then_now in
          str_eq (lib.jwt.encode claims) "" ≡ false
          → lib.jwt.decode (later / microseconds) (lib.jwt.encode claims) ≡ some claims
          → let after =
              login lib redis tenants tokens client_ip email password next_fresh then_now w' in
            (b : SignedIn) × (after.0 ≡ ok b)
            × (b.tenant_id ≡ new_id)
            × (b.refresh_token ≡ next_fresh.raw_token)
            × (t : TenantDoc) × (t.id ≡ new_id)
            × (t.email ≡ strip (lib.lower email))
            × (get_current_tenant lib.jwt tenants
                  (some b.access_token)
                  cookie
                  later
                  after.1.tenant_docs
                ≡ ok t)
  unfolding registered new_tenant set_password_hash signed_in create_access_token
  register-login name email password new_id fresh now w a client_ip next_fresh cookie then_now later
        done new right stable allowed given decoded =
      let w' = (register lib redis tenants tokens name email password new_id fresh now w).1 in
      let d = registered name email password new_id now in
      let docs = tenants.docs w.tenant_docs in
      let (newest, unused) = register-IsNewest name email password new_id fresh now w a done new in
      let key_same : strip (lib.lower (lib.lower email)) ≡ strip (lib.lower email) =
        ap strip stable in
      let found : get_by_email tenants lib.lower email w'.tenant_docs ≡ some d =
        get_by_email-IsNewest tenants lib.lower email docs d w'.tenant_docs newest.0
          (subst (λ k. find_first (has_email k) docs ≡ none) key_same unused) key_same in
      let (answered, kept) =
        login-found client_ip email password next_fresh then_now w' d allowed found refl right in
      let (e, there, active, same_email) =
        upgrade_hash-IsNewest docs d password then_now w'.tenant_docs newest in
      let s =
        (login lib redis tenants tokens client_ip email password next_fresh then_now
          w').1.tenant_docs in
      let by_id : get_tenant tenants new_id s ≡ some e =
        ap (get_tenant tenants new_id) kept ∙ there in
      let IsGood : String → Type 0 = λ m.
        let c = access_claims new_id m "free" then_now in
        (str_eq (lib.jwt.encode c) "" ≡ false)
        × (lib.jwt.decode (later / microseconds) (lib.jwt.encode c) ≡ some c) in
      let good : IsGood d.email = subst IsGood (sym key_same) (given, decoded) in
      (
        signed_in lib d next_fresh.raw_token then_now,
        answered,
        refl,
        refl,
        e,
        get_tenant-id tenants new_id s e by_id,
        same_email ∙ key_same,
        access_token-get_current_tenant d e next_fresh.raw_token cookie then_now later s good.0
            good.1 by_id active,
      )
