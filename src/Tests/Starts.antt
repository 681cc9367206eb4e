-- ===== src/Tests/Starts.antt =====
-- The indexes of a start on a small database, after one that was cut off.
use factn_assistant_service.MongoDb.{
  ensure_indexes, tenant_indexes, auth_token_indexes, session_indexes, api_key_indexes,
  project_indexes, all_indexes, clashes, Index, Database,
}
use factn_assistant_service.Base.{
  none, eq_refl, arith, ◌∙◌, true, Option, ◌≡◌, ap, String, Bool, refl, [], ◌∷◌, ◌++◌, some, any_of,
  if◌then◌else◌, false, List,
}
use mathlib.Core.Bool.{false≢true}
use factn_assistant_service.MongoDb.Ensure.{AreBuildable, ensure_indexes_resumes}

any_of-middle :
    {A : Type 0} (p : A → Bool) (before after : List A) (x : A)
    → p x ≡ true
    → any_of p (before ++ x ∷ after) ≡ true
any_of-middle p [] after x hit = rw hit refl
any_of-middle p (y ∷ before) after x hit = ground (arith, any_of-middle p before after x hit)

clashes_self : (ix : Index) → clashes ix ix ≡ true
clashes_self ix = rw (eq_refl ix.collection) (rw (eq_refl ix.name) refl)

-- One that never has duplicates
abbrev database : Database
database = record {
  State = List Index;
  indexes = λ s. s;
  has_duplicates = λ ix s. false;
  create_index = λ ix s. if any_of (clashes ix) s then some s else some (s ++ ix ∷ []);
  create_index-again = λ ix before after s there.
      rw
        (ap (any_of (clashes ix)) there
          ∙ any_of-middle (clashes ix) before after ix (clashes_self ix))
        refl;
  create_index-new = λ ix s fresh good. (s ++ ix ∷ [], rw fresh refl, refl, (λ jx. refl));
  create_index-duplicates = λ ix s fresh bad. absurd (false≢true bad);
}

all_buildable : (ixs : List Index) (s : List Index) → AreBuildable database ixs s
all_buildable [] s = tt
all_buildable (ix ∷ ixs) s = (refl, all_buildable ixs s)

abbrev environ : String → Option String
environ name = none

abbrev rest_indexes : List Index
rest_indexes = project_indexes ++ (api_key_indexes ++ (session_indexes ++ auth_token_indexes))

ensure_indexes_resumes_example :
    ((ensure_indexes database tenant_indexes).0 ≡ true)
    × ((ensure_indexes database tenant_indexes).1 ≡ all_indexes)
unfolding all_indexes
ensure_indexes_resumes_example =
    ensure_indexes_resumes database tenant_indexes rest_indexes tenant_indexes refl refl
      (all_buildable rest_indexes tenant_indexes)
