-- ===== src/AppEntry/Lifespan.antt =====
-- When a start of main.py does not go through.
use factn_assistant_service.Base.{refl, none, true, ◌∷◌, ◌++◌, ◌≡◌, List, Option, String}
use factn_assistant_service.AppEntry.{startup}
use factn_assistant_service.MongoDb.Ensure.{ensure_indexes_duplicates}
use factn_assistant_service.MongoDb.{all_indexes, Index, Database}

module _ (database : Database) where
  -- Where documents share the key of the first unique index that is still to be built, the application
  -- does not start, and each later start fails in the same way.
  pub startup_refused :
      (environ : String → Option String) (pre post : List Index) (ix : Index) (s : database.State)
      → all_indexes ≡ pre ++ ix ∷ post
      → database.indexes s ≡ pre
      → database.has_duplicates ix s ≡ true
      → startup database environ s ≡ (none, s)
  unfolding startup
  startup_refused environ pre post ix s split there taken =
      rw (ensure_indexes_duplicates database pre post ix s split there taken, startup) refl
