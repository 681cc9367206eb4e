-- ===== src/RedisClient/Keys.antt =====
-- Distinct names under one prefix are distinct keys.
use text.Mathlib.TextLemmas.{append_cancel_left}
use factn_assistant_service.Base.{
  ◌∙◌, sym, inr, eq_refl, eq_iff, inl, Bool-cases, ◌≡◌, str_append, str_eq, String,
}
use mathlib.Core.Bool.{false≢true}
use factn_assistant_service.RedisClient.{project_key}

pub append-eq :
    (prefix a b : String) → str_eq (str_append prefix a) (str_append prefix b) ≡ str_eq a b
append-eq prefix a b = elim (Bool-cases (str_eq a b)) [
  | inl same ↦ rw ((eq_iff a b).0 same, eq_refl, eq_refl)
  | inr other ↦ elim (Bool-cases (str_eq (str_append prefix a) (str_append prefix b))) [
    | inl collide ↦ absurd (
        false≢true
          (sym other ∙ (eq_iff a b).1 (append_cancel_left prefix a b ((eq_iff _ _).0 collide))))
    | inr apart ↦ apart ∙ sym other
  ]
]

pub project_key-eq : (a b : String) → str_eq (project_key a) (project_key b) ≡ str_eq a b
unfolding project_key
project_key-eq a b = append-eq "project_config:" a b
