-- ===== src/GeminiRunner/Declared.antt =====
-- The tools that core/gemini_runner.py declares to Gemini, and those that core/tool_executor.py runs.
use factn_assistant_service.Base.{
  ◌⊎◌, eq_iff, inr, inl, Bool-cases, ◌∙◌, ◌||◌, sym, ℕ, true, refl, ◌∷◌, some, [], str_eq, map,
  false, ◌≡◌, none, any_of, List, Bool, String,
}
use mathlib.Core.Bool.{false≢true}
use factn_assistant_service.Schemas.{ProjectConfig}
use factn_assistant_service.ToolExecutor.Defs.{
  ToolDefinition, PostResult, execute, run_tool, tool_named, unknown_tool, error,
}
use factn_assistant_service.GeminiRunner.Config.{
  LiveConnectConfig, FunctionDeclaration, build_gemini_config, declare_tool, declared_tools,
}

abbrev pub declares : String → List FunctionDeclaration → Bool
declares name ds = any_of (λ d. str_eq d.name name) ds

-- Gemini is told of a function of the name.
unfoldable pub is_declared : String → LiveConnectConfig → Bool
is_declared name config = elim config.tools [ none ↦ false | some ds ↦ declares name ds ]

is_declared-declared_tools :
    (name : String) (ds : List FunctionDeclaration)
    → (elim (declared_tools ds) [ none ↦ false | some es ↦ declares name es ]) ≡ declares name ds
unfolding declared_tools
is_declared-declared_tools name [] = refl
is_declared-declared_tools name (d ∷ ds) = refl

-- The executor's table of tools has every name that is declared, with a tool of that name, and no other.
tool_named-declares :
    (name : String) (ts : List ToolDefinition)
    → (declares name (map declare_tool ts) ≡ true
        → (t : ToolDefinition) × (t.name ≡ name) × (tool_named name ts ≡ some t))
      × (declares name (map declare_tool ts) ≡ false → tool_named name ts ≡ none)
unfolding tool_named declare_tool
tool_named-declares name [] = ((λ e. absurd (false≢true e)), (λ _. refl))
tool_named-declares name (t ∷ ts) =
    let (there, gone) = tool_named-declares name ts in
    elim (Bool-cases (declares name (map declare_tool ts))) [
      | inl later ↦
          let (u, named, found) = there later in
          (
            (λ _. (u, named, rw (found, tool_named) refl)),
            (λ e. absurd (false≢true (sym e ∙ rw later (or_true (str_eq t.name name))))),
          )
      | inr none_later ↦ elim (Bool-cases (str_eq t.name name)) [
        | inl here ↦ (
          (λ _. (t, (eq_iff t.name name).0 here, rw (gone none_later, tool_named) (rw here refl))),
          (λ e. absurd (false≢true (sym e ∙ rw here refl))),
        )
        | inr differs ↦ (
          (λ e. absurd (false≢true (sym (rw differs (rw none_later refl)) ∙ e))),
          (λ _. rw (gone none_later, tool_named) (rw differs refl)),
        )
      ]
    ]
  where
    or_true : (b : Bool) → (b || true) ≡ true
    or_true true = refl
    or_true false = refl

-- Either the configuration declares a function of the name, and a call of it runs the tool of the project
-- that has this name; or it does not, and a call of it is answered with an error that names it and posts
-- nothing.
pub execute-is_declared :
    (project : ProjectConfig) (name : String) (server : ℕ → PostResult)
    → ((is_declared name (build_gemini_config project) ≡ true)
        × (t : ToolDefinition) × (t.name ≡ name)
        × (execute project.tools name server ≡ run_tool t server t.execution_mode))
      ⊎ ((is_declared name (build_gemini_config project) ≡ false)
          × (execute project.tools name server
              ≡ record { reply = error (unknown_tool name); actions = [] }))
unfolding is_declared build_gemini_config execute
execute-is_declared project name server =
    let same = is_declared-declared_tools name (map declare_tool project.tools) in
    let (there, gone) = tool_named-declares name project.tools in
    elim (Bool-cases (declares name (map declare_tool project.tools))) [
      | inl yes_declared ↦
          let (t, named, found) = there yes_declared in
          inl (same ∙ yes_declared, t, named, rw (found, execute) refl)
      | inr not_declared ↦ inr (same ∙ not_declared, rw (gone not_declared, execute) refl)
    ]
