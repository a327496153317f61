-- ===== src/Template.antt =====
-- internal/template/render.go over Go's text/template, whose parser and executor are parameters.
use notifier.Base.{String, List, Option, none, some}
use notifier.Domain.Errors.{Error, wrapped, Result, ok, err}

-- The variables of a template, by name.
abbrev pub Vars : Type 0
Vars = List (String × String)

-- `New("notification").Option("missingkey=error").Parse(body)` and `Execute`.
pub record Engine : Type 1 where
  pub Parsed : Type 0
  pub parse_text : String → Result Parsed
  pub execute : Parsed → Vars → Result String

module _ (engine : Engine) where
  open engine use {Parsed, parse_text, execute}

  abbrev label {ℓ} : {A : Type ℓ} → String → Result A → Result A
  label s (ok a) = ok a
  label s (err e) = err (wrapped s e)

  -- `Validate`
  unfoldable pub validate : String → Option Error
  validate body = elim (parse_text body) [
    | ok p ↦ none
    | err e ↦ some (wrapped "template does not parse" e)
  ]

  unfoldable pub parse : String → Result Parsed
  parse body = label "parse template" (parse_text body)

  unfoldable pub render_parsed : Parsed → Vars → Result String
  render_parsed p vars = label "render template" (execute p vars)

  -- `Render`: parse, then render.
  unfoldable pub render : String → Vars → Result String
  unfolding parse render_parsed
  render body vars = elim (parse body) [ ok p ↦ render_parsed p vars | err e ↦ err e ]
