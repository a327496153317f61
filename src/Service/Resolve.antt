-- ===== src/Service/Resolve.antt =====
-- internal/service/template.go: the resolver that renders a template reference, with its cache; and
-- `GetTemplateByName` of internal/storage/postgres/template_repository.go.
use notifier.Base.{String, ℕ, Bool, not, List, [], ◌∷◌, Option, none, some, str_eq, if◌then◌else◌}
use notifier.Domain.Status.{Channel, Priority, channel_eq, channel_text}
use notifier.Domain.Errors.{
  Message, text, template_missing, template_channel, not_found, validation, Result, ok, err,
  error_text,
}
use notifier.Domain.Template.{Template}
use notifier.Domain.Validate.{field_error}
use notifier.Template.{Engine, Vars, parse, render_parsed}
use notifier.World.{World, next_turn, arrive, settle}

pub record TemplateRef : Type 0 where
  pub name : String
  pub vars : Vars

pub record CreateInput : Type 0 where
  pub recipient : String
  pub channel : Channel
  pub content : String
  pub template : Option TemplateRef
  pub priority : Priority
  pub scheduled_at : Option ℕ
  pub idempotency_key : Option String

unfoldable pub find_template : String → List Template → Option Template
find_template name [] = none
find_template name (t ∷ ts) = if str_eq t.name name then some t else find_template name ts

abbrev or_missing : Result (Option Template) → Result Template
or_missing (ok (some t)) = ok t
or_missing (ok none) = err not_found
or_missing (err e) = err e

-- The table of templates is read by a query like any other.
unfoldable pub get_template_by_name : String → World → Result Template × World
get_template_by_name name w =
    let v = arrive w in
    let (r, u) =
      settle (next_turn w.turns).fate "select template" (find_template name v.templates) v v in
    (or_missing r, u)

-- Go's map: a key and its value.
unfoldable pub cached {ℓ} : {A : Type ℓ} → String → List (String × A) → Option A
cached name [] = none
cached name ((k, a) ∷ rest) = if str_eq k name then some a else cached name rest

abbrev pub invalid {ℓ} : {A : Type ℓ} → String → Message → Result A
invalid field m = err (validation (field_error field m ∷ []))

module _ (engine : Engine) (quote : String → String) where
  open engine use {Parsed}

  -- `templateResolver`: what was fetched and what was compiled so far.
  pub record Resolver : Type 0 where
    pub templates : List (String × Template)
    pub compiled : List (String × Parsed)

  abbrev pub new_resolver : Resolver
  new_resolver = record { templates = []; compiled = [] }

  abbrev rendered : Result String → Result String
  rendered (ok s) = ok s
  rendered (err e) = invalid "template.vars" (text (error_text quote e))

  -- The template is compiled once, and rendered with the variables of the reference.
  abbrev compile : TemplateRef → Result Parsed → Resolver → Result String × Resolver
  compile ref (err e) rs = (invalid "template.name" (text (error_text quote e)), rs)
  compile ref (ok p) rs = (
    rendered (render_parsed engine p ref.vars),
    record rs { compiled = (ref.name, p) ∷ rs.compiled },
  )

  abbrev use_compiled : TemplateRef → Option Parsed → Template → Resolver → Result String × Resolver
  use_compiled ref (some p) t rs = (rendered (render_parsed engine p ref.vars), rs)
  use_compiled ref none t rs = compile ref (parse engine t.body) rs

  unfoldable pub use_template :
      TemplateRef → Channel → Template → Resolver → Result String × Resolver
  use_template ref channel t rs =
      if channel_eq t.channel channel
      then use_compiled ref (cached ref.name rs.compiled) t rs
      else (
        invalid "template.name"
            (template_channel ref.name (channel_text t.channel) (channel_text channel)),
        rs,
      )

  unfoldable pub use_loaded :
      TemplateRef → Channel → Resolver → Result Template → World → Result String × Resolver × World
  use_loaded ref channel rs (err e) w = (invalid "template.name" (template_missing ref.name), rs, w)
  use_loaded ref channel rs (ok t) w =
      let (r, next) =
        use_template ref channel t (record rs { templates = (ref.name, t) ∷ rs.templates }) in
      (r, next, w)

  unfoldable pub use_known :
      TemplateRef → Channel → Resolver → Option Template → World → Result String × Resolver × World
  use_known ref channel rs (some t) w =
      let (r, next) = use_template ref channel t rs in (r, next, w)
  use_known ref channel rs none w =
      let (r, v) = get_template_by_name ref.name w in use_loaded ref channel rs r v

  -- `render`
  unfoldable pub resolve_template :
      TemplateRef → Channel → Resolver → World → Result String × Resolver × World
  resolve_template ref channel rs w = use_known ref channel rs (cached ref.name rs.templates) w

  -- `resolveContent`: exactly one of content and template, and a template only with a repository.
  unfoldable pub resolve_with :
      Bool → CreateInput → Option TemplateRef → Resolver → World → Result String × Resolver × World
  resolve_with has_templates input none rs w = (ok input.content, rs, w)
  resolve_with has_templates input (some ref) rs w =
      if not (str_eq input.content "")
      then (invalid "content" (text "provide either content or template, not both"), rs, w)
      else if has_templates
      then resolve_template ref input.channel rs w
      else (invalid "template" (text "templates are not available"), rs, w)

  unfoldable pub resolve_content :
      Bool → CreateInput → Resolver → World → Result String × Resolver × World
  unfolding resolve_with
  resolve_content has_templates input rs w = resolve_with has_templates input input.template rs w
