-- ===== src/Api/Templates.antt =====
-- internal/api/templates.go: the handlers of templates.
pub mod Lifecycle
use notifier.Base.{String, ℕ, List, [], map, Option, none, some, if◌then◌else◌}
use notifier.Domain.Errors.{
  Error, FieldError, as_validation, is_duplicate_template, is_not_found, Result, ok, err,
}
use notifier.Domain.Status.{channel_text}
use notifier.Domain.Status.Text.{channel_of}
use notifier.Domain.Template.{Template}
use notifier.Template.{Engine}
use notifier.World.{World}
use notifier.Service.Templates.{CreateTemplateInput}
use notifier.Service.Templates as Templates
use notifier.Api.Respond.{Response, write_json_response, write_error_response}
use notifier.Api.Notifications.{Decoded, too_large, malformed, decoded, malformed_body}

pub record CreateTemplateRequest : Type 0 where
  pub name : String
  pub channel : String
  pub body : String

pub record TemplateResponse : Type 0 where
  pub name : String
  pub channel : String
  pub body : String
  pub created_at : ℕ
  pub updated_at : ℕ

-- `toTemplateResponse`
unfoldable pub to_template_response : Template → TemplateResponse
to_template_response t = record {
  name = t.name;
  channel = channel_text t.channel;
  body = t.body;
  created_at = t.created_at;
  updated_at = t.updated_at;
}

abbrev pub to_input : CreateTemplateRequest → CreateTemplateInput
to_input p = record { name = p.name; channel = channel_of p.channel; body = p.body }

module _ (quote : String → String) where
  abbrev unvalidated : {A : Type 0} → Error → Option (List FieldError) → Response A
  unvalidated e (some es) = write_error_response quote 400 "validation failed" es
  unvalidated e none =
      if is_duplicate_template e
      then write_error_response quote 409 "template name already exists" []
      else write_error_response quote 500 "internal error" []

  abbrev pub created_template : Result Template → Response TemplateResponse
  created_template (ok t) = write_json_response 201 (to_template_response t)
  created_template (err e) = unvalidated e (as_validation e)

  -- `create`; its body has no limit, so the decoder reports an unreadable one only.
  unfoldable pub create :
      Engine → Option CreateTemplateRequest → World → Response TemplateResponse × World
  create engine none w = (malformed_body quote, w)
  create engine (some p) w =
      let (r, v) = Templates.create engine quote (to_input p) w in (created_template r, v)

  abbrev found_template : Result Template → Response TemplateResponse
  found_template (ok t) = write_json_response 200 (to_template_response t)
  found_template (err e) =
      if is_not_found e
      then write_error_response quote 404 "template not found" []
      else write_error_response quote 500 "internal error" []

  -- `get`
  unfoldable pub get : String → World → Response TemplateResponse × World
  get name w = let (r, v) = Templates.get_by_name name w in (found_template r, v)

  abbrev listed_templates : Result (List Template) → Response (List TemplateResponse)
  listed_templates (ok ts) = write_json_response 200 (map to_template_response ts)
  listed_templates (err e) = write_error_response quote 500 "internal error" []

  -- `list`
  unfoldable pub list : World → Response (List TemplateResponse) × World
  list w = let (r, v) = Templates.list w in (listed_templates r, v)
