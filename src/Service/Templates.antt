-- ===== src/Service/Templates.antt =====
-- `TemplateService` of internal/service/template.go: creating, reading and listing templates.
use notifier.Base.{String, ℕ, List, [], ◌∷◌, Option, none, some}
use notifier.Domain.Errors.{Error, validation, text, error_text, wrapped, Result, ok, err}
use notifier.Domain.Status.{Channel}
use notifier.Domain.Template.{Template, validate_new_template}
use notifier.Domain.Validate.{field_error}
use notifier.Template.{Engine, validate}
use notifier.Storage.Repository.{Outcome}
use notifier.Storage.Templates.{create_template, list_templates}
use notifier.World.{World}
use notifier.Service.Create.{minted}
use notifier.Service.Resolve.{get_template_by_name}

pub record CreateTemplateInput : Type 0 where
  pub name : String
  pub channel : Channel
  pub body : String

abbrev pub new_template : ℕ → ℕ → CreateTemplateInput → Template
new_template id now input = record {
  id = id;
  name = input.name;
  channel = input.channel;
  body = input.body;
  created_at = now;
  updated_at = now;
}

abbrev stored_template : Template → Outcome → Result Template
stored_template t none = ok t
stored_template t (some e) = err e

unfoldable pub after_parse :
    (String → String) → Template → Option Error → World → Result Template × World
after_parse quote t (some e) w =
    (err (validation (field_error "body" (text (error_text quote e)) ∷ [])), w)
after_parse quote t none w = let (e, v) = create_template t w in (stored_template t e, v)

unfoldable pub after_shape :
    Engine → (String → String) → Template → Option Error → World → Result Template × World
after_shape engine quote t (some e) w = (err e, w)
after_shape engine quote t none w = after_parse quote t (validate engine t.body) w

-- `Create`: an identifier is drawn before the checks.
unfoldable pub create :
    Engine → (String → String) → CreateTemplateInput → World → Result Template × World
create engine quote input w =
    let t = new_template w.next_id w.now input in
    after_shape engine quote t (validate_new_template t) (minted w)

abbrev labelled {ℓ} : {A : Type ℓ} → String → Result A → Result A
labelled label (ok a) = ok a
labelled label (err e) = err (wrapped label e)

-- `GetByName`
unfoldable pub get_by_name : String → World → Result Template × World
get_by_name name w = let (r, v) = get_template_by_name name w in (labelled "get template" r, v)

-- `List`
unfoldable pub list : World → Result (List Template) × World
list w = let (r, v) = list_templates w in (labelled "list templates" r, v)
