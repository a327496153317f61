-- ===== src/Domain/Template.antt =====
-- internal/domain/template.go: a stored message body and the checks on its shape.
use notifier.Base.{String, ℕ, not, ◌++◌, Option, str_eq}
use notifier.Domain.Status.{Channel, channel_valid}
use notifier.Domain.Errors.{text, Error}
use notifier.Domain.Validate.{field_error, unless, to_error}
use notifier.Domain.Regexp.{template_name_pattern, match_string}

pub record Template : Type 0 where
  pub id : ℕ
  pub name : String
  pub channel : Channel
  pub body : String
  pub created_at : ℕ
  pub updated_at : ℕ

unfoldable pub validate_new_template : Template → Option Error
validate_new_template t = to_error (
    unless (match_string template_name_pattern t.name) (
      field_error "name"
        (text "must be 2-64 chars of lowercase letters, digits, hyphen or underscore"))
    ++ (unless (channel_valid t.channel) (field_error "channel" (text "unknown channel"))
        ++ unless (not (str_eq t.body "")) (field_error "body" (text "required"))))
