-- ===== src/Domain/Validate.antt =====
-- internal/domain/validate.go: the checks on a notification that is about to be created.
pub mod Laws
use Prim.Native.String.{len, count}
use notifier.Base.{
  String, ℕ, ◌*◌, Bool, true, false, not, ◌&&◌, List, [], ◌∷◌, ◌++◌, Option, none, some, ltb,
  if◌then◌else◌, str_eq,
}
use notifier.Domain.Status.{
  Channel, sms, email, push, other_channel, Priority, other_priority, channel_valid, priority_valid,
  channel_text, priority_text,
}
use notifier.Domain.Errors.{FieldError, Message, text, unknown, Error, validation, Result, ok, err}
use notifier.Domain.Notification.{Notification}
use notifier.Domain.Regexp.{e164_pattern, email_pattern, match_string}

abbrev pub sms_max_runes : ℕ
sms_max_runes = 160

abbrev pub push_max_bytes : ℕ
push_max_bytes = 512

abbrev pub email_max_bytes : ℕ
email_max_bytes = 100 * 1024

abbrev pub field_error : String → Message → FieldError
field_error f m = record { field = f; message = m }

-- A list of one error, under a test.
abbrev pub unless : Bool → FieldError → List FieldError
unless b e = if b then [] else e ∷ []

-- `regexp.MatchString` of the two patterns.
unfoldable pub is_e164 : String → Bool
is_e164 s = match_string e164_pattern s

unfoldable pub is_email : String → Bool
is_email s = match_string email_pattern s

abbrev recipient_errors : Channel → String → List FieldError
recipient_errors sms r =
    unless (is_e164 r)
      (field_error "recipient" (text "must be an E.164 phone number, e.g. +905551234567"))
recipient_errors email r =
    unless (is_email r) (field_error "recipient" (text "must be an email address"))
recipient_errors push r = []
recipient_errors (other_channel c) r = []

unfoldable pub validate_recipient : Channel → String → List FieldError
validate_recipient c r =
    if str_eq r "" then field_error "recipient" (text "required") ∷ [] else recipient_errors c r

abbrev content_errors : Channel → String → List FieldError
content_errors sms s =
    unless (not (ltb sms_max_runes (count s)))
      (field_error "content" (text "sms content exceeds 160 characters"))
content_errors push s =
    unless (not (ltb push_max_bytes (len s)))
      (field_error "content" (text "push content exceeds 512 bytes"))
content_errors email s =
    unless (not (ltb email_max_bytes (len s)))
      (field_error "content" (text "email content exceeds 102400 bytes"))
content_errors (other_channel c) s = []

unfoldable pub validate_content : Channel → String → List FieldError
validate_content c s =
    if str_eq s "" then field_error "content" (text "required") ∷ [] else content_errors c s

-- `ScheduledAt != nil && !ScheduledAt.After(now)`
abbrev pub is_overdue : Option ℕ → ℕ → Bool
is_overdue none now = false
is_overdue (some t) now = not (ltb now t)

-- A list of errors as Go's `error`: the empty one is nil.
abbrev pub to_error : List FieldError → Option Error
to_error [] = none
to_error (e ∷ es) = some (validation (e ∷ es))

unfoldable pub new_errors : Notification → ℕ → List FieldError
new_errors n now =
    unless (channel_valid n.channel)
      (field_error "channel" (unknown "channel" (channel_text n.channel)))
    ++ (unless (priority_valid n.priority)
          (field_error "priority" (unknown "priority" (priority_text n.priority)))
        ++ (validate_recipient n.channel n.recipient
            ++ (validate_content n.channel n.content
                ++ unless (not (is_overdue n.scheduled_at now))
                    (field_error "scheduled_at" (text "must be in the future")))))

unfoldable pub validate_new : Notification → ℕ → Option Error
unfolding new_errors
validate_new n now = to_error (new_errors n now)
