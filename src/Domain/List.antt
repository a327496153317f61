-- ===== src/Domain/List.antt =====
-- internal/domain/list.go: the filters of a listing, a text that is "" or a missing pointer for none.
use notifier.Base.{ℕ, ℤ, Bool, true, false, not, ◌&&◌, List, ◌++◌, Option, some, ltb, str_eq}
use notifier.Domain.Status.{
  Channel, other_channel, Status, other_status, channel_valid, status_valid, channel_text,
  status_text,
}
use notifier.Domain.Errors.{FieldError, text, unknown, Error}
use notifier.Domain.Validate.{field_error, unless, to_error}

pub record ListQuery : Type 0 where
  pub status : Status
  pub channel : Channel
  pub batch_id : Option ℕ
  pub from : Option ℕ
  pub to : Option ℕ
  pub limit : ℤ
  pub cursor_created_at : Option ℕ
  pub cursor_id : Option ℕ

-- `query.Status != ""` and `query.Channel != ""`
abbrev pub has_status_filter : Status → Bool
has_status_filter (other_status s) = not (str_eq s "")
has_status_filter _ = true

abbrev pub has_channel_filter : Channel → Bool
has_channel_filter (other_channel s) = not (str_eq s "")
has_channel_filter _ = true

-- `To.Before(From)`, where both are given.
abbrev pub is_reversed : Option ℕ → Option ℕ → Bool
is_reversed (some from) (some to) = ltb to from
is_reversed _ _ = false

unfoldable pub list_errors : ListQuery → List FieldError
list_errors q =
    unless (not (has_status_filter q.status && not (status_valid q.status)))
      (field_error "status" (unknown "status" (status_text q.status)))
    ++ (unless (not (has_channel_filter q.channel && not (channel_valid q.channel)))
          (field_error "channel" (unknown "channel" (channel_text q.channel)))
        ++ unless (not (is_reversed q.from q.to)) (field_error "to" (text "must not precede from")))

unfoldable pub validate_list : ListQuery → Option Error
unfolding list_errors
validate_list q = to_error (list_errors q)
