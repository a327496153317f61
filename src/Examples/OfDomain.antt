-- ===== src/Examples/OfDomain.antt =====
-- The laws of internal/domain and of the queue's tiers, at concrete values.
use notifier.Base.{◌≡◌, ◌↔◌, ◌⊎◌, refl, true, none, some}
use notifier.Domain.Status.{
  pending, scheduled, queued, processing, sent, cancelled, has_status, can_transition,
  statuses_allowed_into, cancellable_statuses, status_valid, status_eq, channel_valid,
  priority_valid,
}
use notifier.Domain.Status.Machine.{
  Reaches, stay, has_status-statuses_allowed_into, Reaches-terminal, Reaches-cancelled_iff,
  Reaches-sent,
}
use notifier.Domain.Regexp.{matches, e164_pattern, codes, match_string, times, up_to}
use notifier.Domain.Regexp.E164.{IsE164, is_e164_iff}
use notifier.Domain.Validate.{validate_new, validate_recipient, is_e164, validate_content}
use notifier.Domain.Validate.Laws.{IsAcceptable, validate_new_iff}
use notifier.Queue.Topology.{RetryTier, tier_for_attempt}
use notifier.Queue.Topology.Tiers.{delay_of, tier_for_attempt_lem}
use notifier.Examples.Data.{row}

has_status-statuses_allowed_into_example :
    has_status queued (statuses_allowed_into processing) ≡ can_transition queued processing
has_status-statuses_allowed_into_example = has_status-statuses_allowed_into queued processing

Reaches-terminal_example : sent ≡ sent
Reaches-terminal_example = Reaches-terminal refl (stay sent)

Reaches-cancelled_iff_example :
    Reaches scheduled cancelled
    ↔ ((scheduled ≡ cancelled) ⊎ (has_status scheduled cancellable_statuses ≡ true))
Reaches-cancelled_iff_example = Reaches-cancelled_iff scheduled

Reaches-sent_example :
    Reaches pending processing
    × Reaches processing sent
    × (can_transition queued sent ≡ status_eq queued processing)
unfolding status_valid
Reaches-sent_example = Reaches-sent pending queued refl refl

is_e164_iff_example : (is_e164 "+905551234567" ≡ true) ↔ IsE164 (codes "+905551234567")
is_e164_iff_example = is_e164_iff "+905551234567"

validate_new_iff_example : (validate_new (row 1 pending) 5 ≡ none) ↔ IsAcceptable (row 1 pending) 5
validate_new_iff_example = validate_new_iff (row 1 pending) 5

tier_for_attempt_example : (t : RetryTier) × (tier_for_attempt 2 ≡ some t) × (t.ttl ≡ delay_of 2)
tier_for_attempt_example = tier_for_attempt_lem 2

-- The row is accepted by the checks, and its recipient by the pattern.
row_accepted : validate_new (row 1 pending) 5 ≡ none
unfolding validate_new channel_valid priority_valid validate_recipient is_e164 match_string times
    up_to validate_content
row_accepted = refl

number_accepted : matches e164_pattern (codes "+905551234567") ≡ true
unfolding matches times up_to
number_accepted = refl
