-- ===== src/Domain/Status/Text.antt =====
-- Go's conversions of a text to the string types of internal/domain/notification.go.
use notifier.Base.{String, str_eq, if◌then◌else◌}
use notifier.Domain.Status.{
  Channel, sms, email, push, other_channel, Priority, high, normal, low, other_priority, Status,
  pending, scheduled, queued, processing, retrying, sent, failed, cancelled, other_status,
}

-- `domain.Channel(s)`
unfoldable pub channel_of : String → Channel
channel_of s =
    if str_eq s "sms"
    then sms
    else if str_eq s "email"
    then email
    else if str_eq s "push"
    then push
    else other_channel s

-- `domain.Priority(s)`
unfoldable pub priority_of : String → Priority
priority_of s =
    if str_eq s "high"
    then high
    else if str_eq s "normal"
    then normal
    else if str_eq s "low"
    then low
    else other_priority s

-- `domain.Status(s)`
unfoldable pub status_of : String → Status
status_of s =
    if str_eq s "pending"
    then pending
    else if str_eq s "scheduled"
    then scheduled
    else if str_eq s "queued"
    then queued
    else if str_eq s "processing"
    then processing
    else if str_eq s "retrying"
    then retrying
    else if str_eq s "sent"
    then sent
    else if str_eq s "failed"
    then failed
    else if str_eq s "cancelled"
    then cancelled
    else other_status s
