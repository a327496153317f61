-- ===== src/Domain/Status.antt =====
-- internal/domain/notification.go: the string enumerations and the status state machine.
-- A Go string type with constants is a data type of those constants and of every other text.
pub mod Machine
pub mod Text
use notifier.Base.{String, Bool, true, false, List, [], ◌∷◌, exists, select, str_eq, if◌then◌else◌}

pub data Channel : Type 0 where
  sms email push : Channel
  other_channel : String → Channel

pub data Priority : Type 0 where
  high normal low : Priority
  other_priority : String → Priority

pub data Status : Type 0 where
  pending scheduled queued processing retrying sent failed cancelled : Status
  other_status : String → Status

abbrev pub channel_eq : Channel → Channel → Bool
channel_eq sms sms = true
channel_eq email email = true
channel_eq push push = true
channel_eq (other_channel s) (other_channel t) = str_eq s t
channel_eq _ _ = false

abbrev pub status_eq : Status → Status → Bool
status_eq pending pending = true
status_eq scheduled scheduled = true
status_eq queued queued = true
status_eq processing processing = true
status_eq retrying retrying = true
status_eq sent sent = true
status_eq failed failed = true
status_eq cancelled cancelled = true
status_eq (other_status s) (other_status t) = str_eq s t
status_eq _ _ = false

-- `slices.Contains`, on statuses.
unfoldable pub has_status : Status → List Status → Bool
has_status s l = exists (λ t. status_eq t s) l

abbrev pub channels : List Channel
channels = sms ∷ email ∷ push ∷ []

unfoldable pub channel_valid : Channel → Bool
channel_valid c = exists (λ d. channel_eq d c) channels

unfoldable pub priority_valid : Priority → Bool
priority_valid high = true
priority_valid normal = true
priority_valid low = true
priority_valid (other_priority _) = false

-- The map of legal moves; a status that is no key has none.
unfoldable pub transitions : Status → List Status
transitions pending = queued ∷ processing ∷ cancelled ∷ []
transitions scheduled = queued ∷ cancelled ∷ []
transitions queued = processing ∷ cancelled ∷ []
transitions processing = sent ∷ retrying ∷ failed ∷ []
transitions retrying = processing ∷ failed ∷ []
transitions sent = []
transitions failed = []
transitions cancelled = []
transitions (other_status _) = []

abbrev pub all_statuses : List Status
all_statuses = pending ∷ scheduled ∷ queued ∷ processing ∷ retrying ∷ sent ∷ failed ∷ cancelled ∷ []

unfoldable pub can_transition : Status → Status → Bool
unfolding has_status transitions
can_transition from to = has_status to (transitions from)

unfoldable pub statuses_allowed_into : Status → List Status
unfolding can_transition
statuses_allowed_into to = select (λ from. can_transition from to) all_statuses

unfoldable pub cancellable_statuses : List Status
unfolding statuses_allowed_into
cancellable_statuses = statuses_allowed_into cancelled

-- `statusValid` of internal/domain/list.go.
unfoldable pub status_valid : Status → Bool
unfolding has_status
status_valid s = has_status s all_statuses

-- The text of a value: Go's conversion `string(s)`.
unfoldable pub channel_text : Channel → String
channel_text sms = "sms"
channel_text email = "email"
channel_text push = "push"
channel_text (other_channel s) = s

unfoldable pub priority_text : Priority → String
priority_text high = "high"
priority_text normal = "normal"
priority_text low = "low"
priority_text (other_priority s) = s

unfoldable pub status_text : Status → String
status_text pending = "pending"
status_text scheduled = "scheduled"
status_text queued = "queued"
status_text processing = "processing"
status_text retrying = "retrying"
status_text sent = "sent"
status_text failed = "failed"
status_text cancelled = "cancelled"
status_text (other_status s) = s
