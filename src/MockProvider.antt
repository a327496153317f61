-- ===== src/MockProvider.antt =====
-- internal/mockprovider/mockprovider.go: the built-in stand-in for the provider, with its inbox.
pub mod Recent
pub mod Outcomes
use text.Mathlib.Text.{find?}
use notifier.Base.{
  String, ℕ, ◌-◌, Bool, true, false, none, some, List, [], ◌∷◌, ◌++◌, reverse, ltb, if◌then◌else◌,
  length, drop,
}

abbrev pub buffer_size : ℕ
buffer_size = 200

abbrev pub marker_retryable : String
marker_retryable = "FAILME"

abbrev pub marker_permanent : String
marker_permanent = "REJECTME"

pub record ReceivedMessage : Type 0 where
  pub message_id : String
  pub to : String
  pub channel : String
  pub content : String
  pub received_at : ℕ

-- `Store`: the messages, oldest first.
abbrev pub Store : Type 0
Store = List ReceivedMessage

abbrev pub new_store : Store
new_store = []

abbrev bounded : Store → Store
bounded ms = if ltb buffer_size (length ms) then drop (length ms - buffer_size) ms else ms

-- `add`
unfoldable pub add : Store → ReceivedMessage → Store
add store m = bounded (store ++ m ∷ [])

-- `Recent`: index i of the store goes to the index i of the result from its end.
unfoldable pub recent : Store → List ReceivedMessage
recent store = reverse store

-- `strings.Contains`
abbrev pub contains : String → String → Bool
contains s t = elim (find? s t) [ none ↦ false | some i ↦ true ]

pub record IncomingMessage : Type 0 where
  pub to : String
  pub channel : String
  pub content : String

-- What the JSON decoder makes of a request.
pub data Incoming : Type 0 where
  malformed : Incoming
  decoded : IncomingMessage → Incoming

-- The answer: a status code, and the body or the identifier that the JSON body carries.
pub data Answer : Type 0 where
  refused : ℕ → String → Answer
  accepted : ℕ → String → Answer

abbrev pub answer_code : Answer → ℕ
answer_code (refused code body) = code
answer_code (accepted code id) = code

abbrev pub received : String → ℕ → IncomingMessage → ReceivedMessage
received id now m = record {
  message_id = id;
  to = m.to;
  channel = m.channel;
  content = m.content;
  received_at = now;
}

-- `Receive`, with the identifier that `uuid.NewString` gives and the time.
unfoldable pub receive : String → ℕ → Incoming → Store → Answer × Store
receive id now malformed store = (refused 400 "{\"error\":\"malformed provider request\"}", store)
receive id now (decoded m) store =
    if contains m.content marker_retryable
    then (refused 500 "{\"error\":\"simulated provider outage\"}", store)
    else if contains m.content marker_permanent
    then (refused 400 "{\"error\":\"simulated permanent rejection\"}", store)
    else (accepted 202 id, add store (received id now m))
