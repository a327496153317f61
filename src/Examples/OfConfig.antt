-- ===== src/Examples/OfConfig.antt =====
-- A configuration read from an environment with two keys, and the mock provider's inbox.
use notifier.Base.{
  String, ◌↔◌, ◌≡◌, ◌⊎◌, true, false, List, [], ◌∷◌, reverse, take, none, some, str_eq,
  if◌then◌else◌, pos, arith,
}
use notifier.Domain.Errors.{ok}
use notifier.Config.{Config, role_api, defaults, Readers, Lookup, load}
use notifier.Config.Bounds.{Loads, InBounds, load_iff}
use notifier.Delivery.Classify.{Delivers, Retries, Rejects}
use notifier.MockProvider.{
  ReceivedMessage, buffer_size, new_store, recent, IncomingMessage, decoded, received, answer_code,
  receive, contains, marker_retryable, marker_permanent,
}
use notifier.MockProvider.Recent.{add_all, recent-add_all}
use notifier.MockProvider.Outcomes.{receive_cases}
use notifier.Examples.Data.{plain_reader}

abbrev plain_readers : Readers
plain_readers = record {
  atoi = λ s. if str_eq s "9000" then some (pos 9000) else none;
  parse_bool = λ s. none;
  parse_duration = λ s. none;
  number = λ n. "0";
  quote = λ s. s;
}

abbrev two_keys : Lookup
two_keys key = if str_eq key "ROLE" then "api" else if str_eq key "HTTP_PORT" then "9000" else ""

abbrev two_keys_config : Config
two_keys_config = record defaults { role = role_api; http_port = pos 9000 }

load_iff_example : (load plain_readers two_keys ≡ ok two_keys_config) ↔ (
    Loads plain_readers two_keys two_keys_config × InBounds plain_readers two_keys two_keys_config)
load_iff_example = load_iff plain_readers two_keys two_keys_config

abbrev message_of : String → ReceivedMessage
message_of id = record {
  message_id = id;
  to = "+905551234567";
  channel = "sms";
  content = "hello";
  received_at = 5;
}

abbrev two_messages : List ReceivedMessage
two_messages = message_of "m-1" ∷ message_of "m-2" ∷ []

recent-add_all_example :
    recent (add_all new_store two_messages) ≡ take buffer_size (reverse two_messages)
recent-add_all_example = recent-add_all two_messages

abbrev refused_message : IncomingMessage
refused_message = record { to = "+905551234567"; channel = "sms"; content = "please FAILME" }

receive_cases_example :
    let z = receive "m-3" 6 (decoded refused_message) two_messages in
    ((contains "please FAILME" marker_retryable ≡ true)
      × Retries plain_reader (answer_code z.0) ""
      × (z.1 ≡ two_messages))
    ⊎ (((contains "please FAILME" marker_retryable ≡ false)
          × (contains "please FAILME" marker_permanent ≡ true)
          × Rejects plain_reader (answer_code z.0) ""
          × (z.1 ≡ two_messages))
        ⊎ ((contains "please FAILME" marker_retryable ≡ false)
            × (contains "please FAILME" marker_permanent ≡ false)
            × Delivers plain_reader (answer_code z.0) ""
            × (recent z.1
                ≡ take buffer_size (received "m-3" 6 refused_message ∷ recent two_messages))))
receive_cases_example =
    receive_cases plain_reader "" "m-3" 6 refused_message two_messages (omega arith)
