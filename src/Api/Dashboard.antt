-- ===== src/Api/Dashboard.antt =====
-- internal/api/dashboard.go: the handlers of the testing dashboard's controls.
pub mod Override
use notifier.Base.{
  String, ℕ, Bool, false, not, ◌&&◌, ◌||◌, List, [], Option, none, some, str_eq, if◌then◌else◌,
}
use notifier.Domain.Errors.{Error, Result, ok, err}
use notifier.Queue.Declare.{QueueDepth}
use notifier.Storage.Control.{
  ControlTable, worker_paused, set_worker_paused, provider_override, set_provider_override,
}
use notifier.MockProvider.{ReceivedMessage, Store, recent}
use notifier.Api.Respond.{Response, write_json_response, write_error_response}
use notifier.Api.Notifications.{malformed_body}

pub record ProviderStateResponse : Type 0 where
  pub override_url : String
  pub default_url : String
  pub effective : String

-- `strings.TrimSpace`, and the scheme and the host that `url.Parse` finds.
pub record UrlReader : Type 0 where
  pub trim_space : String → String
  pub parse_url : String → Option (String × String)

-- The settings of `dashboardHandler`, with the verb `%q`.
module _ (quote : String → String) (urls : UrlReader) (default_provider : String) where
  -- `writeInternalError`
  abbrev write_internal_error : {A : Type 0} → Error → Response A
  write_internal_error e = write_error_response quote 500 "internal error" []

  abbrev pub state_of : String → ProviderStateResponse
  state_of url = record {
    override_url = url;
    default_url = default_provider;
    effective = if str_eq url "" then default_provider else url;
  }

  abbrev with_state : Result String → Result ProviderStateResponse
  with_state (ok url) = ok (state_of url)
  with_state (err e) = err e

  -- `providerState`
  unfoldable pub provider_state : ControlTable → Result ProviderStateResponse × ControlTable
  provider_state t = let (r, u) = provider_override t in (with_state r, u)

  abbrev state_response : Result ProviderStateResponse → Response ProviderStateResponse
  state_response (ok s) = write_json_response 200 s
  state_response (err e) = write_internal_error e

  -- `getProvider`
  unfoldable pub get_provider : ControlTable → Response ProviderStateResponse × ControlTable
  get_provider t = let (r, u) = provider_state t in (state_response r, u)

  abbrev pub is_absolute : Option (String × String) → Bool
  is_absolute none = false
  is_absolute (some (scheme, host)) =
      (str_eq scheme "http" || str_eq scheme "https") && not (str_eq host "")

  unfoldable pub after_set :
      Result (Unit {0}) → ControlTable → Response ProviderStateResponse × ControlTable
  after_set (err e) t = (write_internal_error e, t)
  after_set (ok u) t = get_provider t

  unfoldable pub set_target : String → ControlTable → Response ProviderStateResponse × ControlTable
  set_target target t =
      if not (str_eq target "") && not (is_absolute (urls.parse_url target))
      then (
        write_error_response quote 400 "url must be an absolute http(s) URL, or empty to reset" [],
        t,
      )
      else (let (r, u) = set_provider_override target t in after_set r u)

  -- `setProvider`, with what the JSON decoder makes of the body.
  unfoldable pub set_provider :
      Option String → ControlTable → Response ProviderStateResponse × ControlTable
  unfolding set_target
  set_provider none t = (malformed_body quote, t)
  set_provider (some url) t = set_target (urls.trim_space url) t

  abbrev flag_response : Result Bool → Response Bool
  flag_response (ok paused) = write_json_response 200 paused
  flag_response (err e) = write_internal_error e

  -- `getWorkerState`
  unfoldable pub get_worker_state : ControlTable → Response Bool × ControlTable
  get_worker_state t = let (r, u) = worker_paused t in (flag_response r, u)

  abbrev set_response : Bool → Result (Unit {0}) → Response Bool
  set_response paused (ok u) = write_json_response 200 paused
  set_response paused (err e) = write_internal_error e

  -- `setWorkerState`
  unfoldable pub set_worker_state : Option Bool → ControlTable → Response Bool × ControlTable
  set_worker_state none t = (malformed_body quote, t)
  set_worker_state (some paused) t =
      let (r, u) = set_worker_paused paused t in (set_response paused r, u)

  abbrev depths_response : Result (List QueueDepth) → Response (List QueueDepth)
  depths_response (ok depths) = write_json_response 200 depths
  depths_response (err e) = write_internal_error e

  -- `getQueueDepths`, with the answer of the inspector.
  unfoldable pub get_queue_depths : Result (List QueueDepth) → Response (List QueueDepth)
  get_queue_depths r = depths_response r

  -- `getProviderMessages`
  unfoldable pub get_provider_messages : Store → Response (List ReceivedMessage)
  get_provider_messages store = write_json_response 200 (recent store)
