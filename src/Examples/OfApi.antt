-- ===== src/Examples/OfApi.antt =====
-- The laws of the handlers, at a world with three rows, with a codec that counts in unary.
use notifier.Base.{
  false, inl, ◌+◌, ◌*◌, ◌/◌, ◌∷◌, [], List, String, ℕ, ◌≡◌, ◌≢◌, ◌↔◌, refl, true, map, none, some,
  select, pos, arith, str_eq, if◌then◌else◌,
}
use notifier.Template.{Engine}
use notifier.Domain.Errors.{Result, ok, err, not_found}
use notifier.Domain.Status.{other_status, other_channel, queued}
use notifier.Domain.List.{ListQuery, validate_list}
use notifier.Domain.Validate.{validate_new}
use notifier.Service.Create.{new_notification}
use notifier.Storage.Listing.{newest_first}
use notifier.Storage.Listing.Next.{test}
use notifier.Api.Cursor.{encode_cursor, decode_cursor, decode_cursor-encode_cursor}
use notifier.Api.Query.{Parsers, Params, parse_list_query}
use notifier.Api.Notifications.{
  CreateNotificationRequest, to_create_input, to_notification_response, decoded, create, get,
  cancel,
}
use notifier.Api.Hub.{
  Action, connect, register, take, leave, unregister, see_done, broadcast_raw, dispatch, stop,
  new_hub, run,
}
use notifier.Api.Hub.Sound.{IsSound, run-IsSound}
use notifier.Api.Templates.{CreateTemplateRequest, create as create_template}
use notifier.Api.Templates.Lifecycle.{CreateAnswer, create_cases}
use notifier.World.{served, refused}
use notifier.Storage.Control.{ControlTable}
use notifier.Api.Dashboard.{UrlReader, set_provider}
use notifier.Api.Dashboard.Override.{IsShown, set_provider-IsShown}
use notifier.Api.Summary.{Floats, MetricFamily, worker_fetch_allowed, serve}
use notifier.Api.Summary.Cooldown.{Poll, serve_all, with_fetches, serve-cooldown}
use notifier.Api.Respond.{status_code}
use notifier.Api.Crawl.{crawl}
use notifier.Api.Crawl.Complete.{crawl_complete}
use notifier.Api.Lifecycle.{ShowsCreated, create-get, CancelAnswer, cancel-answer}
use notifier.Examples.Data.{calm, three_rows, three_rows-IsKeyed, plain_service}
use notifier.Examples.Codec.{unary_codec, unary_codec-IsLawful}

abbrev plain_quote : String → String
plain_quote s = s

abbrev plain_engine : Engine
plain_engine = record { Parsed = String; parse_text = λ s. ok s; execute = λ p vars. ok p }

abbrev plain_parsers : Parsers
plain_parsers = record {
  atoi = λ s. some (pos 1);
  parse_uuid = λ s. if str_eq s "two" then some 2 else if str_eq s "new" then some 50 else none;
  parse_rfc3339 = λ s. none;
}

decode_cursor-encode_cursor_example :
    (decode_cursor unary_codec (encode_cursor unary_codec 10 2)
      ≡ ok (record { created_at = 10; id = 2 }))
    ↔ ((◌≢◌ {A = ℕ} 10 0) × (◌≢◌ {A = ℕ} 2 0))
decode_cursor-encode_cursor_example =
    decode_cursor-encode_cursor unary_codec unary_codec-IsLawful 10 2

-- One row a page, and no filter.
abbrev one_a_page : Params
one_a_page name = if str_eq name "limit" then "1" else ""

abbrev one_a_page_query : ListQuery
one_a_page_query = record {
  status = other_status "";
  channel = other_channel "";
  batch_id = none;
  from = none;
  to = none;
  limit = pos 1;
  cursor_created_at = none;
  cursor_id = none;
}

one_a_page_reads : parse_list_query unary_codec plain_parsers true one_a_page ≡ ok one_a_page_query
unfolding parse_list_query notifier.Api.Query.parse_filters notifier.Api.Query.parse_cursor_param
    notifier.Domain.Status.Text.status_of notifier.Domain.Status.Text.channel_of
one_a_page_reads = refl

one_a_page_valid : validate_list one_a_page_query ≡ none
unfolding validate_list notifier.Domain.List.list_errors
one_a_page_valid = refl

crawl_complete_example :
    crawl unary_codec plain_quote plain_parsers true 4 one_a_page calm
    ≡ some (map to_notification_response (select (test one_a_page_query) (newest_first three_rows)))
crawl_complete_example =
    crawl_complete unary_codec plain_quote plain_parsers true unary_codec-IsLawful one_a_page
      one_a_page_query calm 4 refl three_rows-IsKeyed
      (
        (λ h. omega (arith, h), λ h. omega (arith, h)),
        (
          (λ h. omega (arith, h), λ h. omega (arith, h)),
          ((λ h. omega (arith, h), λ h. omega (arith, h)), tt),
        ),
      )
      one_a_page_reads one_a_page_valid (omega arith)

abbrev plain_request : CreateNotificationRequest
plain_request = record {
  recipient = "+905551234567";
  channel = "sms";
  content = "hello";
  template = none;
  priority = "";
  scheduled_at = none;
  idempotency_key = some "fresh";
}

plain_request-valid :
    validate_new (new_notification 50 (to_create_input plain_request) "hello" 100 none) 100 ≡ none
unfolding new_notification validate_new to_create_input notifier.Domain.Validate.new_errors
    notifier.Domain.Validate.validate_recipient notifier.Domain.Validate.is_e164
    notifier.Domain.Validate.validate_content notifier.Domain.Status.channel_valid
    notifier.Domain.Status.priority_valid notifier.Domain.Regexp.match_string
    notifier.Domain.Regexp.matches notifier.Domain.Regexp.times notifier.Domain.Regexp.up_to
    notifier.Domain.Status.Text.channel_of notifier.Domain.Status.Text.priority_of
plain_request-valid = refl

create-get_example :
    ShowsCreated
      (create plain_quote plain_engine plain_service "c-1" (decoded plain_request) calm)
      (get plain_quote plain_parsers "new")
create-get_example =
    create-get plain_quote plain_parsers plain_engine plain_service "c-1" plain_request "new" calm
      refl three_rows-IsKeyed refl plain_request-valid refl refl refl

cancel-answer_example :
    CancelAnswer plain_quote plain_parsers "two" calm (cancel plain_quote plain_parsers "two" calm)
cancel-answer_example = cancel-answer plain_quote plain_parsers "two" calm refl three_rows-IsKeyed

-- A client for every notification and one for the second; an event for each; the shutdown.
abbrev hub_day : List Action
hub_day =
    connect ""
    ∷ connect "two"
    ∷ register 0
    ∷ register 1
    ∷ broadcast_raw "two"
    ∷ broadcast_raw "new"
    ∷ dispatch
    ∷ dispatch
    ∷ take 1
    ∷ leave 0
    ∷ unregister 0
    ∷ stop
    ∷ take 1
    ∷ see_done 1
    ∷ []

run-IsSound_example :
    IsSound plain_parsers.parse_uuid plain_parsers.parse_uuid
      (run plain_parsers.parse_uuid plain_parsers.parse_uuid hub_day new_hub)
run-IsSound_example = run-IsSound plain_parsers.parse_uuid plain_parsers.parse_uuid hub_day

abbrev welcome : CreateTemplateRequest
welcome = record { name = "welcome"; channel = "sms"; body = "hello" }

create_cases_example :
    CreateAnswer plain_engine plain_quote welcome calm
      (create_template plain_quote plain_engine (some welcome) calm)
create_cases_example = create_cases plain_engine plain_quote welcome calm refl tt refl

abbrev plain_urls : UrlReader
plain_urls = record {
  trim_space = λ s. s;
  parse_url = λ s. if str_eq s "https://a.test" then some ("https", "a.test") else none;
}

-- The override is set, and the query that reads it back fails.
abbrev control : ControlTable
control = record {
  row = record { paused = false; provider_url = "" };
  fates = served ∷ refused ∷ [];
}

set_provider-IsShown_example :
    IsShown plain_quote plain_urls "https://default.test"
      (set_provider plain_quote plain_urls "https://default.test" (some "https://a.test") control)
set_provider-IsShown_example =
    set_provider-IsShown plain_quote plain_urls "https://default.test" (some "https://a.test")
      control (inl refl)

-- Numbers in place of floating-point ones.
abbrev plain_floats : Floats
plain_floats = record {
  Float = ℕ;
  plus = λ a b. a + b;
  times = λ a b. a * b;
  over = λ a b. a / b;
  of_count = λ n. n;
  label_before = λ a b. false;
}

abbrev failed_fetch : Result (List (MetricFamily plain_floats))
failed_fetch = err not_found

abbrev empty_fetch : Result (List (MetricFamily plain_floats))
empty_fetch = ok []

abbrev two_polls : List (Poll plain_floats plain_quote)
two_polls =
    record { at = 101; local = empty_fetch; fetch = empty_fetch; lifetime = none }
    ∷ record { at = 102; local = failed_fetch; fetch = empty_fetch; lifetime = none }
    ∷ []

serve-cooldown_example :
    let z = serve plain_floats plain_quote true 0 100 empty_fetch failed_fetch none in
    (status_code z.0 ≡ 200)
    × (serve_all plain_floats plain_quote z.1
          (with_fetches plain_floats plain_quote (λ p. failed_fetch) two_polls)
        ≡ serve_all plain_floats plain_quote z.1 two_polls)
    × ((serve_all plain_floats plain_quote z.1 two_polls).1 ≡ 100)
unfolding worker_fetch_allowed
serve-cooldown_example =
    serve-cooldown plain_floats plain_quote 0 100 [] not_found none two_polls (λ p. failed_fetch)
      refl (λ h. omega (arith, h)) (omega arith, (omega arith, tt))
