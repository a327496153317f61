-- ===== src/Api/Notifications.antt =====
-- internal/api/notifications.go: the handlers of single notifications and of the listing.
use notifier.Base.{
  String, ℤ, pos, negsuc, ℕ, ◌-◌, Bool, List, [], ◌∷◌, map, Option, none, some, ◌==◌, ltb,
  if◌then◌else◌, length, get_elem?,
}
use notifier.Domain.Errors.{
  Error, FieldError, as_validation, is_not_found, is_invalid_transition, is_duplicate_key,
  error_text, decimal, texts, Result, ok, err,
}
use notifier.Domain.Status.{channel_text, priority_text, status_text}
use notifier.Domain.Status.Text.{channel_of, priority_of}
use notifier.Domain.Notification.{Notification}
use notifier.Domain.List.{ListQuery}
use notifier.Template.{Engine, Vars}
use notifier.World.{World}
use notifier.Storage.Table.{Table}
use notifier.Publisher.{Context}
use notifier.Service.Resolve.{TemplateRef, CreateInput}
use notifier.Service.Create as Create
use notifier.Service.Create.{Service, CreateResult}
use notifier.Service.Cancel as Cancel
use notifier.Service.Listing as Listing
use notifier.Service.Listing.{default_list_limit, max_list_limit}
use notifier.Api.Respond.{Response, write_json_response, write_error_response}
use notifier.Api.Cursor.{Codec, encode_cursor}
use notifier.Api.Query.{Parsers, Params, parse_list_query}

pub record TemplateRefRequest : Type 0 where
  pub name : String
  pub vars : Vars

pub record CreateNotificationRequest : Type 0 where
  pub recipient : String
  pub channel : String
  pub content : String
  pub template : Option TemplateRefRequest
  pub priority : String
  pub scheduled_at : Option ℕ
  pub idempotency_key : Option String

abbrev template_ref : Option TemplateRefRequest → Option TemplateRef
template_ref none = none
template_ref (some t) = some (record { name = t.name; vars = t.vars })

-- `toCreateInput`
unfoldable pub to_create_input : CreateNotificationRequest → CreateInput
to_create_input p = record {
  recipient = p.recipient;
  channel = channel_of p.channel;
  content = p.content;
  template = template_ref p.template;
  priority = priority_of p.priority;
  scheduled_at = p.scheduled_at;
  idempotency_key = p.idempotency_key;
}

pub record NotificationResponse : Type 0 where
  pub id : ℕ
  pub batch_id : Option ℕ
  pub recipient : String
  pub channel : String
  pub content : String
  pub priority : String
  pub status : String
  pub scheduled_at : Option ℕ
  pub attempts : ℕ
  pub last_error : Option String
  pub provider_message_id : Option String
  pub created_at : ℕ
  pub updated_at : ℕ
  pub sent_at : Option ℕ

-- `toNotificationResponse`
unfoldable pub to_notification_response : Notification → NotificationResponse
to_notification_response n = record {
  id = n.id;
  batch_id = n.batch_id;
  recipient = n.recipient;
  channel = channel_text n.channel;
  content = n.content;
  priority = priority_text n.priority;
  status = status_text n.status;
  scheduled_at = n.scheduled_at;
  attempts = n.attempts;
  last_error = n.last_error;
  provider_message_id = n.provider_message_id;
  created_at = n.created_at;
  updated_at = n.updated_at;
  sent_at = n.sent_at;
}

-- What the JSON decoder makes of a request's body, whose reader stops at a limit.
pub data Decoded (A : Type 0) : Type 0 where
  too_large : ℕ → Decoded A
  malformed : Decoded A
  decoded : A → Decoded A

pub record Page : Type 0 where
  pub data_rows : List NotificationResponse
  pub next_cursor : String

-- The handler's copy of the clamp of the service.
abbrev pub effective_limit : ℤ → ℕ
effective_limit (negsuc n) = default_list_limit
effective_limit (pos n) =
    let m = if n == 0 then default_list_limit else n in
    if ltb max_list_limit m then max_list_limit else m

module _ (quote : String → String) where
  abbrev pub malformed_body : {A : Type 0} → Response A
  malformed_body = write_error_response quote 400 "malformed JSON body" []

  abbrev pub body_too_large : {A : Type 0} → ℕ → Response A
  body_too_large limit =
      write_error_response quote 413
        (texts ("request body exceeds " ∷ decimal limit ∷ " bytes" ∷ [])) []

  abbrev unvalidated : {A : Type 0} → Error → Option (List FieldError) → Response A
  unvalidated e (some es) = write_error_response quote 400 "validation failed" es
  unvalidated e none =
      if is_not_found e
      then write_error_response quote 404 "notification not found" []
      else if is_duplicate_key e
      then write_error_response quote 409 "idempotency key conflict; retry the request" []
      else write_error_response quote 500 "internal error" []

  -- `writeServiceError`
  unfoldable pub write_service_error : {A : Type 0} → Error → Response A
  write_service_error e = unvalidated e (as_validation e)

  abbrev pub created_response : Result CreateResult → Response NotificationResponse
  created_response (err e) = write_service_error e
  created_response (ok r) =
      write_json_response (if r.replayed then 200 else 201)
        (to_notification_response r.notification)

  -- `create`
  unfoldable pub create :
      Engine
      → Service
      → Context
      → Decoded CreateNotificationRequest
      → World
      → Response NotificationResponse × World
  create engine s ctx (too_large limit) w = (body_too_large limit, w)
  create engine s ctx malformed w = (malformed_body, w)
  create engine s ctx (decoded p) w =
      let (r, v) = Create.create engine quote s ctx (to_create_input p) w in (created_response r, v)

  abbrev bad_id : {A : Type 0} → Response A
  bad_id = write_error_response quote 400 "id must be a UUID" []

  abbrev cancelled_response : Result Notification → Response NotificationResponse
  cancelled_response (ok n) = write_json_response 200 (to_notification_response n)
  cancelled_response (err e) =
      if is_invalid_transition e
      then write_error_response quote 409 "notification is no longer cancellable" []
      else write_service_error e

  unfoldable pub cancel_id : Option ℕ → World → Response NotificationResponse × World
  cancel_id none w = (bad_id, w)
  cancel_id (some id) w = let (r, v) = Cancel.cancel id w in (cancelled_response r, v)

  -- `cancel`, at the path's identifier.
  unfoldable pub cancel : Parsers → String → World → Response NotificationResponse × World
  unfolding cancel_id
  cancel parsers id w = cancel_id (parsers.parse_uuid id) w

  abbrev found_response : Result Notification → Response NotificationResponse
  found_response (ok n) = write_json_response 200 (to_notification_response n)
  found_response (err e) = write_service_error e

  unfoldable pub get_id : Option ℕ → World → Response NotificationResponse × World
  get_id none w = (bad_id, w)
  get_id (some id) w = let (r, v) = Cancel.get id w in (found_response r, v)

  -- `get`
  unfoldable pub get : Parsers → String → World → Response NotificationResponse × World
  unfolding get_id
  get parsers id w = get_id (parsers.parse_uuid id) w

  module _ (codec : Codec) where
    abbrev cursor_after : Option Notification → String
    cursor_after none = ""
    cursor_after (some n) = encode_cursor codec n.created_at n.id

    -- A full page gives the cursor of its last row.
    unfoldable pub next_cursor : ℕ → Table → String
    next_cursor limit ns =
        if length ns == limit then cursor_after (get_elem? ns (length ns - 1)) else ""

    abbrev page_response : ℕ → Result Table → Response Page
    page_response limit (err e) = write_service_error e
    page_response limit (ok ns) =
        write_json_response 200 (record {
          data_rows = map to_notification_response ns;
          next_cursor = next_cursor limit ns;
        })

    unfoldable pub list_query : Result ListQuery → World → Response Page × World
    list_query (err e) w = (write_error_response quote 400 (error_text quote e) [], w)
    list_query (ok q) w =
        let (r, v) = Listing.list q w in (page_response (effective_limit q.limit) r, v)

    -- `list`
    unfoldable pub list : Parsers → Bool → Params → World → Response Page × World
    list parsers from_first params w =
        list_query (parse_list_query codec parsers from_first params) w
