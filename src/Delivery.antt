-- ===== src/Delivery.antt =====
-- internal/delivery: the senders behind the worker's `Sender`, with the provider as a list of the
-- answers that it is going to give.
pub mod Classify
use notifier.Base.{
  String, ℕ, ◌+◌, Bool, true, false, not, ◌&&◌, ◌||◌, List, [], ◌∷◌, ◌++◌, Option, none, some, ltb,
  leb, ◌==◌, if◌then◌else◌, str_eq,
}
use notifier.Domain.Errors.{
  SendError, Error, send_error, as_send_error, Result, ok, err, external, wrapped, texts,
}
use notifier.Domain.Notification.{Notification}

-- `delivery.Result`.
pub record SendResult : Type 0 where
  pub provider_message_id : String
  pub status_code : ℕ
  pub body : String

-- What becomes of a request: it cannot be built, or `client.Do` gives, with the time it took, no
-- answer, or a status code and a body.
pub data Reply : Type 0 where
  unbuilt : String → Reply
  unreachable : ℕ → String → Reply
  responded : ℕ → ℕ → String → Reply

-- `IsRetryable`: an error of another kind may be tried again.
unfoldable pub is_retryable : Error → Bool
unfolding as_send_error
is_retryable e = elim (as_send_error e) [ none ↦ true | some s ↦ s.retryable ]

-- The JSON decoder and the two limited readers, which belong to the standard library: the id in an
-- answer's body, the first 300 bytes of a body, and the first 512 bytes or "no response body".
pub record Reader : Type 0 where
  pub message_id : String → String
  pub snapshot : String → String
  pub error_body : String → String

-- The `switch` of `WebhookSender.Send` on the status code.
unfoldable pub classify : Reader → ℕ → String → Result SendResult
classify rd code body =
    if leb 200 code && ltb code 300
    then (let seen = rd.snapshot body in
        ok (record { provider_message_id = rd.message_id seen; status_code = code; body = seen }))
    else (if code == 429 || leb 500 code
        then err (
            send_error
              (record { status_code = code; retryable = true; message = rd.error_body body }))
        else err (
            send_error
              (record { status_code = code; retryable = false; message = rd.error_body body })))

-- The overriding URL as `SwitchableSender` caches it, the provider's coming answers, and the requests
-- made so far: the URL, "" for the configured sender, and the notification.
pub record Provider : Type 0 where
  pub cached_url : String
  pub cached_at : ℕ
  pub overrides : List (Option String)  -- what the coming look-ups of the override give
  pub replies : List Reply
  pub requests : List (String × Notification)

abbrev next_reply : List Reply → Reply
next_reply [] = responded 0 202 ""
next_reply (r ∷ rs) = r

abbrev pub rest {ℓ} : {A : Type ℓ} → List A → List A
rest [] = []
rest (x ∷ xs) = xs

abbrev next_override : List (Option String) → Option String
next_override [] = some ""
next_override (o ∷ os) = o

-- `overrideCacheTTL`, in nanoseconds.
abbrev pub override_cache_ttl : ℕ
override_cache_ttl = 2_000_000_000

answer : Reader → Reply → Result SendResult
unfolding classify
answer rd (unbuilt why) = err (wrapped "build provider request" (external why))
answer rd (unreachable t why) = err (
    send_error (record {
      status_code = 0;
      retryable = true;
      message = texts ("provider unreachable: " ∷ why ∷ []);
    }))
answer rd (responded t code body) = classify rd code body

abbrev latency : Reply → ℕ
latency (unbuilt why) = 0
latency (unreachable t why) = t
latency (responded t code body) = t

-- A request that cannot be built is not made.
abbrev made : Reply → (String × Notification) → List (String × Notification)
made (unbuilt why) request = []
made _ request = request ∷ []

-- `WebhookSender.Send` to one URL, at a time: the result, the provider after it, the time after it.
unfoldable pub webhook_send :
    Reader → String → Notification → ℕ → Provider → Result SendResult × Provider × ℕ
unfolding answer
webhook_send rd url n now p =
    let reply = next_reply p.replies in
    (
      answer rd reply,
      record p { replies = rest p.replies; requests = p.requests ++ made reply (url, n) },
      now + latency reply,
    )

-- `currentTarget`: the cache is refreshed when it is older than its life and the look-up succeeds.
-- The sender's `webhook` is not nil exactly if the cached URL is not "".
unfoldable pub refresh_target : ℕ → Provider → Provider
refresh_target now p =
    if ltb (p.cached_at + override_cache_ttl) now
    then elim (next_override p.overrides) [
      | none ↦ record p { overrides = rest p.overrides }
      | some url ↦ record p { cached_url = url; cached_at = now; overrides = rest p.overrides }
    ]
    else p

-- `SwitchableSender.Send` over a configured webhook.
unfoldable pub switchable_send :
    Reader → String → Notification → ℕ → Provider → Result SendResult × Provider × ℕ
unfolding refresh_target webhook_send
switchable_send rd fallback n now p =
    let q = refresh_target now p in
    webhook_send rd (if str_eq q.cached_url "" then fallback else q.cached_url) n now q
