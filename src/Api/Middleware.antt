-- ===== src/Api/Middleware.antt =====
-- internal/api/middleware.go and internal/api/readyz.go: what wraps the handlers, and the probes.
use Prim.Native.String.{◌++◌ as text_append}
use notifier.Base.{
  String, ℕ, Bool, true, false, ◌&&◌, List, [], ◌∷◌, Option, none, some, ◌==◌, str_eq,
  if◌then◌else◌,
}
use notifier.Domain.Errors.{Error, error_text}
use notifier.Publisher.{Context}
use notifier.Api.Respond.{Response, write_json_response}

-- `correlationID`: the identifier of a request, the client's or a new one, for the context and the
-- response's header.
unfoldable pub correlation_id : String → String → Context
correlation_id header fresh = if str_eq header "" then fresh else header

-- The status that a wrapped writer saw, 0 if the handler wrote none.
unfoldable pub observed_status : ℕ → ℕ
observed_status status = if status == 0 then 200 else status

-- What `httpMetrics` observes: the route's pattern, the method and the status.
unfoldable pub observed_request : String → String → ℕ → String × String × ℕ
unfolding observed_status
observed_request route method status =
    (if str_eq route "" then "unmatched" else route, method, observed_status status)

-- How a handler ends: with a response, with a panic, or with the panic that aborts a connection.
pub data Ending (A : Type 0) : Type 0 where
  answered : A → Ending A
  panicked aborted : Ending A

-- `recoverPanic`: a panic becomes a 500, and the aborting one goes on.
unfoldable pub recover_panic : {A : Type 0} → A → Ending A → Ending A
recover_panic internal_error (answered a) = answered a
recover_panic internal_error panicked = answered internal_error
recover_panic internal_error aborted = aborted

pub record Readiness : Type 0 where
  pub status : String
  pub checks : List (String × String)

abbrev check_text : (String → String) → Option Error → String
check_text quote none = "ok"
check_text quote (some e) = text_append "down: " (error_text quote e)

abbrev check_ok : Option Error → Bool
check_ok none = true
check_ok (some e) = false

abbrev check_texts : (String → String) → List (String × Option Error) → List (String × String)
check_texts quote [] = []
check_texts quote ((name, e) ∷ checks) = (name, check_text quote e) ∷ check_texts quote checks

abbrev all_ok : List (String × Option Error) → Bool
all_ok [] = true
all_ok ((name, e) ∷ checks) = check_ok e && all_ok checks

-- `handleReadyz`, with the dependencies and what their probes give.
unfoldable pub handle_readyz : (String → String) → List (String × Option Error) → Response Readiness
handle_readyz quote checks =
    if all_ok checks
    then write_json_response 200 (record { status = "ok"; checks = check_texts quote checks })
    else write_json_response 503 (record { status = "degraded"; checks = check_texts quote checks })
