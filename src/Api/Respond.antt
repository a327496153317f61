-- ===== src/Api/Respond.antt =====
-- internal/api/respond.go: JSON and error responses.
use notifier.Base.{String, ℕ, List, map}
use notifier.Domain.Errors.{FieldError, message_text}

pub record FieldErrorResponse : Type 0 where
  pub field : String
  pub message : String

pub record ErrorResponse : Type 0 where
  pub error : String
  pub fields : List FieldErrorResponse

-- A response before its JSON: a status code with a body, or with an error.
pub data Response (A : Type 0) : Type 0 where
  json : ℕ → A → Response A
  failure : ℕ → ErrorResponse → Response A

abbrev pub status_code : {A : Type 0} → Response A → ℕ
status_code (json code body) = code
status_code (failure code body) = code

-- `writeJSONResponse`
abbrev pub write_json_response : {A : Type 0} → ℕ → A → Response A
write_json_response code body = json code body

abbrev pub field_response : (String → String) → FieldError → FieldErrorResponse
field_response quote e = record { field = e.field; message = message_text quote e.message }

-- `writeErrorResponse`; `quote` is the verb `%q` in the texts of field errors.
unfoldable pub write_error_response :
    {A : Type 0} → (String → String) → ℕ → String → List FieldError → Response A
write_error_response quote code text errors =
    failure code (record { error = text; fields = map (field_response quote) errors })
