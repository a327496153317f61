-- ===== src/Domain/Errors.antt =====
-- internal/domain/errors.go and the classified failures of internal/delivery/webhook.go: the values
-- that Go's `error` takes in this program, wrapped by `fmt.Errorf("...: %w", err)` any number of times.
use Prim.Native.String.{◌++◌ as text_append, slice}
use notifier.Base.{
  String, ℕ, zero, suc, ◌+◌, ◌/◌, ◌%◌, Bool, true, false, List, [], ◌∷◌, Option, none, some, ltb,
  ◌==◌, if◌then◌else◌,
}

-- The text of a field error, a constructor for each format string with arguments.
pub data Message : Type 0 where
  text : String → Message
  unknown : String → String → Message  -- "unknown status %q": the kind and the value
  template_missing : String → Message  -- "template %q not found"
  template_channel : String → String → String → Message  -- name, stored channel, wanted channel

pub record FieldError : Type 0 where
  pub field : String
  pub message : Message

pub record SendError : Type 0 where
  pub status_code : ℕ  -- 0 for failures of the network
  pub retryable : Bool
  pub message : String

pub data Error : Type 0 where
  not_found invalid_transition duplicate_idempotency_key duplicate_template_name : Error
  validation : List FieldError → Error
  send_error : SendError → Error
  external : String → Error  -- an error of a driver, the network or the standard library
  wrapped : String → Error → Error

-- `errors.Is` and `errors.As` look through every wrapping.
unfoldable pub cause : Error → Error
cause (wrapped s e) = cause e
cause e = e

abbrev is_not_found_cause : Error → Bool
is_not_found_cause not_found = true
is_not_found_cause _ = false

abbrev is_invalid_transition_cause : Error → Bool
is_invalid_transition_cause invalid_transition = true
is_invalid_transition_cause _ = false

abbrev is_duplicate_key_cause : Error → Bool
is_duplicate_key_cause duplicate_idempotency_key = true
is_duplicate_key_cause _ = false

abbrev is_duplicate_template_cause : Error → Bool
is_duplicate_template_cause duplicate_template_name = true
is_duplicate_template_cause _ = false

abbrev as_validation_cause : Error → Option (List FieldError)
as_validation_cause (validation es) = some es
as_validation_cause _ = none

abbrev as_send_error_cause : Error → Option SendError
as_send_error_cause (send_error e) = some e
as_send_error_cause _ = none

unfoldable pub is_not_found : Error → Bool
unfolding cause
is_not_found e = is_not_found_cause (cause e)

unfoldable pub is_invalid_transition : Error → Bool
unfolding cause
is_invalid_transition e = is_invalid_transition_cause (cause e)

unfoldable pub is_duplicate_key : Error → Bool
unfolding cause
is_duplicate_key e = is_duplicate_key_cause (cause e)

unfoldable pub is_duplicate_template : Error → Bool
unfolding cause
is_duplicate_template e = is_duplicate_template_cause (cause e)

unfoldable pub as_validation : Error → Option (List FieldError)
unfolding cause
as_validation e = as_validation_cause (cause e)

unfoldable pub as_send_error : Error → Option SendError
unfolding cause
as_send_error e = as_send_error_cause (cause e)

-- The decimal form of a number, as `%d` prints it; `n` has at most `n + 1` digits.
abbrev digit_text : ℕ → String
digit_text d = slice "0123456789" d (d + 1)

unfoldable pub decimal_fuel : ℕ → ℕ → String
decimal_fuel zero n = ""
decimal_fuel (suc f) n =
    let more = decimal_fuel f (n / 10) in
    if ltb n 10 then digit_text n else text_append more (digit_text (n % 10))

unfoldable pub decimal : ℕ → String
unfolding decimal_fuel
decimal n = decimal_fuel (suc n) n

-- Texts in a row.
abbrev pub texts : List String → String
texts [] = ""
texts (s ∷ ss) = text_append s (texts ss)

-- The texts that `Error()` gives; `quote` is the verb `%q`, which belongs to the package fmt.
module _ (quote : String → String) where
  unfoldable pub message_text : Message → String
  message_text (text s) = s
  message_text (unknown kind value) = texts ("unknown " ∷ kind ∷ " " ∷ quote value ∷ [])
  message_text (template_missing name) = texts ("template " ∷ quote name ∷ " not found" ∷ [])
  message_text (template_channel name has wants) =
      texts ("template " ∷ quote name ∷ " is for channel " ∷ has ∷ ", not " ∷ wants ∷ [])

  abbrev field_text : FieldError → String
  field_text e = texts (e.field ∷ ": " ∷ message_text e.message ∷ [])

  unfoldable pub join_errors : List FieldError → String
  unfolding message_text
  join_errors [] = ""
  join_errors (e ∷ []) = field_text e
  join_errors (e ∷ f ∷ es) = texts (field_text e ∷ "; " ∷ join_errors (f ∷ es) ∷ [])

  unfoldable pub send_error_text : SendError → String
  unfolding decimal
  send_error_text e =
      if e.status_code == 0
      then e.message
      else texts ("provider returned " ∷ decimal e.status_code ∷ ": " ∷ e.message ∷ [])

  unfoldable pub error_text : Error → String
  unfolding join_errors send_error_text
  error_text not_found = "not found"
  error_text invalid_transition = "invalid status transition"
  error_text duplicate_idempotency_key = "duplicate idempotency key"
  error_text duplicate_template_name = "duplicate template name"
  error_text (validation es) = text_append "validation failed: " (join_errors es)
  error_text (send_error e) = send_error_text e
  error_text (external s) = s
  error_text (wrapped s e) = texts (s ∷ ": " ∷ error_text e ∷ [])

-- A Go pair `(A, error)`, of which the callers read one half.
pub data Result {ℓ} (A : Type ℓ) : Type ℓ where
  ok : A → Result A
  err : Error → Result A

-- `if err != nil { return err }`: a call goes on with the value of the call before it.
infixl 5 ◌>>=◌
abbrev pub ◌>>=◌ : {A B : Type 0} → Result A → (A → Result B) → Result B
◌>>=◌ outcome next = elim outcome [ err e ↦ err e | ok value ↦ next value ]
