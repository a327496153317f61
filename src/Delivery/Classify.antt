-- ===== src/Delivery/Classify.antt =====
-- The classes of provider answers in internal/delivery/webhook.go.
use notifier.Base.{
  String, ℕ, ◌≤◌, ◌<◌, ◌≡◌, ◌≢◌, refl, ◌⊎◌, Bool, true, false, arith, Bool-cases, inl, inr, leb,
  ltb, ◌==◌, ◌&&◌, ◌||◌,
}
use notifier.Domain.Errors.{Error, send_error, wrapped, ok, err}
use notifier.Delivery.{Reader, SendResult, is_retryable, classify}

-- Wrapping an error changes nothing about whether it may be tried again.
is_retryable-wrapped : (s : String) (e : Error) → is_retryable (wrapped s e) ≡ is_retryable e
unfolding is_retryable
is_retryable-wrapped s e = refl

-- Whether an answer with this status code is a failure that may be tried again.
abbrev pub Retries : Reader → ℕ → String → Type 0
Retries rd code body = (e : Error) × (classify rd code body ≡ err e) × (is_retryable e ≡ true)

abbrev pub Rejects : Reader → ℕ → String → Type 0
Rejects rd code body = (e : Error) × (classify rd code body ≡ err e) × (is_retryable e ≡ false)

abbrev pub Delivers : Reader → ℕ → String → Type 0
Delivers rd code body = (r : SendResult) × (classify rd code body ≡ ok r) × (r.status_code ≡ code)

-- Every answer of the provider falls in one of three classes: a code from 200 to 299 delivers and
-- is recorded in the result, 429 and every code from 500 may be retried, and any other is permanent.
pub classify_cases :
    (rd : Reader) (code : ℕ) (body : String)
    → ((200 ≤ code) × (code < 300) × Delivers rd code body)
      ⊎ ((((code ≡ 429) ⊎ (500 ≤ code)) × Retries rd code body)
          ⊎ (((code < 200) ⊎ ((300 ≤ code) × (code < 500) × (code ≢ 429))) × Rejects rd code body))
unfolding classify is_retryable
classify_cases rd code body = elim (Bool-cases (leb 200 code && ltb code 300)) [
  | inl h ↦ inl (ground arith, ground arith, (delivered, rw h, refl))
  | inr h ↦ elim (Bool-cases (code == 429 || leb 500 code)) [
    | inl k ↦ inr (inl (ground arith, (failed true, rw (h, k), refl)))
    | inr k ↦ inr (inr (ground arith, (failed false, rw (h, k), refl)))
  ]
]
  where
    delivered : SendResult
    delivered = record {
      provider_message_id = rd.message_id (rd.snapshot body);
      status_code = code;
      body = rd.snapshot body;
    }

    failed : Bool → Error
    failed again =
        send_error (record { status_code = code; retryable = again; message = rd.error_body body })
