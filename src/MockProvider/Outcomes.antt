-- ===== src/MockProvider/Outcomes.antt =====
-- What the sender of internal/delivery/webhook.go makes of the answers of
-- internal/mockprovider/mockprovider.go.
use notifier.Base.{
  String, ℕ, ◌≤◌, ◌≡◌, refl, ◌⊎◌, true, false, ◌∷◌, length, take, Bool-cases, inl, inr,
}
use notifier.Delivery.{Reader, classify, is_retryable}
use notifier.Delivery.Classify.{Delivers, Retries, Rejects}
use notifier.MockProvider.{
  Store, buffer_size, marker_retryable, marker_permanent, contains, IncomingMessage, decoded,
  received, answer_code, receive, recent,
}
use notifier.MockProvider.Recent.{recent-add}

-- A message with the content FAILME somewhere in it gets an answer that the sender may try again, one
-- with REJECTME only an answer that it takes as permanent, both with the inbox as it was; any other
-- counts as delivered and, in an inbox within its bound, is then the newest message.
pub receive_cases :
    (rd : Reader) (body id : String) (now : ℕ) (m : IncomingMessage) (store : Store)
    → length store ≤ buffer_size
    → let z = receive id now (decoded m) store in
      ((contains m.content marker_retryable ≡ true)
        × Retries rd (answer_code z.0) body
        × (z.1 ≡ store))
      ⊎ (((contains m.content marker_retryable ≡ false)
            × (contains m.content marker_permanent ≡ true)
            × Rejects rd (answer_code z.0) body
            × (z.1 ≡ store))
          ⊎ ((contains m.content marker_retryable ≡ false)
              × (contains m.content marker_permanent ≡ false)
              × Delivers rd (answer_code z.0) body
              × (recent z.1 ≡ take buffer_size (received id now m ∷ recent store))))
unfolding receive classify is_retryable
receive_cases rd body id now m store fits =
    elim (Bool-cases (contains m.content marker_retryable)) [
      | inl f ↦ rw f (inl (refl, (_, refl, refl), refl))
      | inr f ↦ elim (Bool-cases (contains m.content marker_permanent)) [
        | inl r ↦ rw (f, r) (inr (inl (refl, refl, (_, refl, refl), refl)))
        | inr r ↦ rw (f, r) (inr (inr (refl, refl, (_, refl, refl), recent-add store _ fits)))
      ]
    ]
