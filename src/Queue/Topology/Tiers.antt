-- ===== src/Queue/Topology/Tiers.antt =====
-- The backoff tiers of internal/queue/rabbit/topology.go.
use notifier.Base.{
  ℕ, zero, suc, ◌<◌, ◌≡◌, refl, some, arith, get_elem?, leb, ◌==◌, if◌then◌else◌, ◌*◌, ◌∙◌,
}
use notifier.Queue.Topology.{RetryTier, retry_tiers, tier_index, tier_for_attempt, second}

tier_index_bound : (n : ℕ) → tier_index n < 3
tier_index_bound n = ground arith

-- The delay after a failed attempt: 5 s after the first, 30 s after the second, then 120 s.
abbrev pub delay_of : ℕ → ℕ
delay_of n = if leb n 1 then 5 * second else if n == 2 then 30 * second else 120 * second

delay_of_index : ℕ → ℕ
delay_of_index zero = 5 * second
delay_of_index (suc zero) = 30 * second
delay_of_index _ = 120 * second

tier_at :
    (i : ℕ)
    → i < 3
    → (t : RetryTier) × (get_elem? retry_tiers i ≡ some t) × (t.ttl ≡ delay_of_index i)
unfolding delay_of_index
tier_at zero h = (_, refl, refl)
tier_at (suc zero) h = (_, refl, refl)
tier_at (suc (suc zero)) h = (_, refl, refl)
tier_at (suc (suc (suc i))) h = absurd (omega arith)

delay_of-index : (n : ℕ) → delay_of_index (tier_index n) ≡ delay_of n
unfolding delay_of_index
delay_of-index zero = refl
delay_of-index (suc zero) = refl
delay_of-index (suc (suc zero)) = refl
delay_of-index (suc (suc (suc n))) = ground arith

-- For every attempt the clamped index is in range, and the tier that it selects has the delay of
-- the ladder: 5 s after the first attempt (or none), 30 s after the second, 120 s after any later.
pub tier_for_attempt_lem :
    (n : ℕ) → (t : RetryTier) × (tier_for_attempt n ≡ some t) × (t.ttl ≡ delay_of n)
unfolding tier_for_attempt
tier_for_attempt_lem n =
    let (t, found, ttl) = tier_at (tier_index n) (tier_index_bound n) in
    (t, found, ttl ∙ delay_of-index n)
