-- ===== src/Domain/Status/Machine.antt =====
-- What the transition map of internal/domain/notification.go allows, over any number of moves.
use notifier.Base.{◌≡◌, refl, ◌⊎◌, inl, inr, ◌↔◌, Bool, true, false, arith}
use notifier.Domain.Status.{
  Status, pending, scheduled, queued, processing, retrying, sent, failed, cancelled, has_status,
  can_transition, statuses_allowed_into, cancellable_statuses, status_valid, status_eq,
}

-- Zero or more legal moves.
pub data Reaches : Status → Status → Type 0 where
  stay : (s : Status) → Reaches s s
  move : (s t : Status) {u : Status} → can_transition s t ≡ true → Reaches t u → Reaches s u

pub Reaches-trans : {s t u : Status} → Reaches s t → Reaches t u → Reaches s u
Reaches-trans (stay s) r = r
Reaches-trans (move s t h q) r = move s t h (Reaches-trans q r)

pub Reaches-step : (s t : Status) → can_transition s t ≡ true → Reaches s t
Reaches-step s t h = move s t h (stay t)

-- The statuses in which a notification rests for good.
abbrev pub is_terminal : Status → Bool
is_terminal sent = true
is_terminal failed = true
is_terminal cancelled = true
is_terminal _ = false

-- The derived allowed-from set of a status holds exactly the statuses with a legal move into it.
pub has_status-statuses_allowed_into :
    (from to : Status) → has_status from (statuses_allowed_into to) ≡ can_transition from to
unfolding statuses_allowed_into
has_status-statuses_allowed_into from pending = ground arith
has_status-statuses_allowed_into from _ = ground arith

-- From sent, failed and cancelled no other status can ever be reached.
pub Reaches-terminal : {s t : Status} → is_terminal s ≡ true → Reaches s t → t ≡ s
unfolding can_transition
Reaches-terminal h (stay s) = refl
Reaches-terminal h (move sent t e r) = cc
Reaches-terminal h (move failed t e r) = cc
Reaches-terminal h (move cancelled t e r) = cc
Reaches-terminal h (move _ t e r) = cc

pub can_transition-terminal : (s t : Status) → is_terminal s ≡ true → can_transition s t ≡ true → ⊥
unfolding can_transition
can_transition-terminal pending t h e = cc
can_transition-terminal _ t h e = cc

-- The statuses from which cancelled cannot be reached any more.
abbrev is_claimed : Status → Bool
is_claimed pending = false
is_claimed scheduled = false
is_claimed queued = false
is_claimed cancelled = false
is_claimed _ = true

can_transition-is_claimed :
    (s t : Status) → is_claimed s ≡ true → can_transition s t ≡ true → is_claimed t ≡ true
unfolding can_transition
can_transition-is_claimed pending t h e = cc
can_transition-is_claimed _ t h e = ground arith

Reaches-is_claimed : {s t : Status} → Reaches s t → is_claimed s ≡ true → is_claimed t ≡ true
Reaches-is_claimed (stay s) h = h
Reaches-is_claimed (move s t e r) h = Reaches-is_claimed r (can_transition-is_claimed s t h e)

-- Cancellation is possible at once or never: a status from which cancelled can be reached by any
-- number of moves is cancelled itself or belongs to the cancellable statuses, and a cancellable
-- status reaches cancelled.
pub Reaches-cancelled_iff :
    (s : Status)
    → Reaches s cancelled ↔ ((s ≡ cancelled) ⊎ (has_status s cancellable_statuses ≡ true))
unfolding cancellable_statuses can_transition
Reaches-cancelled_iff pending = (λ _. inr refl, λ _. Reaches-step pending cancelled refl)
Reaches-cancelled_iff scheduled = (λ _. inr refl, λ _. Reaches-step scheduled cancelled refl)
Reaches-cancelled_iff queued = (λ _. inr refl, λ _. Reaches-step queued cancelled refl)
Reaches-cancelled_iff cancelled = (λ _. inl refl, λ _. stay cancelled)
Reaches-cancelled_iff _ = (λ r. absurd (cc (Reaches-is_claimed r refl)), λ h. ground arith)

can_transition-sent : (t : Status) → can_transition t sent ≡ status_eq t processing
unfolding can_transition
can_transition-sent pending = refl
can_transition-sent _ = refl

-- Every known status that is not terminal can still reach processing, and sent from there; and a
-- status has a legal move to sent exactly if it is processing.
pub Reaches-sent :
    (s t : Status)
    → status_valid s ≡ true
    → is_terminal s ≡ false
    → Reaches s processing
      × Reaches processing sent
      × (can_transition t sent ≡ status_eq t processing)
unfolding can_transition status_valid
Reaches-sent pending t v h =
    (Reaches-step pending processing refl, Reaches-step processing sent refl, can_transition-sent t)
Reaches-sent scheduled t v h = (
  move scheduled queued refl (Reaches-step queued processing refl),
  Reaches-step processing sent refl,
  can_transition-sent t,
)
Reaches-sent queued t v h =
    (Reaches-step queued processing refl, Reaches-step processing sent refl, can_transition-sent t)
Reaches-sent processing t v h =
    (stay processing, Reaches-step processing sent refl, can_transition-sent t)
Reaches-sent retrying t v h = (
  Reaches-step retrying processing refl,
  Reaches-step processing sent refl,
  can_transition-sent t,
)
Reaches-sent _ t v h = cc
