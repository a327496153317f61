-- ===== src/Publisher/Burst.antt =====
-- What the result of `PublishCreatedAll` of internal/queue/rabbit/publisher.go means.
use notifier.Base.{ℕ, ◌≡◌, refl, subst, List, [], ◌∷◌, ◌++◌, inl, inr, In}
use notifier.Domain.Notification.{Notification}
use notifier.Queue.Message.{Publishing, message, Confirmation, acked, nacked, unsent, unconfirmed}
use notifier.Queue.Topology.{direct_exchange}
use notifier.World.{World}
use notifier.Publisher.{
  Context, next_confirmation, taken, put_bus, publish_confirmed, publish_created,
  notification_publishing, confirmed_ids, burst_world, burst, publish_created_all,
}

In-append_left : (p : Publishing) (a b : List Publishing) → In p a → In p (a ++ b)
In-append_left p [] b m = absurd m
In-append_left p (x ∷ xs) b (inl e) = inl e
In-append_left p (x ∷ xs) b (inr m) = inr (In-append_left p xs b m)

In-append_last : (p : Publishing) (a : List Publishing) → In p (a ++ p ∷ [])
In-append_last p [] = inl refl
In-append_last p (x ∷ xs) = inr (In-append_last p xs)

-- The broker has a message with an identity on the exchange of the work queues.
abbrev pub HasTaken : ℕ → World → Type 0
HasTaken id w =
    (p : Publishing) × In p w.bus.published × (p.body ≡ message id) × (p.exchange ≡ direct_exchange)

taken-In :
    (c : Confirmation) (p q : Publishing) (ps : List Publishing) → In q ps → In q (taken c ps p)
taken-In acked p q ps m = In-append_left q ps _ m
taken-In unconfirmed p q ps m = In-append_left q ps _ m
taken-In _ p q ps m = m

-- A publish loses no message, and a confirmed one is there.
publish_created-HasTaken :
    (ctx : Context) (n : Notification) (w : World) (id : ℕ)
    → HasTaken id w
    → HasTaken id (publish_created ctx n w).1
unfolding publish_created publish_confirmed put_bus
publish_created-HasTaken ctx n w id (p, m, b, x) = (p, taken-In _ _ p _ m, b, x)

publish_created-acked :
    (ctx : Context) (n : Notification) (w : World)
    → next_confirmation w.bus.confirmations ≡ acked
    → HasTaken n.id (publish_created ctx n w).1
unfolding publish_created publish_confirmed put_bus notification_publishing
publish_created-acked ctx n w e =
    let p = notification_publishing ctx direct_exchange n in
    (p, rw e (In-append_last p w.bus.published), refl, refl)

burst_world-HasTaken :
    (c : Confirmation) (v u : World) (id : ℕ)
    → HasTaken id v
    → HasTaken id u
    → HasTaken id (burst_world c v u)
burst_world-HasTaken unsent v u id h k = h
burst_world-HasTaken _ v u id h k = k

burst-HasTaken :
    (ctx : Context) (ns : List Notification) (w : World) (id : ℕ)
    → HasTaken id w
    → HasTaken id (burst ctx ns w).1
unfolding burst
burst-HasTaken ctx [] w id h = h
burst-HasTaken ctx (n ∷ ns) w id h =
    let k = publish_created-HasTaken ctx n w id h in
    burst_world-HasTaken _ _ _ id k (burst-HasTaken ctx ns _ id k)

-- One confirmation of a burst: the message itself, then those that follow.
confirmed_ids-HasTaken :
    (c : Confirmation) (first id : ℕ) (ids : List ℕ) (v u : World)
    → (c ≡ acked → HasTaken first u)
    → (In id ids → HasTaken id u)
    → In id (confirmed_ids c first ids)
    → HasTaken id (burst_world c v u)
confirmed_ids-HasTaken acked first id ids v u f g (inl e) = subst (λ i. HasTaken i u) e (f refl)
confirmed_ids-HasTaken acked first id ids v u f g (inr m) = g m
confirmed_ids-HasTaken unsent first id ids v u f g m = absurd m
confirmed_ids-HasTaken nacked first id ids v u f g m = g m
confirmed_ids-HasTaken unconfirmed first id ids v u f g m = g m

burst-In :
    (ctx : Context) (ns : List Notification) (w : World) (id : ℕ)
    → In id (burst ctx ns w).0
    → HasTaken id (burst ctx ns w).1
unfolding burst
burst-In ctx [] w id m = absurd m
burst-In ctx (n ∷ ns) w id m =
    let v = (publish_created ctx n w).1 in
    confirmed_ids-HasTaken (next_confirmation w.bus.confirmations) n.id id _ v _
      (λ e. burst-HasTaken ctx ns v n.id (publish_created-acked ctx n w e))
      (λ k. burst-In ctx ns v id k) m

-- Every identity that a burst reports as confirmed stands in a message that the broker took on the
-- exchange of the work queues, whatever the broker answers to each publish.
pub publish_created_all-In :
    (ctx : Context) (ns : List Notification) (w : World) (id : ℕ)
    → In id (publish_created_all ctx ns w).0
    → HasTaken id (publish_created_all ctx ns w).1
unfolding publish_created_all
publish_created_all-In ctx ns w id m = burst-In ctx ns w id m
