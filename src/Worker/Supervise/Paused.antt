-- ===== src/Worker/Supervise/Paused.antt =====
-- What the pause flag does to the supervision of internal/worker/consume.go.
use notifier.Base.{
  ◌≡◌, refl, ◌∙◌, Bool, true, false, List, [], ◌∷◌, Option, none, some, All, All-append,
  if◌then◌else◌,
}
use notifier.Domain.Errors.{Error}
use notifier.World.{World}
use notifier.Publisher.{Context}
use notifier.Worker.{Settings}
use notifier.Worker.Consume.{Settlement, requeued, handle_pooled}
use notifier.Worker.Supervise.{
  Stage, waiting, consuming, draining, returned, failed, Supervisor, Event, check, shutdown,
  pool_done, delivered, is_paused, on_check, on_shutdown, on_pool_done, on_event, on_delivery,
  supervise,
}

-- No look at the flag finds it cleared; a look that fails is none.
abbrev pub KeepsPaused : Event → Type 0
KeepsPaused (check (some false) opened) = ⊥
KeepsPaused _ = Unit

abbrev is_consuming : Stage → Bool
is_consuming consuming = true
is_consuming _ = false

record IsPaused (s : Supervisor) : Type 0 where
  known : s.last_paused ≡ true
  idle : is_consuming s.stage ≡ false

on_check-IsPaused :
    (stage : Stage) (opened : Option Error) (s : Supervisor)
    → s.last_paused ≡ true
    → s.stage ≡ stage
    → IsPaused (on_check stage opened s)
unfolding on_check
on_check-IsPaused waiting opened s k e = rw k (record { known = refl; idle = rw e refl })
on_check-IsPaused consuming opened s k e = rw k (record { known = refl; idle = refl })
on_check-IsPaused draining opened s k e = record { known = k; idle = rw e refl }
on_check-IsPaused returned opened s k e = record { known = k; idle = rw e refl }
on_check-IsPaused (failed x) opened s k e = record { known = k; idle = rw e refl }

on_shutdown-IsPaused :
    (stage : Stage) (s : Supervisor)
    → s.last_paused ≡ true
    → s.stage ≡ stage
    → IsPaused (on_shutdown stage s)
unfolding on_shutdown
on_shutdown-IsPaused waiting s k e = record { known = k; idle = refl }
on_shutdown-IsPaused consuming s k e = record { known = k; idle = refl }
on_shutdown-IsPaused draining s k e = record { known = k; idle = rw e refl }
on_shutdown-IsPaused returned s k e = record { known = k; idle = rw e refl }
on_shutdown-IsPaused (failed x) s k e = record { known = k; idle = rw e refl }

after_drain : (b : Bool) → is_consuming (if b then returned else waiting) ≡ false
after_drain true = refl
after_drain false = refl

on_pool_done-IsPaused :
    (stage : Stage) (s : Supervisor)
    → s.last_paused ≡ true
    → s.stage ≡ stage
    → IsPaused (on_pool_done stage s)
unfolding on_pool_done
on_pool_done-IsPaused consuming s k e = record { known = k; idle = refl }
on_pool_done-IsPaused draining s k e = record { known = k; idle = after_drain s.cancelled }
on_pool_done-IsPaused waiting s k e = record { known = k; idle = rw e refl }
on_pool_done-IsPaused returned s k e = record { known = k; idle = rw e refl }
on_pool_done-IsPaused (failed x) s k e = record { known = k; idle = rw e refl }

on_event-IsPaused :
    (e : Event) (s : Supervisor) → KeepsPaused e → IsPaused s → IsPaused (on_event e s)
unfolding on_event is_paused
on_event-IsPaused (check (some true) opened) s k h = on_check-IsPaused s.stage opened _ refl refl
on_event-IsPaused (check (some false) opened) s k h = absurd k
on_event-IsPaused (check none opened) s k h = on_check-IsPaused s.stage opened _ h.known refl
on_event-IsPaused shutdown s k h = on_shutdown-IsPaused s.stage _ h.known refl
on_event-IsPaused pool_done s k h = on_pool_done-IsPaused s.stage s h.known refl
on_event-IsPaused (delivered d) s k h = h

-- Nothing but requeues, and the world as it was.
abbrev pub IsIdle : World → List Settlement × World → Type 0
IsIdle w z = All (λ r. r ≡ requeued) z.0 × (z.1 ≡ w)

on_delivery-IsIdle :
    (st : Settings) (ctx : Context) (stage : Stage) (e : Event) (w : World)
    → is_consuming stage ≡ false
    → IsIdle w (on_delivery st ctx stage e w)
unfolding on_delivery handle_pooled
on_delivery-IsIdle st ctx consuming e w h = absurd (cc)
on_delivery-IsIdle st ctx draining (delivered d) w h = ((refl, tt), refl)
on_delivery-IsIdle st ctx draining (check a o) w h = (tt, refl)
on_delivery-IsIdle st ctx draining shutdown w h = (tt, refl)
on_delivery-IsIdle st ctx draining pool_done w h = (tt, refl)
on_delivery-IsIdle st ctx waiting e w h = (tt, refl)
on_delivery-IsIdle st ctx returned e w h = (tt, refl)
on_delivery-IsIdle st ctx (failed x) e w h = (tt, refl)

supervise-IsIdle :
    (st : Settings) (ctx : Context) (es : List Event) (s : Supervisor) (w : World)
    → All KeepsPaused es
    → IsPaused s
    → let z = supervise st ctx es s w in IsIdle w (z.1, z.2)
unfolding supervise
supervise-IsIdle st ctx [] s w k h = (tt, refl)
supervise-IsIdle st ctx (e ∷ es) s w k h =
    let (first, same) = on_delivery-IsIdle st ctx s.stage e w h.idle in
    let (more, end) =
      supervise-IsIdle st ctx es (on_event e s) _ k.1 (on_event-IsPaused e s k.0 h) in
    (All-append (λ r. r ≡ requeued) _ _ first more, end ∙ same)

check_delivers_nothing :
    (st : Settings) (ctx : Context) (stage : Stage) (a : Option Bool) (o : Option Error) (w : World)
    → on_delivery st ctx stage (check a o) w ≡ ([], w)
unfolding on_delivery
check_delivers_nothing st ctx consuming a o w = refl
check_delivers_nothing st ctx draining a o w = refl
check_delivers_nothing st ctx waiting a o w = refl
check_delivers_nothing st ctx returned a o w = refl
check_delivers_nothing st ctx (failed x) a o w = refl

-- After a look at the flag that finds it set, in whatever state a queue's supervision is: as long as no
-- later look finds it cleared, also if looks fail, the pool ends, deliveries arrive or the worker shuts
-- down, no message is processed: every delivery is requeued, and the world stays as it is.
pub supervise-paused :
    (st : Settings) (ctx : Context) (opened : Option Error) (es : List Event) (s : Supervisor)
    (w : World)
    → All KeepsPaused es
    → let z = supervise st ctx (check (some true) opened ∷ es) s w in IsIdle w (z.1, z.2)
unfolding supervise on_event is_paused
supervise-paused st ctx opened es s w k =
    rw (check_delivers_nothing st ctx s.stage (some true) opened w)
      (supervise-IsIdle st ctx es _ w k (on_check-IsPaused s.stage opened _ refl refl))
