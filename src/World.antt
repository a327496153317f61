-- ===== src/World.antt =====
-- The state that the processes of the service share: the database, the broker, the provider and the
-- clock, with what the environment is going to do. A handler is a function from a world to its
-- result and the next world.
pub mod Safe
pub mod Quiet
use notifier.Base.{String, ℕ, ◌+◌, Bool, true, false, List, [], ◌∷◌, ◌++◌, Option, none, some}
use notifier.Domain.Errors.{Error, external, wrapped, Result, ok, err}
use notifier.Domain.Notification.{Notification}
use notifier.Domain.Template.{Template}
use notifier.Queue.Message.{Bus}
use notifier.Delivery.{Provider, rest}
use notifier.Storage.Table.{Table, Statement, apply}

-- What becomes of one query: answered, refused with nothing done, or done with its answer lost.
pub data Fate : Type 0 where
  served refused reply_lost : Fate

-- What happens from one query to the next: time passes, the other processes run statements of
-- their own, and the query meets its fate.
pub record Turn : Type 0 where
  pub elapsed : ℕ
  pub others : List Statement
  pub fate : Fate

-- The counters of internal/observability/metrics.go that the handlers add to.
pub data Metric : Type 0 where
  created : String → String → Metric  -- channel, priority
  attempted : String → String → ℕ → Metric  -- channel, outcome, duration
  delivered : String → String → Metric  -- channel, status

pub record World : Type 0 where
  pub now : ℕ
  pub next_id : ℕ  -- what `uuid.New` gives next
  pub table : Table
  pub templates : List Template
  pub turns : List Turn
  pub bus : Bus
  pub provider : Provider
  pub waits : List (Option ℕ)  -- the coming waits for the rate limiter: how long, or cut short
  pub sends : List Notification  -- the notifications handed to the sender, in order
  pub metrics : List Metric

abbrev pub quiet_turn : Turn
quiet_turn = record { elapsed = 0; others = []; fate = served }

-- With no turn left the environment is quiet.
abbrev pub next_turn : List Turn → Turn
next_turn [] = quiet_turn
next_turn (t ∷ ts) = t

unfoldable pub run_all : List Statement → ℕ → Table → Table
run_all [] now t = t
run_all (s ∷ ss) now t = run_all ss now (apply s now t)

-- The world when the next query reaches the database.
unfoldable pub arrive : World → World
unfolding run_all
arrive w =
    let turn = next_turn w.turns in
    record w {
      now = w.now + turn.elapsed;
      table = run_all turn.others (w.now + turn.elapsed) w.table;
      turns = rest w.turns;
    }

abbrev pub database_error : String → Error
database_error label = wrapped label (external "database")

-- A query with its answer, the world if it was refused, and the world if it was done.
unfoldable pub settle : {A : Type 0} → Fate → String → A → World → World → Result A × World
settle served label a before after = (ok a, after)
settle refused label a before after = (err (database_error label), before)
settle reply_lost label a before after = (err (database_error label), after)

-- A statement that changes the table, with an answer read off the table before the change.
unfoldable pub exec : {A : Type 0} → String → Statement → (ℕ → Table → A) → World → Result A × World
exec label s reply w =
    let v = arrive w in
    settle (next_turn w.turns).fate label (reply v.now v.table) v
      (record v { table = apply s v.now v.table })

-- A SELECT.
unfoldable pub query : {A : Type 0} → String → (ℕ → Table → A) → World → Result A × World
query label read w =
    let v = arrive w in settle (next_turn w.turns).fate label (read v.now v.table) v v
