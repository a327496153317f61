-- ===== src/Storage/Control.antt =====
-- The row of the table worker_control, which internal/storage/postgres/control.go declares, and the
-- methods of internal/storage/postgres/repository.go that read and write it. The table always has its
-- row; each query meets its fate, as for the other tables.
use notifier.Base.{String, Bool, List, [], ◌∷◌}
use notifier.Domain.Errors.{Result, ok, err}
use notifier.Delivery.{rest}
use notifier.World.{Fate, served, refused, database_error}

pub record WorkerControl : Type 0 where
  pub paused : Bool
  pub provider_url : String

-- The row, and what becomes of the coming queries.
pub record ControlTable : Type 0 where
  pub row : WorkerControl
  pub fates : List Fate

abbrev pub next_fate : List Fate → Fate
next_fate [] = served
next_fate (f ∷ fs) = f

abbrev answered : {A : Type 0} → Fate → String → A → Result A
answered served label a = ok a
answered _ label a = err (database_error label)

abbrev pub row_after : Fate → WorkerControl → WorkerControl → WorkerControl
row_after refused before after = before
row_after _ before after = after

-- A SELECT and an UPDATE of the row.
unfoldable pub read_row :
    {A : Type 0} → String → (WorkerControl → A) → ControlTable → Result A × ControlTable
read_row label read t =
    (answered (next_fate t.fates) label (read t.row), record t { fates = rest t.fates })

unfoldable pub write_row :
    String → (WorkerControl → WorkerControl) → ControlTable → Result (Unit {0}) × ControlTable
write_row label write t =
    let fate = next_fate t.fates in
    (
      answered fate label tt,
      record { row = row_after fate t.row (write t.row); fates = rest t.fates },
    )

unfoldable pub worker_paused : ControlTable → Result Bool × ControlTable
worker_paused t = read_row "read worker pause flag" (λ r. r.paused) t

unfoldable pub set_worker_paused : Bool → ControlTable → Result (Unit {0}) × ControlTable
set_worker_paused paused t = write_row "set worker pause flag" (λ r. record r { paused = paused }) t

unfoldable pub provider_override : ControlTable → Result String × ControlTable
provider_override t = read_row "read provider override" (λ r. r.provider_url) t

unfoldable pub set_provider_override : String → ControlTable → Result (Unit {0}) × ControlTable
set_provider_override url t =
    write_row "set provider override" (λ r. record r { provider_url = url }) t
