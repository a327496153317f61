-- ===== src/World/Quiet.antt =====
-- A world in which no query fails and no other process interferes: what the operations of
-- internal/storage/postgres/repository.go then do.
use notifier.Base.{String, ℕ, ◌≡◌, [], arith}
use notifier.Domain.Errors.{ok}
use notifier.Storage.Table.{Table, Statement, apply}
use notifier.World.{World, run_all, arrive, settle, exec, query}

abbrev pub IsQuiet : World → Type 0
IsQuiet w = w.turns ≡ []

pub arrive-quiet : (w : World) → IsQuiet w → arrive w ≡ w
unfolding arrive run_all
arrive-quiet w q = ground arith

pub exec-quiet :
    {A : Type 0} (label : String) (s : Statement) (reply : ℕ → Table → A) (w : World)
    → IsQuiet w
    → exec label s reply w ≡ (ok (reply w.now w.table), record w { table = apply s w.now w.table })
unfolding exec settle
exec-quiet label s reply w q = rw (arrive-quiet w q) (rw q)

pub query-quiet :
    {A : Type 0} (label : String) (read : ℕ → Table → A) (w : World)
    → IsQuiet w
    → query label read w ≡ (ok (read w.now w.table), w)
unfolding query settle
query-quiet label read w q = rw (arrive-quiet w q) (rw q)
