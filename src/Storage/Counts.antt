-- ===== src/Storage/Counts.antt =====
-- `CountNotificationStatuses` of internal/storage/postgres/repository.go.
use notifier.Base.{◌+◌, ◌&&◌, List, [], ◌∷◌, if◌then◌else◌}
use notifier.Domain.Errors.{Result}
use notifier.Domain.Status.{Channel, Status, channel_eq, status_eq}
use notifier.Domain.Notification.{StatusCount}
use notifier.Storage.Table.{Table}
use notifier.World.{World, query}

-- One row more in its group, which comes last if it is new; SQL leaves the order of the groups open.
unfoldable pub count_row : Channel → Status → List StatusCount → List StatusCount
count_row c s [] = record { channel = c; status = s; count = 1 } ∷ []
count_row c s (x ∷ xs) =
    let more = count_row c s xs in
    if channel_eq x.channel c && status_eq x.status s
    then record x { count = x.count + 1 } ∷ xs
    else x ∷ more

-- `GROUP BY channel, status`
unfoldable pub group_rows : Table → List StatusCount → List StatusCount
unfolding count_row
group_rows [] counts = counts
group_rows (r ∷ rs) counts = group_rows rs (count_row r.channel r.status counts)

-- `CountNotificationStatuses`
unfoldable pub count_notification_statuses : World → Result (List StatusCount) × World
unfolding group_rows
count_notification_statuses w = query "count notification statuses" (λ now t. group_rows t []) w
