-- ===== src/Examples/OfStorage.antt =====
-- The laws of the repository's statements, applied to three rows.
use notifier.Base.{
  pos, inl, some, none, ◌++◌, ◌+◌, ◌≤◌, ◌<◌, length, ◌≡◌, refl, sym, ◌∙◌, true, [], ◌∷◌, In,
}
use notifier.Domain.Status.{
  retrying, sent, other_status, other_channel, pending, queued, processing, has_status,
  statuses_allowed_into,
}
use notifier.Domain.Status.Machine.{has_status-statuses_allowed_into}
use notifier.Domain.Notification.{Notification}
use notifier.Domain.Errors.{ok}
use notifier.Storage.Table.{
  is_due, is_stuck, Statement, insert, claim, apply, assign, affected, guard,
}
use notifier.Storage.Table.Keys.{IsKeyed, apply-IsKeyed}
use notifier.Storage.Table.Evolves.{Steps}
use notifier.Storage.Table.Legal.{IsIssued, apply-Steps}
use notifier.Storage.Repository.{
  claim_due_for_queue, recover_stale_processing, claimed, claim_for_processing,
}
use notifier.Storage.Repository.Claim.{claim_for_processing-ok}
use notifier.World.{World, arrive, exec, settle}
use notifier.Domain.List.{ListQuery}
use notifier.Storage.Listing.{list_rows}
use notifier.Storage.Listing.Next.{next_page, list_rows-next_page}
use notifier.Service.Listing.{list, list-length}
use notifier.Storage.Repository.Due.{IsDue, claim_due_for_queue-In, recover_stale_processing-In}
use notifier.Examples.Data.{
  calm-IsSound, world_with, row, keyed_row, three_rows, three_rows-IsKeyed, calm,
}

abbrev work_claim : Statement
work_claim = claim 2 (statuses_allowed_into processing)

work_claim-IsIssued : IsIssued work_claim
work_claim-IsIssued s h = sym (has_status-statuses_allowed_into s processing) ∙ h

apply-IsKeyed_example : IsKeyed (apply (insert (keyed_row 4 pending "k")) 100 three_rows)
apply-IsKeyed_example =
    apply-IsKeyed (insert (keyed_row 4 pending "k")) 100 three_rows three_rows-IsKeyed

apply-Steps_example : Steps three_rows (apply work_claim 100 three_rows)
apply-Steps_example = apply-Steps work_claim 100 three_rows three_rows-IsKeyed work_claim-IsIssued

abbrev claimed_two : Notification
claimed_two = record (row 2 queued) { status = processing; attempts = 1; updated_at = 100 }

claimed_two_run : (claim_for_processing 2 (queued ∷ []) calm).0 ≡ ok claimed_two
unfolding claim_for_processing claimed exec settle affected arrive guard has_status assign
claimed_two_run = refl

claim_for_processing-ok_example :
    (r : Notification) × In r (arrive calm).table
    × (r.id ≡ 2)
    × (has_status r.status (queued ∷ []) ≡ true)
    × (claimed_two ≡ record r {
      status = processing;
      attempts = r.attempts + 1;
      updated_at = (arrive calm).now;
    })
claim_for_processing-ok_example =
    claim_for_processing-ok 2 (queued ∷ []) calm claimed_two claimed_two_run

-- Three rows of one instant, two on a page.
abbrev two_newest : ListQuery
two_newest = record {
  status = other_status "";
  channel = other_channel "";
  batch_id = none;
  from = none;
  to = none;
  limit = pos 2;
  cursor_created_at = none;
  cursor_id = none;
}

first_page : list_rows two_newest three_rows ≡ keyed_row 3 sent "k" ∷ row 2 queued ∷ []
unfolding list_rows notifier.Storage.Listing.newest_first notifier.Storage.Listing.insert_newest
    notifier.Storage.Listing.is_before notifier.Storage.Listing.passes
    notifier.Storage.Listing.passes_cursor
first_page = refl

list_rows-next_page_example :
    list_rows two_newest three_rows ++ list_rows (next_page two_newest (row 2 queued)) three_rows
    ≡ list_rows (record two_newest { limit = pos (2 + 2) }) three_rows
list_rows-next_page_example =
    list_rows-next_page two_newest three_rows (keyed_row 3 sent "k" ∷ []) (row 2 queued)
      three_rows-IsKeyed first_page

listed_run : (list two_newest calm).0 ≡ ok (keyed_row 3 sent "k" ∷ row 2 queued ∷ [])
unfolding list notifier.Service.Listing.clamp_limit notifier.Service.Listing.after_query_check
    notifier.Domain.List.validate_list notifier.Domain.List.list_errors
    notifier.Storage.Listing.list notifier.World.query settle arrive notifier.World.run_all
    list_rows notifier.Storage.Listing.newest_first notifier.Storage.Listing.insert_newest
    notifier.Storage.Listing.is_before notifier.Storage.Listing.passes
    notifier.Storage.Listing.passes_cursor
listed_run = refl

list-length_example : length (keyed_row 3 sent "k" ∷ row 2 queued ∷ []) ≤ 100
list-length_example =
    list-length two_newest calm (keyed_row 3 sent "k" ∷ row 2 queued ∷ []) listed_run

-- The first row has been pending since 10; at 100 it is due, and stale after 60.
abbrev due_one : Notification
due_one = record (row 1 queued) { updated_at = 100 }

due_run : (claim_due_for_queue 60 100 [] calm).0 ≡ ok (due_one ∷ [])
unfolding claim_due_for_queue exec settle affected arrive guard assign notifier.World.run_all
    notifier.Storage.Table.pick notifier.Storage.Table.sort_by notifier.Storage.Table.insert_by
    notifier.Storage.Table.is_due
due_run = refl

claim_due_for_queue-In_example :
    (r : Notification) × In r (arrive calm).table
    × IsDue 60 (arrive calm).now r
    × (due_one ≡ record r { status = queued; updated_at = (arrive calm).now })
claim_due_for_queue-In_example =
    claim_due_for_queue-In 60 100 [] calm (due_one ∷ []) due_one calm-IsSound due_run (inl refl)

-- A worker claimed the row at 10 and never came back.
abbrev stuck_one : Notification
stuck_one = record (row 1 processing) { attempts = 1 }

abbrev recovered_one : Notification
recovered_one = record stuck_one {
  status = retrying;
  last_error = some "recovered from stale processing";
  updated_at = 100;
}

abbrev stuck_world : World
stuck_world = world_with (stuck_one ∷ []) []

stuck_run : (recover_stale_processing 60 100 [] stuck_world).0 ≡ ok (recovered_one ∷ [])
unfolding recover_stale_processing exec settle affected arrive guard assign notifier.World.run_all
    notifier.Storage.Table.pick notifier.Storage.Table.sort_by notifier.Storage.Table.insert_by
    notifier.Storage.Table.is_stuck
stuck_run = refl

recover_stale_processing-In_example :
    (r : Notification) × In r (arrive stuck_world).table
    × (r.status ≡ processing)
    × (r.updated_at + 60 < (arrive stuck_world).now)
    × (recovered_one.status ≡ retrying)
    × (recovered_one.attempts ≡ r.attempts)
    × (recovered_one.id ≡ r.id)
recover_stale_processing-In_example =
    recover_stale_processing-In 60 100 [] stuck_world (recovered_one ∷ []) recovered_one
      (record { keyed = (refl, refl, tt); issued = tt }) stuck_run (inl refl)
