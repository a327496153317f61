-- ===== src/Storage/Table.antt =====
-- The SQL of internal/storage/postgres/repository.go, as functions on the table `notifications` of
-- internal/storage/postgres/migrations: a statement is atomic, and `now` is the database's clock.
pub mod Keys
pub mod Evolves
pub mod Picks
pub mod Legal
use notifier.Base.{
  String, ℕ, ◌+◌, ◌*◌, ◌/◌, Bool, true, false, not, ◌&&◌, ◌||◌, List, [], ◌∷◌, ◌++◌, map, Option,
  none, some, ltb, leb, ◌==◌, if◌then◌else◌, str_eq, select, exists, take,
}
use notifier.Domain.Status.{
  Status, pending, scheduled, queued, processing, retrying, sent, status_eq, has_status,
  channel_valid, priority_valid, status_valid,
}
use notifier.Domain.Notification.{Notification}

abbrev pub Table : Type 0
Table = List Notification

pub data Statement : Type 0 where
  insert : Notification → Statement
  copy : List Notification → Statement
  set_status : ℕ → Status → List Status → Statement
  claim : ℕ → List Status → Statement
  record_outcome : ℕ → Status → String → Statement
  mark_sent : ℕ → String → ℕ → Statement
  mark_queued : List ℕ → Statement
  claim_due : ℕ → ℕ → List ℕ → Statement  -- the last list: the rows that SKIP LOCKED leaves out
  recover_stale : ℕ → ℕ → List ℕ → Statement
  touch_queued : ℕ → Statement

abbrev pub has_id : ℕ → Table → Bool
has_id id t = exists (λ r. r.id == id) t

abbrev pub id_listed : ℕ → List ℕ → Bool
id_listed id ids = exists (λ i. i == id) ids

-- `ORDER BY`, ascending in a number, equal ones in the order of the table.
unfoldable pub insert_by : (Notification → ℕ) → Notification → Table → Table
insert_by key r [] = r ∷ []
insert_by key r (x ∷ xs) = if leb (key r) (key x) then r ∷ x ∷ xs else x ∷ insert_by key r xs

unfoldable pub sort_by : (Notification → ℕ) → Table → Table
unfolding insert_by
sort_by key [] = []
sort_by key (r ∷ rs) = insert_by key r (sort_by key rs)

-- `scheduled_at <= now()`, which a NULL does not satisfy.
abbrev pub is_reached : Option ℕ → ℕ → Bool
is_reached none now = false
is_reached (some t) now = leb t now

-- The WHERE of `ClaimDueForQueue` and of `RecoverStaleProcessing`.
unfoldable pub is_due : ℕ → ℕ → Notification → Bool
is_due stale_after now r =
    (status_eq r.status scheduled && is_reached r.scheduled_at now)
    || (status_eq r.status pending && ltb (r.created_at + stale_after) now)

unfoldable pub is_stuck : ℕ → ℕ → Notification → Bool
is_stuck stale_after now r = status_eq r.status processing && ltb (r.updated_at + stale_after) now

-- The rows of a sub-select with a limit, less the locked ones.
unfoldable pub pick : (Notification → Bool) → (Notification → ℕ) → ℕ → List ℕ → Table → Table
unfolding sort_by
pick test key limit locked t =
    take limit (sort_by key (select (λ r. test r && not (id_listed r.id locked)) t))

-- A time in nanoseconds, as a parameter of the type TIMESTAMPTZ keeps it.
unfoldable pub microsecond : ℕ → ℕ
microsecond t = t / 1000 * 1000

abbrev pub microseconds : Option ℕ → Option ℕ
microseconds none = none
microseconds (some t) = some (microsecond t)

-- Which rows an UPDATE changes, and what it makes of one.
unfoldable pub guard : Statement → ℕ → Table → Notification → Bool
unfolding pick
guard (insert n) now t r = false
guard (copy ns) now t r = false
guard (set_status id to from) now t r = r.id == id && has_status r.status from
guard (claim id from) now t r = r.id == id && has_status r.status from
guard (record_outcome id to e) now t r = r.id == id && status_eq r.status processing
guard (mark_sent id m at) now t r = r.id == id && status_eq r.status processing
guard (mark_queued ids) now t r = id_listed r.id ids && status_eq r.status pending
guard (claim_due stale limit locked) now t r =
    has_id r.id (pick (is_due stale now) (λ q. q.created_at) limit locked t)
guard (recover_stale stale limit locked) now t r =
    has_id r.id (pick (is_stuck stale now) (λ q. q.updated_at) limit locked t)
guard (touch_queued id) now t r = r.id == id && status_eq r.status queued

unfoldable pub assign : Statement → ℕ → Notification → Notification
assign (insert n) now r = r
assign (copy ns) now r = r
assign (set_status id to from) now r = record r { status = to; updated_at = now }
assign (claim id from) now r = record r {
  status = processing;
  attempts = r.attempts + 1;
  updated_at = now;
}
assign (record_outcome id to e) now r = record r {
  status = to;
  last_error = some e;
  updated_at = now;
}
assign (mark_sent id m at) now r = record r {
  status = sent;
  provider_message_id = some m;
  sent_at = some (microsecond at);
  updated_at = now;
}
assign (mark_queued ids) now r = record r { status = queued; updated_at = now }
assign (claim_due stale limit locked) now r = record r { status = queued; updated_at = now }
assign (recover_stale stale limit locked) now r = record r {
  status = retrying;
  last_error = some "recovered from stale processing";
  updated_at = now;
}
assign (touch_queued id) now r = record r { updated_at = now }

abbrev pub update_where : (Notification → Bool) → (Notification → Notification) → Table → Table
update_where p f [] = []
update_where p f (r ∷ rs) = (if p r then f r else r) ∷ update_where p f rs

-- The columns that an INSERT names; the others take their defaults.
abbrev pub stored : Notification → Notification
stored n = record n {
  attempts = 0;
  last_error = none;
  provider_message_id = none;
  sent_at = none;
  scheduled_at = microseconds n.scheduled_at;
  created_at = microsecond n.created_at;
  updated_at = microsecond n.updated_at;
}

pub data Violation : Type 0 where
  bad_value id_taken key_taken : Violation

abbrev pub same_key : Option String → Option String → Bool
same_key (some k) (some j) = str_eq k j
same_key _ _ = false

-- The partial unique index `ux_notifications_idem`.
abbrev pub key_used : Option String → Table → Bool
key_used k t = exists (λ r. same_key r.idempotency_key k) t

-- The enumerations, the primary key and the unique index, in this order.
unfoldable pub check_insert : Notification → Table → Option Violation
check_insert n t =
    if channel_valid n.channel && (priority_valid n.priority && status_valid n.status)
    then (if has_id n.id t
        then some id_taken
        else if key_used n.idempotency_key t
        then some key_taken
        else none)
    else some bad_value

-- `COPY` in a transaction: the rows in order, and all or none.
unfoldable pub check_copy : List Notification → Table → Option Violation
unfolding check_insert
check_copy [] t = none
check_copy (n ∷ ns) t =
    let rest = check_copy ns (t ++ stored n ∷ []) in
    elim (check_insert n t) [ some v ↦ some v | none ↦ rest ]

unfoldable pub add_when {ℓ} : {A : Type ℓ} → Option Violation → List A → List A → List A
add_when none t new = t ++ new
add_when (some v) t new = t

unfoldable pub update : Statement → ℕ → Table → Table
update s now t = update_where (guard s now t) (assign s now) t

unfoldable pub apply : Statement → ℕ → Table → Table
unfolding add_when update
apply (insert n) now t = add_when (check_insert n t) t (stored n ∷ [])
apply (copy ns) now t = add_when (check_copy ns t) t (map stored ns)
apply s now t = update s now t

-- The rows that an UPDATE changed, as RETURNING gives them.
unfoldable pub affected : Statement → ℕ → Table → Table
affected s now t = map (assign s now) (select (guard s now t) t)
