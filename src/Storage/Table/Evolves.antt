-- ===== src/Storage/Table/Evolves.antt =====
-- How rows of the table `notifications` may change over time: the moves of internal/domain, seen
-- through internal/storage/postgres.
use notifier.Base.{
  In, inl, inr, ◌⊎◌, ◌≤◌, ◌≡◌, refl, sym, ap, subst, ◌∙◌, Bool, true, false, [], ◌∷◌, ◌++◌, arith,
  All, Bool-cases, String, ℕ, ◌+◌, Option, none, some,
}
use native.Mathlib.Nat.{le_trans, le_refl}
use notifier.Domain.Status.{
  Status, pending, scheduled, queued, processing, retrying, sent, failed, cancelled, can_transition,
}
use notifier.Domain.Status.Machine.{is_terminal, can_transition-terminal}
use notifier.Domain.Notification.{Notification}
use notifier.Storage.Table.{Table}

-- The statuses that an UPDATE gives with nothing else: by the services and by the scheduler.
abbrev pub is_parked : Status → Bool
is_parked queued = true
is_parked cancelled = true
is_parked _ = false

-- The statuses that a failed or lost attempt gives.
abbrev pub is_setback : Status → Bool
is_setback retrying = true
is_setback failed = true
is_setback _ = false

-- What one statement may make of a row r: a queued row keeps all but its time; a legal move to queued
-- or cancelled changes the status alone; a legal claim counts one attempt; and a row that is
-- processing is delivered, or set back with an error.
pub data Change (r q : Notification) : Type 0 where
  touched : (now : ℕ) → r.status ≡ queued → q ≡ record r { updated_at = now } → Change r q
  parked :
      (to : Status) (now : ℕ)
      → is_parked to ≡ true
      → can_transition r.status to ≡ true
      → q ≡ record r { status = to; updated_at = now }
      → Change r q
  claimed :
      (now : ℕ)
      → can_transition r.status processing ≡ true
      → q ≡ record r { status = processing; attempts = r.attempts + 1; updated_at = now }
      → Change r q
  delivered :
      (m : String) (at now : ℕ)
      → r.status ≡ processing
      → q ≡ record r {
        status = sent;
        provider_message_id = some m;
        sent_at = some at;
        updated_at = now;
      }
      → Change r q
  set_back :
      (to : Status) (e : String) (now : ℕ)
      → is_setback to ≡ true
      → r.status ≡ processing
      → q ≡ record r { status = to; last_error = some e; updated_at = now }
      → Change r q

-- Any number of changes, one after the other.
pub data Changes : Notification → Notification → Type 0 where
  same : (r : Notification) → Changes r r
  next : (r q : Notification) {p : Notification} → Change r q → Changes q p → Changes r p

Changes-trans : {a b c : Notification} → Changes a b → Changes b c → Changes a c
Changes-trans (same r) d = d
Changes-trans (next r q x c) d = next r q x (Changes-trans c d)

-- How a stored row may change, by any number of statements.
pub record Evolves (r q : Notification) : Type 0 where
  pub same_id : q.id ≡ r.id
  pub same_key : q.idempotency_key ≡ r.idempotency_key
  pub same_message :
      (q.recipient ≡ r.recipient)
      × (q.channel ≡ r.channel)
      × (q.content ≡ r.content)
      × (q.priority ≡ r.priority)
      × (q.batch_id ≡ r.batch_id)
      × (q.scheduled_at ≡ r.scheduled_at)
      × (q.created_at ≡ r.created_at)
  pub more_attempts : r.attempts ≤ q.attempts
  pub changes : Changes r q
  pub frozen : is_terminal r.status ≡ true → q ≡ r

pub Evolves-refl : (r : Notification) → Evolves r r
Evolves-refl r = record {
  same_id = refl;
  same_key = refl;
  same_message = (refl, refl, refl, refl, refl, refl, refl);
  more_attempts = omega arith;
  changes = same r;
  frozen = λ _. refl;
}

pub Evolves-trans : (a b c : Notification) → Evolves a b → Evolves b c → Evolves a c
Evolves-trans a b c e f = record {
  same_id = f.same_id ∙ e.same_id;
  same_key = f.same_key ∙ e.same_key;
  same_message = (
    f.same_message.0 ∙ e.same_message.0,
    f.same_message.1 ∙ e.same_message.1,
    f.same_message.2 ∙ e.same_message.2,
    f.same_message.3 ∙ e.same_message.3,
    f.same_message.4 ∙ e.same_message.4,
    f.same_message.5 ∙ e.same_message.5,
    f.same_message.6 ∙ e.same_message.6,
  );
  more_attempts = le_trans e.more_attempts f.more_attempts;
  changes = Changes-trans e.changes f.changes;
  frozen = λ h.
      let same = e.frozen h in
      f.frozen (subst (λ x. is_terminal x.status ≡ true) (sym same) h) ∙ same;
}

module _ (r q : Notification) where
  -- A change of the columns that statements assign.
  assigned-Evolves :
      (to : Status) (n now : ℕ) (e m : Option String) (at : Option ℕ)
      → r.attempts ≤ n
      → is_terminal r.status ≡ false
      → Change r q
      → q ≡ record r {
        status = to;
        attempts = n;
        last_error = e;
        provider_message_id = m;
        updated_at = now;
        sent_at = at;
      }
      → Evolves r q
  assigned-Evolves to n now e m at le h c a = record {
    same_id = ap (λ (z : Notification). z.id) a;
    same_key = ap (λ (z : Notification). z.idempotency_key) a;
    same_message = (
      ap (λ (z : Notification). z.recipient) a,
      ap (λ (z : Notification). z.channel) a,
      ap (λ (z : Notification). z.content) a,
      ap (λ (z : Notification). z.priority) a,
      ap (λ (z : Notification). z.batch_id) a,
      ap (λ (z : Notification). z.scheduled_at) a,
      ap (λ (z : Notification). z.created_at) a,
    );
    more_attempts = omega (arith, ap (λ (z : Notification). z.attempts) a, le);
    changes = next r q c (same q);
    frozen = λ t. absurd (cc);
  }

  open_status : (to : Status) → can_transition r.status to ≡ true → is_terminal r.status ≡ false
  open_status to h = elim (Bool-cases (is_terminal r.status)) [
    | inl t ↦ absurd (can_transition-terminal r.status to t h)
    | inr t ↦ t
  ]

  pub Change-Evolves : Change r q → Evolves r q
  Change-Evolves (touched now h a) =
      assigned-Evolves r.status r.attempts now r.last_error r.provider_message_id r.sent_at
        (le_refl r.attempts) (ap is_terminal h) (touched now h a) a
  Change-Evolves (parked to now k h a) =
      assigned-Evolves to r.attempts now r.last_error r.provider_message_id r.sent_at
        (le_refl r.attempts) (open_status to h) (parked to now k h a) a
  Change-Evolves (claimed now h a) =
      assigned-Evolves processing (r.attempts + 1) now r.last_error r.provider_message_id r.sent_at
        (omega arith) (open_status processing h) (claimed now h a) a
  Change-Evolves (delivered m at now h a) =
      assigned-Evolves sent r.attempts now r.last_error (some m) (some at) (le_refl r.attempts)
        (ap is_terminal h) (delivered m at now h a) a
  Change-Evolves (set_back to e now k h a) =
      assigned-Evolves to r.attempts now (some e) r.provider_message_id r.sent_at
        (le_refl r.attempts) (ap is_terminal h) (set_back to e now k h a) a

abbrev pub is_initial : Status → Bool
is_initial pending = true
is_initial scheduled = true
is_initial _ = false

-- A row as it is inserted.
abbrev pub IsFresh : Notification → Type 0
IsFresh n =
    (is_initial n.status ≡ true)
    × (n.attempts ≡ 0)
    × (n.last_error ≡ none)
    × (n.provider_message_id ≡ none)
    × (n.sent_at ≡ none)

-- A row that was inserted and has changed since.
abbrev pub IsNew : Notification → Type 0
IsNew q = (n : Notification) × IsFresh n × Evolves n q

-- One statement: each row of the first table is as it was or has changed once, and the rows behind
-- them are fresh.
abbrev pub Steps : Table → Table → Type 0
Steps [] new = All IsFresh new
Steps (r ∷ rs) [] = ⊥
Steps (r ∷ rs) (q ∷ qs) = ((q ≡ r) ⊎ Change r q) × Steps rs qs

pub Steps-refl : (t : Table) → Steps t t
Steps-refl [] = tt
Steps-refl (r ∷ rs) = (inl refl, Steps-refl rs)

pub Steps-add : (t new : Table) → All IsFresh new → Steps t (t ++ new)
Steps-add [] new h = h
Steps-add (r ∷ rs) new h = (inl refl, Steps-add rs new h)

-- The rows of the first table, each evolved, with new rows behind them.
abbrev pub Follows : Table → Table → Type 0
Follows [] new = All IsNew new
Follows (r ∷ rs) [] = ⊥
Follows (r ∷ rs) (q ∷ qs) = Evolves r q × Follows rs qs

pub Follows-refl : (t : Table) → Follows t t
Follows-refl [] = tt
Follows-refl (r ∷ rs) = (Evolves-refl r, Follows-refl rs)

IsNew-Follows : (a b : Table) → All IsNew a → Follows a b → All IsNew b
IsNew-Follows [] b h f = f
IsNew-Follows (r ∷ rs) [] h f = absurd f
IsNew-Follows (r ∷ rs) (q ∷ qs) h f =
    ((h.0.0, h.0.1, Evolves-trans _ _ _ h.0.2 f.0), IsNew-Follows rs qs h.1 f.1)

pub Follows-trans : (a b c : Table) → Follows a b → Follows b c → Follows a c
Follows-trans [] b c f g = IsNew-Follows b c f g
Follows-trans (r ∷ rs) [] c f g = absurd f
Follows-trans (r ∷ rs) (q ∷ qs) [] f g = absurd g
Follows-trans (r ∷ rs) (q ∷ qs) (p ∷ ps) f g =
    (Evolves-trans r q p f.0 g.0, Follows-trans rs qs ps f.1 g.1)

IsFresh-IsNew : (new : Table) → All IsFresh new → All IsNew new
IsFresh-IsNew [] h = tt
IsFresh-IsNew (n ∷ ns) h = ((n, h.0, Evolves-refl n), IsFresh-IsNew ns h.1)

pub Steps-Follows : (t u : Table) → Steps t u → Follows t u
Steps-Follows [] u h = IsFresh-IsNew u h
Steps-Follows (r ∷ rs) [] h = absurd h
Steps-Follows (r ∷ rs) (q ∷ qs) (inl e, h) =
    (subst (Evolves r) (sym e) (Evolves-refl r), Steps-Follows rs qs h)
Steps-Follows (r ∷ rs) (q ∷ qs) (inr c, h) = (Change-Evolves r q c, Steps-Follows rs qs h)

-- Every row of the first table is still there, evolved.
pub Follows-In :
    (t u : Table) (r : Notification)
    → Follows t u
    → In r t
    → (q : Notification) × In q u × Evolves r q
Follows-In [] u r f m = absurd m
Follows-In (x ∷ xs) [] r f m = absurd f
Follows-In (x ∷ xs) (y ∷ ys) r f (inl e) = (y, inl refl, subst (λ z. Evolves z y) e f.0)
Follows-In (x ∷ xs) (y ∷ ys) r f (inr m) = let (q, n, e) = Follows-In xs ys r f.1 m in (q, inr n, e)
