-- ===== src/Service/Batch.antt =====
-- internal/service/batch.go: creating many notifications under one batch, with the outcome of each
-- item. Go's map of known keys is a list of pairs, the latest first.
pub mod Tally
pub mod Safe
use notifier.Base.{
  String, ℕ, ◌+◌, Bool, true, false, ◌&&◌, List, [], ◌∷◌, ◌++◌, map, Option, none, some, ◌==◌,
  if◌then◌else◌,
}
use notifier.Domain.Status.{Status, pending, queued, status_eq}
use notifier.Domain.Errors.{
  Error, FieldError, as_validation, wrapped, Result, ok, err, decimal, texts,
}
use notifier.Domain.Notification.{Notification}
use notifier.Domain.Validate.{validate_new}
use notifier.Template.{Engine}
use notifier.World.{World}
use notifier.Storage.Table.{id_listed}
use notifier.Storage.Repository.{
  Outcome, create_batch as copy_rows, existing_idempotency_keys, mark_queued_bulk,
}
use notifier.Publisher.{Context, publish_created_all}
use notifier.Service.Resolve.{CreateInput, Resolver, new_resolver, cached, resolve_content}
use notifier.Service.Create.{Service, record_created, emit_event, new_notification, minted}

pub data BatchItemStatus : Type 0 where
  accepted rejected duplicate : BatchItemStatus

pub record BatchItemResult : Type 0 where
  pub index : ℕ
  pub status : BatchItemStatus
  pub notification : Option Notification
  pub existing_id : Option ℕ
  pub errors : List FieldError

pub record BatchResult : Type 0 where
  pub batch_id : ℕ
  pub accepted_count : ℕ
  pub rejected_count : ℕ
  pub results : List BatchItemResult

abbrev pub KeyMap : Type 0
KeyMap = List (String × ℕ)

-- The variables of the loop over the items.
pub record Progress : Type 0 where
  pub keys : KeyMap
  pub results : List BatchItemResult
  pub to_insert : List Notification
  pub accepted_count : ℕ
  pub rejected_count : ℕ

unfoldable pub reject_item : BatchItemResult → Progress → Progress
reject_item item p = record p {
  results = p.results ++ item ∷ [];
  rejected_count = p.rejected_count + 1;
}

abbrev pub rejected_item : ℕ → List FieldError → BatchItemResult
rejected_item index es = record {
  index = index;
  status = rejected;
  notification = none;
  existing_id = none;
  errors = es;
}

-- `existingID != uuid.Nil`
abbrev pub shown_id : ℕ → Option ℕ
shown_id id = if id == 0 then none else some id

abbrev pub duplicate_item : ℕ → ℕ → BatchItemResult
duplicate_item index id = record {
  index = index;
  status = duplicate;
  notification = none;
  existing_id = shown_id id;
  errors = [];
}

abbrev pub accepted_item : ℕ → Notification → BatchItemResult
accepted_item index n = record {
  index = index;
  status = accepted;
  notification = some n;
  existing_id = none;
  errors = [];
}

unfoldable pub accept_item : ℕ → Notification → Progress → Progress
accept_item index n p = record p {
  results = p.results ++ accepted_item index n ∷ [];
  to_insert = p.to_insert ++ n ∷ [];
  accepted_count = p.accepted_count + 1;
}

abbrev pub item_label : String → ℕ → String → String
item_label s index t = texts (s ∷ decimal index ∷ t ∷ [])

-- An error that is no list of field errors ends the batch.
unfoldable pub refuse : String → ℕ → Error → Option (List FieldError) → Progress → Result Progress
refuse label index e none p = err (wrapped label e)
refuse label index e (some es) p = ok (reject_item (rejected_item index es) p)

abbrev pub known_key : Option String → KeyMap → Option ℕ
known_key none ks = none
known_key (some k) ks = cached k ks

abbrev pub track_key : Option String → ℕ → KeyMap → KeyMap
track_key none id ks = ks
track_key (some k) id ks = (k, id) ∷ ks

unfoldable pub after_check : ℕ → Notification → Option Error → Progress → Result Progress
after_check index n none p = ok (accept_item index n p)
after_check index n (some e) p =
    refuse (item_label "validate batch item " index "") index e (as_validation e) p

-- The key is looked up, and tracked before the notification is validated.
unfoldable pub after_lookup : ℕ → ℕ → Notification → Option ℕ → Progress → Result Progress
after_lookup now index n (some id) p = ok (reject_item (duplicate_item index id) p)
after_lookup now index n none p =
    after_check index n (validate_new n now)
      (record p { keys = track_key n.idempotency_key n.id p.keys })

-- An identifier is drawn once the content is there.
unfoldable pub after_content :
    ℕ → ℕ → ℕ → CreateInput → Result String → Progress → World → Result Progress × World
after_content now batch index input (err e) p w =
    (refuse (item_label "resolve batch item " index " content") index e (as_validation e) p, w)
after_content now batch index input (ok content) p w =
    let n = new_notification w.next_id input content now (some batch) in
    (after_lookup now index n (known_key n.idempotency_key p.keys) p, minted w)

abbrev item_keys : List CreateInput → List String
item_keys [] = []
item_keys (i ∷ is) = elim i.idempotency_key [ none ↦ item_keys is | some k ↦ k ∷ item_keys is ]

unfoldable pub record_all : Service → List Notification → World → World
record_all s [] w = w
record_all s (n ∷ ns) w = record_all s ns (record_created s n w)

abbrev pub is_accepted : BatchItemStatus → Bool
is_accepted accepted = true
is_accepted _ = false

-- The immediate notifications among the accepted ones.
unfoldable pub to_publish : List BatchItemResult → List Notification
to_publish [] = []
to_publish (item ∷ items) =
    let more = to_publish items in
    elim item.notification [
      | none ↦ more
      | some n ↦ if is_accepted item.status && status_eq n.status pending then n ∷ more else more
    ]

-- The confirmed items become queued in the result, each with an event.
unfoldable pub mark_item :
    List ℕ → BatchItemResult → Option Notification → World → BatchItemResult × World
mark_item confirmed item none w = (item, w)
mark_item confirmed item (some n) w =
    if id_listed n.id confirmed
    then (let q = record n { status = queued } in
        (record item { notification = some q }, emit_event q queued w))
    else (item, w)

unfoldable pub mark_items : List ℕ → List BatchItemResult → World → List BatchItemResult × World
mark_items confirmed [] w = ([], w)
mark_items confirmed (item ∷ items) w =
    let (i, v) = mark_item confirmed item item.notification w in
    let (is, u) = mark_items confirmed items v in (i ∷ is, u)

unfoldable pub after_mark : BatchResult → List ℕ → Outcome → World → BatchResult × World
after_mark result confirmed (some e) w = (result, w)
after_mark result confirmed none w =
    let (items, v) = mark_items confirmed result.results w in (record result { results = items }, v)

-- Publishing comes after the insertion, and no failure of it is an error of the batch.
unfoldable pub publish_batch : Context → BatchResult → World → BatchResult × World
publish_batch ctx result w =
    let (confirmed, v) = publish_created_all ctx (to_publish result.results) w in
    let (e, u) = mark_queued_bulk confirmed v in after_mark result confirmed e u

abbrev pub batch_result : ℕ → Progress → BatchResult
batch_result batch p = record {
  batch_id = batch;
  accepted_count = p.accepted_count;
  rejected_count = p.rejected_count;
  results = p.results;
}

unfoldable pub after_copy :
    Service → Context → ℕ → Progress → Outcome → World → Result BatchResult × World
after_copy s ctx batch p (some e) w = (err (wrapped "insert batch" e), w)
after_copy s ctx batch p none w =
    let (r, v) = publish_batch ctx (batch_result batch p) (record_all s p.to_insert w) in (ok r, v)

unfoldable pub after_loop :
    Service → Context → ℕ → Result Progress → World → Result BatchResult × World
after_loop s ctx batch (err e) w = (err e, w)
after_loop s ctx batch (ok p) w =
    let (e, v) = copy_rows p.to_insert w in after_copy s ctx batch p e v

abbrev pub no_progress : KeyMap → Progress
no_progress ks = record {
  keys = ks;
  results = [];
  to_insert = [];
  accepted_count = 0;
  rejected_count = 0;
}

module _ (engine : Engine) (quote : String → String) (s : Service) where
  -- The loop: the items so far, the resolver and the world are handed on.
  unfoldable pub next_item :
      ℕ
      → ℕ
      → ℕ
      → List CreateInput
      → Result Progress
      → Resolver engine quote
      → World
      → Result Progress × World
  next_item now batch index inputs (err e) rs w = (err e, w)
  next_item now batch index [] (ok p) rs w = (ok p, w)
  next_item now batch index (i ∷ is) (ok p) rs w =
      let (content, next, v) = resolve_content engine quote s.has_templates i rs w in
      let (q, u) = after_content now batch index i content p v in
      next_item now batch (index + 1) is q next u

  unfoldable pub after_keys :
      Context → ℕ → ℕ → List CreateInput → Result KeyMap → World → Result BatchResult × World
  after_keys ctx now batch inputs (err e) w = (err (wrapped "check batch idempotency keys" e), w)
  after_keys ctx now batch inputs (ok ks) w =
      let (p, v) =
        next_item now batch 0 inputs (ok (no_progress ks)) (new_resolver engine quote) w in
      after_loop s ctx batch p v

  -- `CreateBatch`
  unfoldable pub create_batch : Context → List CreateInput → World → Result BatchResult × World
  create_batch ctx inputs w =
      let (ks, v) = existing_idempotency_keys (item_keys inputs) (minted w) in
      after_keys ctx w.now w.next_id inputs ks v
