-- ===== src/Service/Batch/Safe.antt =====
-- What internal/service/batch.go does to the database: a batch is a safe step of the world.
use notifier.Base.{String, ℕ, ◌+◌, refl, List, [], ◌∷◌, Option, none, some, Bool-cases, inl, inr}
use notifier.Domain.Status.{queued}
use notifier.Domain.Errors.{Result, ok, err}
use notifier.Domain.Notification.{Notification}
use notifier.Template.{Engine}
use notifier.World.{World}
use notifier.World.Safe.{IsSound, Leads, IsSafe, IsSafe-refl, IsSafe-trans}
use notifier.Storage.Table.{id_listed}
use notifier.Storage.Repository.{Outcome}
use notifier.Storage.Repository.Safe.{
  create_batch-IsSafe, mark_queued_bulk-IsSafe, existing_idempotency_keys-IsSafe,
}
use notifier.Publisher.{Context}
use notifier.Publisher.Aside.{IsBusStep-IsSafe, publish_created_all-IsBusStep}
use notifier.Service.Resolve.{CreateInput, Resolver, resolve_content}
use notifier.Service.Create.{Service, minted}
use notifier.Service.Safe.{
  idle-IsSafe, record_created-IsSafe, emit_event-IsSafe, resolve_with-IsSafe,
}
use notifier.Service.Batch.{
  BatchItemResult, BatchResult, KeyMap, Progress, after_content, record_all, mark_item, mark_items,
  after_mark, publish_batch, after_copy, after_loop, next_item, no_progress, after_keys,
  create_batch,
}
use notifier.Service.Batch.Tally.{IsTally, HoldsOf, next_item-IsTally, no_progress-IsTally}

record_all-IsSafe :
    (s : Service) (ns : List Notification) (w : World) → IsSafe w (record_all s ns w)
unfolding record_all
record_all-IsSafe s [] w = IsSafe-refl w
record_all-IsSafe s (n ∷ ns) w =
    IsSafe-trans w _ _ (record_created-IsSafe s n w) (record_all-IsSafe s ns _)

mark_item-IsSafe :
    (ids : List ℕ) (i : BatchItemResult) (o : Option Notification) (w : World)
    → IsSafe w (mark_item ids i o w).1
unfolding mark_item
mark_item-IsSafe ids i none w = IsSafe-refl w
mark_item-IsSafe ids i (some n) w = elim (Bool-cases (id_listed n.id ids)) [
  | inl e ↦ rw e (emit_event-IsSafe _ queued w)
  | inr e ↦ rw e (IsSafe-refl w)
]

mark_items-IsSafe :
    (ids : List ℕ) (is : List BatchItemResult) (w : World) → IsSafe w (mark_items ids is w).1
unfolding mark_items
mark_items-IsSafe ids [] w = IsSafe-refl w
mark_items-IsSafe ids (i ∷ is) w =
    IsSafe-trans w _ _ (mark_item-IsSafe ids i i.notification w) (mark_items-IsSafe ids is _)

after_mark-IsSafe :
    (r : BatchResult) (ids : List ℕ) (e : Outcome) (w : World) → IsSafe w (after_mark r ids e w).1
unfolding after_mark
after_mark-IsSafe r ids (some e) w = IsSafe-refl w
after_mark-IsSafe r ids none w = mark_items-IsSafe ids r.results w

publish_batch-IsSafe :
    (ctx : Context) (r : BatchResult) (w : World) → IsSafe w (publish_batch ctx r w).1
unfolding publish_batch
publish_batch-IsSafe ctx r w =
    IsSafe-trans w _ _ (IsBusStep-IsSafe w _ (publish_created_all-IsBusStep ctx _ w))
      (IsSafe-trans _ _ _ (mark_queued_bulk-IsSafe _ _) (after_mark-IsSafe r _ _ _))

after_copy-IsSafe :
    (s : Service) (ctx : Context) (batch : ℕ) (p : Progress) (e : Outcome) (w : World)
    → IsSafe w (after_copy s ctx batch p e w).1
unfolding after_copy
after_copy-IsSafe s ctx batch p (some e) w = IsSafe-refl w
after_copy-IsSafe s ctx batch p none w =
    IsSafe-trans w _ _ (record_all-IsSafe s p.to_insert w) (publish_batch-IsSafe ctx _ _)

after_loop-IsSafe :
    (s : Service) (ctx : Context) (batch k : ℕ) (r : Result Progress) (w : World)
    → HoldsOf (IsTally k) r
    → IsSafe w (after_loop s ctx batch r w).1
unfolding after_loop
after_loop-IsSafe s ctx batch k (err e) w h = IsSafe-refl w
after_loop-IsSafe s ctx batch k (ok p) w h =
    IsSafe-trans w _ _ (create_batch-IsSafe p.to_insert w h.initial)
      (after_copy-IsSafe s ctx batch p _ _)

after_content-IsSafe :
    (now batch k : ℕ) (i : CreateInput) (r : Result String) (p : Progress) (w : World)
    → IsSafe w (after_content now batch k i r p w).1
unfolding after_content
after_content-IsSafe now batch k i (err e) p w = IsSafe-refl w
after_content-IsSafe now batch k i (ok c) p w = idle-IsSafe w (minted w) refl refl refl

module _ (engine : Engine) (quote : String → String) (s : Service) where
  next_item-IsSafe :
      (now batch k : ℕ) (is : List CreateInput) (r : Result Progress) (rs : Resolver engine quote)
      (w : World)
      → IsSafe w (next_item engine quote s now batch k is r rs w).1
  unfolding next_item resolve_content
  next_item-IsSafe now batch k is (err e) rs w = IsSafe-refl w
  next_item-IsSafe now batch k [] (ok p) rs w = IsSafe-refl w
  next_item-IsSafe now batch k (i ∷ is) (ok p) rs w =
      IsSafe-trans w _ _ (resolve_with-IsSafe engine quote s.has_templates i i.template rs w) (
        IsSafe-trans _ _ _ (after_content-IsSafe now batch k i _ p _)
          (next_item-IsSafe now batch (k + 1) is _ _ _))

  after_keys-IsSafe :
      (ctx : Context) (now batch : ℕ) (is : List CreateInput) (r : Result KeyMap) (w : World)
      → IsSafe w (after_keys engine quote s ctx now batch is r w).1
  unfolding after_keys
  after_keys-IsSafe ctx now batch is (err e) w = IsSafe-refl w
  after_keys-IsSafe ctx now batch is (ok ks) w =
      IsSafe-trans w _ _ (next_item-IsSafe now batch 0 is _ _ w) (
        after_loop-IsSafe s ctx batch _ _ _ (
          next_item-IsTally engine quote s now batch 0 is (ok (no_progress ks)) _ w
            (no_progress-IsTally ks)))

  -- From a sound world, a batch of any inputs leads to a sound world whose rows come from the first
  -- ones by legal moves, whatever fails and whatever statements of the code other processes run.
  pub create_batch-Leads :
      (ctx : Context) (is : List CreateInput) (w : World)
      → IsSound w
      → Leads w (create_batch engine quote s ctx is w).1
  unfolding create_batch
  create_batch-Leads ctx is w =
      IsSafe-trans w _ _ (idle-IsSafe w (minted w) refl refl refl) (
        IsSafe-trans _ _ _ (existing_idempotency_keys-IsSafe _ _)
          (after_keys-IsSafe ctx _ _ is _ _))
