-- ===== src/Service/Batch/Tally.antt =====
-- The counts of internal/service/batch.go: every item of a batch is reported exactly once.
use notifier.Base.{
  String, ℕ, suc, ◌+◌, ◌≡◌, refl, ap, subst, ◌∙◌, arith, true, false, List, [], ◌∷◌, ◌++◌, Option,
  none, some, length, length-append, if◌then◌else◌, All, All-append, inl, inr, Bool-cases,
}
use notifier.Domain.Errors.{Error, FieldError, Result, ok, err, as_validation}
use notifier.Domain.Notification.{Notification}
use notifier.Template.{Engine}
use notifier.World.{World}
use notifier.Storage.Table.{id_listed}
use notifier.Storage.Table.Evolves.{is_initial}
use notifier.Storage.Repository.{Outcome}
use notifier.Publisher.{Context}
use notifier.Service.Resolve.{CreateInput, Resolver, new_resolver, resolve_content}
use notifier.Service.Create.{Service, initial_status, new_notification}
use notifier.Service.Batch.{
  BatchItemResult, BatchResult, KeyMap, Progress, reject_item, accept_item, refuse, after_check,
  after_lookup, after_content, is_accepted, mark_item, mark_items, after_mark, publish_batch,
  after_copy, after_loop, next_item, after_keys, create_batch, no_progress,
}

-- How many items were accepted.
unfoldable pub count_accepted : List BatchItemResult → ℕ
count_accepted [] = 0
count_accepted (i ∷ is) = (if is_accepted i.status then 1 else 0) + count_accepted is

count_accepted-append :
    (a b : List BatchItemResult) → count_accepted (a ++ b) ≡ count_accepted a + count_accepted b
unfolding count_accepted
count_accepted-append [] b = omega arith
count_accepted-append (i ∷ is) b = omega (arith, count_accepted-append is b)

-- The loop after `k` items.
pub record IsTally (k : ℕ) (p : Progress) : Type 0 where
  pub reported : length p.results ≡ k
  pub counted : count_accepted p.results ≡ p.accepted_count
  pub complete : p.accepted_count + p.rejected_count ≡ k
  pub inserted : length p.to_insert ≡ p.accepted_count
  pub initial : All (λ n. is_initial n.status ≡ true) p.to_insert

abbrev pub HoldsOf {ℓ} : {A : Type ℓ} → (A → Type 0) → Result A → Type 0
HoldsOf P (ok a) = P a
HoldsOf P (err e) = Unit

pub no_progress-IsTally : (ks : KeyMap) → IsTally 0 (no_progress ks)
unfolding count_accepted
no_progress-IsTally ks = record {
  reported = refl;
  counted = refl;
  complete = omega arith;
  inserted = refl;
  initial = tt;
}

reject_item-IsTally :
    (k : ℕ) (p : Progress) (item : BatchItemResult)
    → is_accepted item.status ≡ false
    → IsTally k p
    → IsTally (k + 1) (reject_item item p)
unfolding reject_item count_accepted
reject_item-IsTally k p item r h = record {
  reported = length-append p.results (item ∷ []) ∙ omega (arith, h.reported);
  counted = count_accepted-append p.results (item ∷ []) ∙ rw r (omega (arith, h.counted));
  complete = omega (arith, h.complete);
  inserted = h.inserted;
  initial = h.initial;
}

accept_item-IsTally :
    (k : ℕ) (p : Progress) (n : Notification)
    → is_initial n.status ≡ true
    → IsTally k p
    → IsTally (k + 1) (accept_item k n p)
unfolding accept_item count_accepted
accept_item-IsTally k p n i h = record {
  reported = length-append p.results _ ∙ omega (arith, h.reported);
  counted = count_accepted-append p.results _ ∙ omega (arith, h.counted);
  complete = omega (arith, h.complete);
  inserted = length-append p.to_insert (n ∷ []) ∙ omega (arith, h.inserted);
  initial = All-append _ p.to_insert (n ∷ []) h.initial (i, tt);
}

refuse-IsTally :
    (label : String) (k : ℕ) (e : Error) (es : Option (List FieldError)) (p : Progress)
    → IsTally k p
    → HoldsOf (IsTally (k + 1)) (refuse label k e es p)
unfolding refuse
refuse-IsTally label k e none p h = tt
refuse-IsTally label k e (some es) p h = reject_item-IsTally k p _ refl h

after_check-IsTally :
    (k : ℕ) (n : Notification) (e : Option Error) (p : Progress)
    → is_initial n.status ≡ true
    → IsTally k p
    → HoldsOf (IsTally (k + 1)) (after_check k n e p)
unfolding after_check
after_check-IsTally k n none p i h = accept_item-IsTally k p n i h
after_check-IsTally k n (some e) p i h = refuse-IsTally _ k e (as_validation e) p h

after_lookup-IsTally :
    (now k : ℕ) (n : Notification) (o : Option ℕ) (p : Progress)
    → is_initial n.status ≡ true
    → IsTally k p
    → HoldsOf (IsTally (k + 1)) (after_lookup now k n o p)
unfolding after_lookup
after_lookup-IsTally now k n (some id) p i h = reject_item-IsTally k p _ refl h
after_lookup-IsTally now k n none p i h = after_check-IsTally k n _ _ i (record {
  reported = h.reported;
  counted = h.counted;
  complete = h.complete;
  inserted = h.inserted;
  initial = h.initial;
})

initial_status-initial : (t : Option ℕ) → is_initial (initial_status t) ≡ true
initial_status-initial none = refl
initial_status-initial (some t) = refl

pub after_content-IsTally :
    (now batch k : ℕ) (i : CreateInput) (r : Result String) (p : Progress) (w : World)
    → IsTally k p
    → HoldsOf (IsTally (k + 1)) (after_content now batch k i r p w).0
unfolding after_content new_notification
after_content-IsTally now batch k i (err e) p w h = refuse-IsTally _ k e (as_validation e) p h
after_content-IsTally now batch k i (ok c) p w h =
    after_lookup-IsTally now k _ _ p (initial_status-initial i.scheduled_at) h

-- A batch result that reports each of `k` items once.
pub record IsComplete (k : ℕ) (r : BatchResult) : Type 0 where
  pub reported : length r.results ≡ k
  pub counted : count_accepted r.results ≡ r.accepted_count
  pub complete : r.accepted_count + r.rejected_count ≡ k

mark_item-status :
    (ids : List ℕ) (i : BatchItemResult) (o : Option Notification) (w : World)
    → (mark_item ids i o w).0.status ≡ i.status
unfolding mark_item
mark_item-status ids i none w = refl
mark_item-status ids i (some n) w = elim (Bool-cases (id_listed n.id ids)) [
  | inl e ↦ rw e refl
  | inr e ↦ rw e refl
]

mark_items-count :
    (ids : List ℕ) (is : List BatchItemResult) (w : World)
    → (length (mark_items ids is w).0 ≡ length is)
      × (count_accepted (mark_items ids is w).0 ≡ count_accepted is)
unfolding mark_items count_accepted
mark_items-count ids [] w = (refl, refl)
mark_items-count ids (i ∷ is) w =
    let (l, c) = mark_items-count ids is (mark_item ids i i.notification w).1 in
    (ap suc l, rw (mark_item-status ids i i.notification w, c) refl)

after_mark-IsComplete :
    (k : ℕ) (r : BatchResult) (ids : List ℕ) (e : Outcome) (w : World)
    → IsComplete k r
    → IsComplete k (after_mark r ids e w).0
unfolding after_mark
after_mark-IsComplete k r ids (some e) w h = h
after_mark-IsComplete k r ids none w h =
    let (l, c) = mark_items-count ids r.results w in
    record { reported = l ∙ h.reported; counted = c ∙ h.counted; complete = h.complete }

after_loop-IsComplete :
    (s : Service) (ctx : Context) (batch k : ℕ) (r : Result Progress) (w : World)
    → HoldsOf (IsTally k) r
    → HoldsOf (IsComplete k) (after_loop s ctx batch r w).0
unfolding after_loop after_copy publish_batch
after_loop-IsComplete s ctx batch k (err e) w h = tt
after_loop-IsComplete s ctx batch k (ok p) w h = copied _ _
  where
    copied : (e : Outcome) (v : World) → HoldsOf (IsComplete k) (after_copy s ctx batch p e v).0
    copied (some e) v = tt
    copied none v =
        after_mark-IsComplete k _ _ _ _
          (record { reported = h.reported; counted = h.counted; complete = h.complete })

module _ (engine : Engine) (quote : String → String) (s : Service) where
  pub next_item-IsTally :
      (now batch k : ℕ) (is : List CreateInput) (r : Result Progress) (rs : Resolver engine quote)
      (w : World)
      → HoldsOf (IsTally k) r
      → HoldsOf (IsTally (k + length is)) (next_item engine quote s now batch k is r rs w).0
  unfolding next_item
  next_item-IsTally now batch k is (err e) rs w h = tt
  next_item-IsTally now batch k [] (ok p) rs w h = subst (λ n. IsTally n p) (omega arith) h
  next_item-IsTally now batch k (i ∷ is) (ok p) rs w h =
      let (content, next, v) = resolve_content engine quote s.has_templates i rs w in
      let (q, u) = after_content now batch k i content p v in
      subst (λ n. HoldsOf (IsTally n) (next_item engine quote s now batch (k + 1) is q next u).0)
        (omega arith)
        (next_item-IsTally now batch (k + 1) is q next u
          (after_content-IsTally now batch k i content p v h))

  after_keys-IsComplete :
      (ctx : Context) (now batch : ℕ) (is : List CreateInput) (r : Result KeyMap) (w : World)
      → HoldsOf (IsComplete (length is)) (after_keys engine quote s ctx now batch is r w).0
  unfolding after_keys
  after_keys-IsComplete ctx now batch is (err e) w = tt
  after_keys-IsComplete ctx now batch is (ok ks) w =
      let e : 0 + length is ≡ length is = omega arith in
      after_loop-IsComplete s ctx batch (length is) _ _ (
        subst
          (λ n.
            HoldsOf (IsTally n)
              (next_item engine quote s now batch 0 is (ok (no_progress ks))
                (new_resolver engine quote) w).0)
          e
          (next_item-IsTally now batch 0 is (ok (no_progress ks)) (new_resolver engine quote) w
            (no_progress-IsTally ks)))

  -- A batch that is answered reports each of its items once: there is a result for each input, the
  -- accepted count is the number of results with the status accepted, and with the rejected count it
  -- makes up the number of inputs, whatever became of the publishing.
  pub create_batch-IsComplete :
      (ctx : Context) (is : List CreateInput) (w : World) (r : BatchResult)
      → (create_batch engine quote s ctx is w).0 ≡ ok r
      → (length r.results ≡ length is)
        × (count_accepted r.results ≡ r.accepted_count)
        × (r.accepted_count + r.rejected_count ≡ length is)
  unfolding create_batch
  create_batch-IsComplete ctx is w r h =
      let c : IsComplete (length is) r =
        subst (HoldsOf (IsComplete (length is))) h (after_keys-IsComplete ctx _ _ is _ _) in
      (c.reported, c.counted, c.complete)
