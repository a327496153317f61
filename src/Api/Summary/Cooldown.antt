-- ===== src/Api/Summary/Cooldown.antt =====
-- An unreachable worker and internal/api/metrics_summary.go.
use notifier.Base.{
  String, ℕ, ◌+◌, ◌<◌, ◌≡◌, ◌≢◌, refl, Bool, true, false, List, [], ◌∷◌, Option, All, arith,
}
use notifier.Domain.Errors.{Error, Result, ok, err}
use notifier.Domain.Notification.{StatusCount}
use notifier.Api.Respond.{Response, status_code}
use notifier.Api.Summary.{
  worker_fetch_cooldown, Floats, MetricFamily, MetricsSummary, worker_fetch_allowed, with_worker,
  record_worker_fetch, serve,
}

module _ (floats : Floats) (quote : String → String) where
  abbrev Fetch : Type 0
  Fetch = Result (List (MetricFamily floats))

  -- Within the cooldown after a failure the worker is not asked.
  not_allowed :
      (last now : ℕ)
      → last ≢ 0
      → now < last + worker_fetch_cooldown
      → worker_fetch_allowed floats last now ≡ false
  unfolding worker_fetch_allowed
  not_allowed last now z h = ground arith

  with_worker-idle :
      (has_url : Bool) (last now : ℕ) (f g : Fetch) (s : MetricsSummary floats)
      → worker_fetch_allowed floats last now ≡ false
      → with_worker floats has_url last now f s ≡ with_worker floats has_url last now g s
  unfolding with_worker
  with_worker-idle true last now f g s h = rw h refl
  with_worker-idle false last now f g s h = refl

  failed_at :
      (last now : ℕ) (e : Error) (s : MetricsSummary floats)
      → worker_fetch_allowed floats last now ≡ true
      → with_worker floats true last now (err e) s ≡ (s, now)
  unfolding with_worker record_worker_fetch
  failed_at last now e s h = rw h refl

  -- A request: its time, the local metrics, what the worker would give, and the stored counts.
  pub record Poll : Type 0 where
    pub at : ℕ
    pub local : Fetch
    pub fetch : Fetch
    pub lifetime : Option (Result (List StatusCount))

  -- The requests in order, each with the time of failure that the one before it left.
  abbrev pub serve_all : ℕ → List Poll → List (Response (MetricsSummary floats)) × ℕ
  serve_all last [] = ([], last)
  serve_all last (p ∷ ps) =
      let (r, failed_at) = serve floats quote true last p.at p.local p.fetch p.lifetime in
      let (rs, end) = serve_all failed_at ps in (r ∷ rs, end)

  -- The same requests, for a worker that gives something else.
  abbrev pub with_fetches : (Poll → Fetch) → List Poll → List Poll
  with_fetches g [] = []
  with_fetches g (p ∷ ps) = record p { fetch = g p } ∷ with_fetches g ps

  serve-idle :
      (last now : ℕ) (local f g : Fetch) (lifetime : Option (Result (List StatusCount)))
      → worker_fetch_allowed floats last now ≡ false
      → (serve floats quote true last now local f lifetime
          ≡ serve floats quote true last now local g lifetime)
        × ((serve floats quote true last now local f lifetime).1 ≡ last)
  unfolding serve with_worker
  serve-idle last now (err x) f g lifetime h = (refl, refl)
  serve-idle last now (ok fs) f g lifetime h = (rw h refl, rw h refl)

  -- While the failure is too recent, the worker is asked by none of the requests.
  serve_all-idle :
      (last : ℕ) (g : Poll → Fetch) (ps : List Poll)
      → last ≢ 0
      → All (λ p. p.at < last + 5000000000) ps
      → (serve_all last (with_fetches g ps) ≡ serve_all last ps) × ((serve_all last ps).1 ≡ last)
  serve_all-idle last g [] z h = (refl, refl)
  serve_all-idle last g (p ∷ ps) z h =
      let (same, kept) =
        serve-idle last p.at p.local (g p) p.fetch p.lifetime (not_allowed last p.at z h.0) in
      let (_, kept_too) =
        serve-idle last p.at p.local p.fetch p.fetch p.lifetime (not_allowed last p.at z h.0) in
      let (rest, end) = serve_all-idle last g ps z h.1 in
      (rw (same, kept_too, rest) refl, rw (kept_too, end) refl)

  -- If the local metrics can be gathered and the worker is asked and fails, the summary is answered with
  -- 200 all the same. Of the requests that follow within five seconds of the failure, however many, none
  -- asks the worker: all their answers are the same whatever it would give, and the time of the failure
  -- stays.
  pub serve-cooldown :
      (last now : ℕ) (families : List (MetricFamily floats)) (e : Error)
      (lifetime : Option (Result (List StatusCount))) (ps : List Poll) (g : Poll → Fetch)
      → worker_fetch_allowed floats last now ≡ true
      → now ≢ 0
      → All (λ p. p.at < now + 5000000000) ps
      → let z = serve floats quote true last now (ok families) (err e) lifetime in
        (status_code z.0 ≡ 200)
        × (serve_all z.1 (with_fetches g ps) ≡ serve_all z.1 ps)
        × ((serve_all z.1 ps).1 ≡ now)
  unfolding serve
  serve-cooldown last now families e lifetime ps g allowed z h =
      let (same, kept) = serve_all-idle now g ps z h in
      rw (failed_at last now e _ allowed) (refl, same, kept)
