-- ===== src/Api/Dashboard/Override.antt =====
-- The override of the provider through internal/api/dashboard.go.
use notifier.Base.{
  String, ◌≡◌, ◌≢◌, Bool-cases, eq_iff, ◌≤◌, refl, ◌⊎◌, inl, inr, Bool, true, false, not, ◌&&◌,
  Option, none, some, str_eq, if◌then◌else◌, arith,
}
use notifier.World.{Fate, served, refused, reply_lost}
use notifier.Storage.Control.{
  ControlTable, next_fate, write_row, read_row, provider_override, set_provider_override,
}
use notifier.Api.Respond.{Response, json, status_code, write_error_response}
use notifier.Api.Dashboard.{
  ProviderStateResponse, UrlReader, state_of, is_absolute, provider_state, get_provider, after_set,
  set_target, set_provider,
}

module _ (quote : String → String) (urls : UrlReader) (default_provider : String) where
  -- What the workers can deliver to: the default, or an absolute http(s) URL.
  abbrev pub IsTarget : String → Type 0
  IsTarget url =
      (url ≡ "")
      ⊎ ((scheme : String) × (host : String) × (urls.parse_url url ≡ some (scheme, host))
          × ((scheme ≡ "http") ⊎ (scheme ≡ "https"))
          × (host ≢ ""))

  is_absolute-parts :
      (p : Option (String × String))
      → is_absolute quote urls default_provider p ≡ true
      → (scheme : String) × (host : String) × (p ≡ some (scheme, host))
        × ((scheme ≡ "http") ⊎ (scheme ≡ "https"))
        × (host ≢ "")
  is_absolute-parts none h = absurd (cc)
  is_absolute-parts (some (scheme, host)) h = (
    scheme,
    host,
    refl,
    elim (Bool-cases (str_eq scheme "http")) [
      | inl e ↦ inl ((eq_iff scheme "http").0 e)
      | inr e ↦ inr ((eq_iff scheme "https").0 (ground arith))
    ],
    λ e. let empty = (eq_iff host "").1 e in absurd (ground arith),
  )

  usable-IsTarget :
      (url : String)
      → (str_eq url "" ≡ true)
        ⊎ (is_absolute quote urls default_provider (urls.parse_url url) ≡ true)
      → IsTarget url
  usable-IsTarget url (inl e) = inl ((eq_iff url "").0 e)
  usable-IsTarget url (inr e) = inr (is_absolute-parts (urls.parse_url url) e)

  -- The row holds a target, and the answer shows the row as it is or is an error.
  pub record IsShown (z : Response ProviderStateResponse × ControlTable) : Type 0 where
    pub target : IsTarget z.1.row.provider_url
    pub shown :
        (z.0 ≡ json 200 (state_of quote urls default_provider z.1.row.provider_url))
        ⊎ (400 ≤ status_code z.0)

  get_provider-fate :
      (t : ControlTable) (f : Fate)
      → next_fate t.fates ≡ f
      → IsTarget t.row.provider_url
      → IsShown (get_provider quote urls default_provider t)
  unfolding get_provider provider_state provider_override read_row write_error_response
  get_provider-fate t served e h = record { target = h; shown = rw e (inl refl) }
  get_provider-fate t refused e h = record { target = h; shown = rw e (inr (omega arith)) }
  get_provider-fate t reply_lost e h = record { target = h; shown = rw e (inr (omega arith)) }

  set-fate :
      (target : String) (t : ControlTable) (f : Fate)
      → next_fate t.fates ≡ f
      → IsTarget t.row.provider_url
      → IsTarget target
      → let (r, u) = set_provider_override target t in
        IsShown (after_set quote urls default_provider r u)
  unfolding set_provider_override write_row after_set write_error_response
  set-fate target t served e h k = rw e (get_provider-fate _ _ refl k)
  set-fate target t refused e h k = rw e (record { target = h; shown = inr (omega arith) })
  set-fate target t reply_lost e h k = rw e (record { target = k; shown = inr (omega arith) })

  choose_lem :
      (b : Bool) (x y : Response ProviderStateResponse × ControlTable)
      → IsShown x
      → (b ≡ false → IsShown y)
      → IsShown (if b then x else y)
  choose_lem true x y f g = f
  choose_lem false x y f g = g refl

  set_target-IsShown :
      (target : String) (t : ControlTable)
      → IsTarget t.row.provider_url
      → IsShown (set_target quote urls default_provider target t)
  unfolding set_target write_error_response
  set_target-IsShown target t h =
      choose_lem _ _ _ (record { target = h; shown = inr (omega arith) })
        (λ e. set-fate target t _ refl h (usable-IsTarget target (usable (str_eq target "") _ e)))
    where
      usable : (a b : Bool) → (not a && not b) ≡ false → (a ≡ true) ⊎ (b ≡ true)
      usable true b e = inl refl
      usable false true e = inr refl
      usable false false e = absurd (cc)

  -- Whatever body a request to set the provider has and whatever fails: if the stored override was empty
  -- or an absolute http(s) URL it is one afterwards, and the answer is an error from 400 on or a 200 that
  -- shows the override that is then stored, with the default as effective exactly where it is empty.
  pub set_provider-IsShown :
      (body : Option String) (t : ControlTable)
      → IsTarget t.row.provider_url
      → IsShown (set_provider quote urls default_provider body t)
  unfolding set_provider write_error_response
  set_provider-IsShown none t h = record { target = h; shown = inr (omega arith) }
  set_provider-IsShown (some url) t h = set_target-IsShown (urls.trim_space url) t h
