-- ===== src/Config/Settings.antt =====
-- One setting of internal/config/config.go: the value of a key, the role, and the lower bounds.
use notifier.Base.{
  String, ℕ, zero, suc, ◌≡◌, ◌↔◌, refl, sym, subst, ltb, ap, ◌∙◌, ◌⊎◌, inl, inr, Bool, true, false,
  Option, none, some, str_eq, if◌then◌else◌, ℤ, pos, negsuc, arith,
}
use notifier.Domain.Errors.{Result, ok, err, ◌>>=◌}
use notifier.Config.{
  Role, role_api, role_worker, role_all, other_role, role_of, Readers, Lookup, setting, parsed,
  known_role, at_least_one,
}

-- The parts of a chain that succeeds, handed on.
pub bind_ok :
    {A B : Type 0} {P : Type 0} (m : Result A) (f : A → Result B) (b : B)
    → ((a : A) → m ≡ ok a → f a ≡ ok b → P)
    → (m >>= f) ≡ ok b
    → P
bind_ok (ok a) f b k h = k a refl h
bind_ok (err e) f b k h = absurd (cc)

abbrev pub IsKnown : Role → Type 0
IsKnown (other_role s) = ⊥
IsKnown _ = Unit

abbrev pub IsPositive : ℤ → Type 0
IsPositive n = (k : ℕ) × (n ≡ pos (suc k))

module _ (rd : Readers) (lookup : Lookup) where
  -- The value of a key: the old one if it is not set, and otherwise what its text reads as.
  abbrev pub Reads : {A : Type 0} → (String → Option A) → String → A → A → Type 0
  Reads parse key old a =
      ((str_eq (lookup key) "" ≡ true) × (old ≡ a))
      ⊎ ((str_eq (lookup key) "" ≡ false) × (parse (lookup key) ≡ some a))

  abbrev pub ReadsRole : Role → Role → Type 0
  ReadsRole old r =
      ((str_eq (lookup "ROLE") "" ≡ true) × (old ≡ r))
      ⊎ ((str_eq (lookup "ROLE") "" ≡ false) × (role_of (lookup "ROLE") ≡ r) × IsKnown r)

  set_iff :
      {A : Type 0} (key : String) (old a : A) (unset : Bool) (o : Option A)
      → ((if unset then ok old else parsed rd lookup key o) ≡ ok a)
        ↔ (((unset ≡ true) × (old ≡ a)) ⊎ ((unset ≡ false) × (o ≡ some a)))
  set_iff key old a true o =
      (λ h. inl (refl, cc), λ r. elim r [ inl x ↦ ap ok x.1 | inr x ↦ absurd (cc) ])
  set_iff key old a false (some b) =
      (λ h. inr (refl, cc), λ r. elim r [ inl x ↦ absurd (cc) | inr x ↦ cc ])
  set_iff key old a false none =
      (λ h. absurd (cc), λ r. elim r [ inl x ↦ absurd (cc) | inr x ↦ absurd (cc) ])

  pub setting_iff :
      {A : Type 0} (parse : String → Option A) (key : String) (old a : A)
      → (setting rd lookup parse key old ≡ ok a) ↔ Reads parse key old a
  setting_iff parse key old a = set_iff key old a (str_eq (lookup key) "") (parse (lookup key))

  accepted_role_iff :
      (old s r : Role)
      → IsKnown s
      → known_role rd lookup (lookup "ROLE") s ≡ ok s
      → (known_role rd lookup (lookup "ROLE") s ≡ ok r)
        ↔ (((false ≡ true) × (old ≡ r)) ⊎ ((false ≡ false) × (s ≡ r) × IsKnown r))
  accepted_role_iff old s r k e = (
    λ h. let same : s ≡ r = cc in inr (refl, same, subst IsKnown same k),
    λ x. elim x [ inl y ↦ absurd (cc) | inr (f, same, l) ↦ e ∙ ap ok same ],
  )

  pub role_iff :
      (old r : Role) (unset : Bool) (s : Role)
      → ((if unset then ok old else known_role rd lookup (lookup "ROLE") s) ≡ ok r)
        ↔ (((unset ≡ true) × (old ≡ r)) ⊎ ((unset ≡ false) × (s ≡ r) × IsKnown r))
  role_iff old r true s =
      (λ h. inl (refl, cc), λ x. elim x [ inl y ↦ ap ok y.1 | inr y ↦ absurd (cc) ])
  role_iff old r false (other_role t) = (
    λ h. absurd (cc),
    λ x. elim x [ inl y ↦ absurd (cc) | inr (e, same, k) ↦ absurd (subst IsKnown (sym same) k) ],
  )
  role_iff old r false role_api = accepted_role_iff old role_api r tt refl
  role_iff old r false role_worker = accepted_role_iff old role_worker r tt refl
  role_iff old r false role_all = accepted_role_iff old role_all r tt refl

  pub at_least_one_iff :
      (key : String) (n : ℤ) → (at_least_one rd lookup key n ≡ ok tt) ↔ IsPositive n
  at_least_one_iff key (pos zero) = (λ h. absurd (cc), λ (k, h). absurd (cc))
  at_least_one_iff key (pos (suc n)) =
      let h : ltb (suc n) 1 ≡ false = ground arith in (λ e. (n, refl), λ p. rw h refl)
  at_least_one_iff key (negsuc n) = (λ h. absurd (cc), λ (k, h). absurd (cc))
