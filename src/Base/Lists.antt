-- ===== src/Base/Lists.antt =====
-- Lists measured by native numbers, and predicates over lists.
use Prim.Native.Nat.{ℕ, zero, suc, ◌+◌, min}
use mathlib.Core.Path.{◌≡◌, refl, sym, subst}
use mathlib.Core.Logic.{◌⊎◌, inl, inr}
use mathlib.Core.Bool.{Bool, true, false, ◌||◌}
use mathlib.Core.List.{List, [], ◌∷◌, ◌++◌}
use mathlib.Core.Option.{Option, none, some}
use native.Mathlib.Omega.{arith}
use notifier.Base.Tests.{if◌then◌else◌, Bool-cases}

module _ {ℓ} {A : Type ℓ} where
  abbrev pub length : List A → ℕ
  length [] = 0
  length (x ∷ xs) = suc (length xs)

  abbrev pub get_elem? : List A → ℕ → Option A
  get_elem? [] i = none
  get_elem? (x ∷ xs) zero = some x
  get_elem? (x ∷ xs) (suc i) = get_elem? xs i

  abbrev pub take : ℕ → List A → List A
  take zero xs = []
  take (suc n) [] = []
  take (suc n) (x ∷ xs) = x ∷ take n xs

  abbrev pub drop : ℕ → List A → List A
  drop zero xs = xs
  drop (suc n) [] = []
  drop (suc n) (x ∷ xs) = drop n xs

  -- The elements that pass a test, and whether one does.
  abbrev pub select : (A → Bool) → List A → List A
  select p [] = []
  select p (x ∷ xs) = if p x then x ∷ select p xs else select p xs

  abbrev pub exists : (A → Bool) → List A → Bool
  exists p [] = false
  exists p (x ∷ xs) = p x || exists p xs

  abbrev pub All {κ} : (A → Type κ) → List A → Type κ
  All P [] = Unit
  All P (x ∷ xs) = P x × All P xs

  pub length-append : (xs ys : List A) → length (xs ++ ys) ≡ length xs + length ys
  length-append [] ys = omega arith
  length-append (x ∷ xs) ys = omega (arith, length-append xs ys)

  pub length-take : (n : ℕ) (xs : List A) → length (take n xs) ≡ min n (length xs)
  length-take zero xs = omega arith
  length-take (suc n) [] = omega arith
  length-take (suc n) (x ∷ xs) = omega (arith, length-take n xs)

-- Membership by recursion, and its use.
module _ {A : Type 0} where
  abbrev pub In : A → List A → Type 0
  In x [] = ⊥
  In x (y ∷ ys) = (y ≡ x) ⊎ In x ys

  pub In-take : (n : ℕ) (xs : List A) (x : A) → In x (take n xs) → In x xs
  In-take zero xs x m = absurd m
  In-take (suc n) [] x m = m
  In-take (suc n) (y ∷ ys) x (inl e) = inl e
  In-take (suc n) (y ∷ ys) x (inr m) = inr (In-take n ys x m)

  In-select_step :
      (p : A → Bool) (y : A) (ys : List A) (x : A) (b : Bool)
      → p y ≡ b
      → (In x (select p ys) → In x ys × (p x ≡ true))
      → In x (if b then y ∷ select p ys else select p ys)
      → In x (y ∷ ys) × (p x ≡ true)
  In-select_step p y ys x true e f (inl q) = (inl q, subst (λ z. p z ≡ true) q e)
  In-select_step p y ys x true e f (inr m) = (inr (f m).0, (f m).1)
  In-select_step p y ys x false e f m = (inr (f m).0, (f m).1)

  pub In-select : (p : A → Bool) (xs : List A) (x : A) → In x (select p xs) → In x xs × (p x ≡ true)
  In-select p [] x m = absurd m
  In-select p (y ∷ ys) x m = In-select_step p y ys x (p y) refl (In-select p ys x) m

  pub exists-In :
      (p : A → Bool) (xs : List A) → exists p xs ≡ true → (x : A) × In x xs × (p x ≡ true)
  exists-In p [] h = absurd (cc)
  exists-In p (y ∷ ys) h = elim (Bool-cases (p y)) [
    | inl e ↦ (y, inl refl, e)
    | inr e ↦ let (x, m, q) = exists-In p ys (ground arith) in (x, inr m, q)
  ]

  pub In-exists : (p : A → Bool) (xs : List A) (x : A) → In x xs → p x ≡ true → exists p xs ≡ true
  In-exists p (y ∷ ys) x (inl e) h = let q : p y ≡ true = subst (λ z. p z ≡ true) (sym e) h in rw q
  In-exists p (y ∷ ys) x (inr m) h = ground (arith, In-exists p ys x m h)
  In-exists p [] x m h = absurd m

  pub All-of-In {κ} : (P : A → Type κ) (xs : List A) → ((x : A) → In x xs → P x) → All P xs
  All-of-In P [] f = tt
  All-of-In P (x ∷ xs) f = (f x (inl refl), All-of-In P xs (λ y m. f y (inr m)))

  pub In-All {κ} : (P : A → Type κ) (xs : List A) (x : A) → All P xs → In x xs → P x
  In-All P (y ∷ ys) x h (inl e) = subst P e h.0
  In-All P (y ∷ ys) x h (inr m) = In-All P ys x h.1 m
  In-All P [] x h m = absurd m

  pub exists-append :
      (p : A → Bool) (xs ys : List A) → exists p (xs ++ ys) ≡ (exists p xs || exists p ys)
  exists-append p [] ys = refl
  exists-append p (x ∷ xs) ys = ground (arith, exists-append p xs ys)

  pub All-append {κ} : (P : A → Type κ) (xs ys : List A) → All P xs → All P ys → All P (xs ++ ys)
  All-append P [] ys h k = k
  All-append P (x ∷ xs) ys h k = (h.0, All-append P xs ys h.1 k)
