-- ===== src/Domain/Regexp/Correct.antt =====
-- The matcher of internal/domain's patterns decides membership in the language of a pattern.
use notifier.Base.{
  ℕ, ◌≡◌, refl, sym, ap, subst, ◌∙◌, ◌↔◌, ◌⊎◌, inl, inr, Bool, true, false, List, [], ◌∷◌, ◌++◌,
  arith, Bool-cases, if◌then◌else◌,
}
use notifier.Domain.Regexp.{Regexp, never, empty, class, seq, alt, star, nullable, derive, matches}

-- Any number of non-empty pieces.
pub data Star (P : List ℕ → Type 0) : List ℕ → Type 0 where
  done : {xs : List ℕ} → xs ≡ [] → Star P xs
  again :
      {xs : List ℕ} (c : ℕ) (ys zs : List ℕ)
      → xs ≡ c ∷ (ys ++ zs)
      → P (c ∷ ys)
      → Star P zs
      → Star P xs

-- The language of a pattern.
abbrev pub Matches : Regexp → List ℕ → Type 0
Matches never xs = ⊥
Matches empty xs = xs ≡ []
Matches (class p) xs = (c : ℕ) × (p c ≡ true) × (xs ≡ c ∷ [])
Matches (seq r s) xs = (ys : List ℕ) × (zs : List ℕ) × (xs ≡ ys ++ zs) × Matches r ys × Matches s zs
Matches (alt r s) xs = Matches r xs ⊎ Matches s xs
Matches (star r) xs = Star (Matches r) xs

nullable_sound : (r : Regexp) → nullable r ≡ true → Matches r []
unfolding nullable
nullable_sound never h = absurd (cc)
nullable_sound empty h = refl
nullable_sound (class p) h = absurd (cc)
nullable_sound (seq r s) h =
    ([], [], refl, nullable_sound r (ground arith), nullable_sound s (ground arith))
nullable_sound (alt r s) h = elim (Bool-cases (nullable r)) [
  | inl e ↦ inl (nullable_sound r e)
  | inr e ↦ inr (nullable_sound s (ground arith))
]
nullable_sound (star r) h = done refl

nil-append : (ys zs : List ℕ) → [] ≡ ys ++ zs → (ys ≡ []) × (zs ≡ [])
nil-append [] zs e = (refl, sym e)
nil-append (y ∷ ys) zs e = absurd (cc)

nullable_complete : (r : Regexp) (xs : List ℕ) → xs ≡ [] → Matches r xs → nullable r ≡ true
unfolding nullable
nullable_complete never xs e m = absurd m
nullable_complete empty xs e m = refl
nullable_complete (class p) xs e (c, h, q) = absurd (cc)
nullable_complete (seq r s) xs e (ys, zs, q, a, b) =
    let (ey, ez) = nil-append ys zs (sym e ∙ q) in
    rw (nullable_complete r ys ey a, nullable_complete s zs ez b)
nullable_complete (alt r s) xs e (inl a) = rw (nullable_complete r xs e a)
nullable_complete (alt r s) xs e (inr b) = ground (arith, nullable_complete s xs e b)
nullable_complete (star r) xs e m = refl

class_sound :
    (c : ℕ) (p : ℕ → Bool) (xs : List ℕ) (b : Bool)
    → p c ≡ b
    → Matches (if b then empty else never) xs
    → Matches (class p) (c ∷ xs)
class_sound c p xs true h e = (c, h, ap (◌∷◌ c) e)
class_sound c p xs false h m = absurd m

-- What `derive` makes of a sequence, for either answer of `nullable`.
abbrev seq_step : Bool → ℕ → Regexp → Regexp → Regexp
seq_step b c r s = if b then alt (seq (derive c r) s) (derive c s) else seq (derive c r) s

seq_step_sound :
    (c : ℕ) (r s : Regexp) (xs : List ℕ) (b : Bool)
    → nullable r ≡ b
    → ((ys : List ℕ) → Matches (derive c r) ys → Matches r (c ∷ ys))
    → ((ys : List ℕ) → Matches (derive c s) ys → Matches s (c ∷ ys))
    → Matches (seq_step b c r s) xs
    → Matches (seq r s) (c ∷ xs)
seq_step_sound c r s xs true h f g (inl (ys, zs, e, a, b)) = (c ∷ ys, zs, ap (◌∷◌ c) e, f ys a, b)
seq_step_sound c r s xs true h f g (inr d) = ([], c ∷ xs, refl, nullable_sound r h, g xs d)
seq_step_sound c r s xs false h f g (ys, zs, e, a, b) = (c ∷ ys, zs, ap (◌∷◌ c) e, f ys a, b)

derive_sound : (c : ℕ) (r : Regexp) (xs : List ℕ) → Matches (derive c r) xs → Matches r (c ∷ xs)
unfolding derive
derive_sound c never xs m = m
derive_sound c empty xs m = absurd m
derive_sound c (class p) xs m = class_sound c p xs (p c) refl m
derive_sound c (seq r s) xs m =
    seq_step_sound c r s xs (nullable r) refl (derive_sound c r) (derive_sound c s) m
derive_sound c (alt r s) xs (inl a) = inl (derive_sound c r xs a)
derive_sound c (alt r s) xs (inr b) = inr (derive_sound c s xs b)
derive_sound c (star r) xs (ys, zs, e, a, b) =
    again c ys zs (ap (◌∷◌ c) e) (derive_sound c r ys a) b

cons-injective : {c d : ℕ} {xs ys : List ℕ} → c ∷ xs ≡ d ∷ ys → (c ≡ d) × (xs ≡ ys)
cons-injective e = (cc, cc)

seq_step_complete :
    (c : ℕ) (r s : Regexp) (xs : List ℕ) (b : Bool)
    → nullable r ≡ b
    → ((ys : List ℕ) → Matches r (c ∷ ys) → Matches (derive c r) ys)
    → ((ys : List ℕ) → Matches s (c ∷ ys) → Matches (derive c s) ys)
    → Matches (seq r s) (c ∷ xs)
    → Matches (seq_step b c r s) xs
seq_step_complete c r s xs true h f g ([], zs, e, a, m) = inr (g xs (subst (Matches s) (sym e) m))
seq_step_complete c r s xs false h f g ([], zs, e, a, m) =
    absurd (cc (nullable_complete r [] refl a))
seq_step_complete c r s xs true h f g (d ∷ ys, zs, e, a, m) = inl (
  ys,
  zs,
  (cons-injective e).1,
  f ys (subst (λ k. Matches r (k ∷ ys)) (sym (cons-injective e).0) a),
  m,
)
seq_step_complete c r s xs false h f g (d ∷ ys, zs, e, a, m) = (
  ys,
  zs,
  (cons-injective e).1,
  f ys (subst (λ k. Matches r (k ∷ ys)) (sym (cons-injective e).0) a),
  m,
)

derive_complete : (c : ℕ) (r : Regexp) (xs : List ℕ) → Matches r (c ∷ xs) → Matches (derive c r) xs
unfolding derive
derive_complete c never xs m = m
derive_complete c empty xs m = absurd (cc)
derive_complete c (class p) xs (d, h, e) =
    let q : p c ≡ true = subst (λ k. p k ≡ true) (sym (cons-injective e).0) h in
    rw q (cons-injective e).1
derive_complete c (seq r s) xs m =
    seq_step_complete c r s xs (nullable r) refl (derive_complete c r) (derive_complete c s) m
derive_complete c (alt r s) xs (inl a) = inl (derive_complete c r xs a)
derive_complete c (alt r s) xs (inr b) = inr (derive_complete c s xs b)
derive_complete c (star r) xs (done e) = absurd (cc)
derive_complete c (star r) xs (again d ys zs e a m) = (
  ys,
  zs,
  (cons-injective e).1,
  derive_complete c r ys (subst (λ k. Matches r (k ∷ ys)) (sym (cons-injective e).0) a),
  m,
)

-- The matcher accepts a text exactly when the text belongs to the language of the pattern.
pub matches_iff : (r : Regexp) (xs : List ℕ) → (matches r xs ≡ true) ↔ Matches r xs
unfolding matches
matches_iff r [] = (nullable_sound r, nullable_complete r [] refl)
matches_iff r (c ∷ xs) =
    let (to, from) = matches_iff (derive c r) xs in
    (λ h. derive_sound c r xs (to h), λ m. from (derive_complete c r xs m))
