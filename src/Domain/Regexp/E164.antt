-- ===== src/Domain/Regexp/E164.antt =====
-- The pattern of phone numbers in internal/domain/validate.go: what it accepts.
use notifier.Base.{
  String, ℕ, zero, suc, ◌+◌, ◌≤◌, ◌≡◌, refl, sym, ap, subst, ◌∙◌, ◌↔◌, inl, inr, true, List, [],
  ◌∷◌, ◌++◌, arith, All, length, length-append,
}
use notifier.Domain.Regexp.{class, times, up_to, is_digit, e164_pattern, codes, match_string}
use notifier.Domain.Regexp.Correct.{Matches, matches_iff}
use notifier.Domain.Validate.{is_e164}

abbrev pub IsDigit : ℕ → Type 0
IsDigit c = (48 ≤ c) × (c ≤ 57)

-- A plus, a digit from 1 to 9, and from 6 to 14 further digits.
abbrev pub IsE164 : List ℕ → Type 0
IsE164 cs =
    (d : ℕ) × (ds : List ℕ) × (cs ≡ b'+' ∷ d ∷ ds)
    × ((49 ≤ d) × (d ≤ 57))
    × All IsDigit ds
    × (6 ≤ length ds)
    × (length ds ≤ 14)

All-append : (xs ys : List ℕ) → All IsDigit xs → All IsDigit ys → All IsDigit (xs ++ ys)
All-append [] ys a b = b
All-append (x ∷ xs) ys a b = (a.0, All-append xs ys a.1 b)

one_digit : (xs : List ℕ) → Matches (class is_digit) xs → All IsDigit xs × (length xs ≡ 1)
one_digit xs (c, h, e) =
    (subst (All IsDigit) (sym e) ((ground arith, ground arith), tt), ap length e)

join :
    (xs ys zs : List ℕ)
    → xs ≡ ys ++ zs
    → All IsDigit ys
    → All IsDigit zs
    → All IsDigit xs × (length xs ≡ length ys + length zs)
join xs ys zs e a b =
    (subst (All IsDigit) (sym e) (All-append ys zs a b), ap length e ∙ length-append ys zs)

times_sound :
    (n : ℕ) (xs : List ℕ) → Matches (times n (class is_digit)) xs → All IsDigit xs × (length xs ≡ n)
unfolding times
times_sound zero xs e = (subst (All IsDigit) (sym e) tt, ap length e)
times_sound (suc n) xs (ys, zs, e, a, b) =
    let (d, l) = one_digit ys a in
    let (ds, k) = times_sound n zs b in
    let (all, m) = join xs ys zs e d ds in (all, omega (arith, m, l, k))

up_to_sound :
    (n : ℕ) (xs : List ℕ) → Matches (up_to n (class is_digit)) xs → All IsDigit xs × (length xs ≤ n)
unfolding up_to
up_to_sound zero xs e = (subst (All IsDigit) (sym e) tt, omega (arith, ap length e))
up_to_sound (suc n) xs (inl e) = (subst (All IsDigit) (sym e) tt, omega (arith, ap length e))
up_to_sound (suc n) xs (inr (ys, zs, e, a, b)) =
    let (d, l) = one_digit ys a in
    let (ds, k) = up_to_sound n zs b in
    let (all, m) = join xs ys zs e d ds in (all, omega (arith, m, l, k))

digit : (x : ℕ) → IsDigit x → Matches (class is_digit) (x ∷ [])
digit x h = (x, ground arith, refl)

up_to_complete :
    (n : ℕ) (xs : List ℕ) → All IsDigit xs → length xs ≤ n → Matches (up_to n (class is_digit)) xs
unfolding up_to
up_to_complete zero [] a h = refl
up_to_complete zero (x ∷ xs) a h = absurd (omega (arith, h))
up_to_complete (suc n) [] a h = inl refl
up_to_complete (suc n) (x ∷ xs) a h =
    inr (x ∷ [], xs, refl, digit x a.0, up_to_complete n xs a.1 (omega (arith, h)))

-- The first n of a list of digits, and at most k further ones.
between_complete :
    (n k : ℕ) (xs : List ℕ)
    → All IsDigit xs
    → n ≤ length xs
    → length xs ≤ n + k
    → (ys : List ℕ) × (zs : List ℕ) × (xs ≡ ys ++ zs)
      × Matches (times n (class is_digit)) ys
      × Matches (up_to k (class is_digit)) zs
unfolding times
between_complete zero k xs a h l = ([], xs, refl, refl, up_to_complete k xs a (omega (arith, l)))
between_complete (suc n) k [] a h l = absurd (omega (arith, h))
between_complete (suc n) k (x ∷ xs) a h l =
    let (ys, zs, e, m, u) = between_complete n k xs a.1 (omega (arith, h)) (omega (arith, l)) in
    (x ∷ ys, zs, ap (◌∷◌ x) e, (x ∷ [], ys, refl, digit x a.0, m), u)

IsE164-sound : (cs : List ℕ) → Matches e164_pattern cs → IsE164 cs
IsE164-sound cs (a, rest, e, (c, plus, ea), (b, ds, f, (d, first, eb), (ys, zs, g, m, u))) =
    let (dy, ly) = times_sound 6 ys m in
    let (dz, lz) = up_to_sound 8 zs u in
    let (all, len) = join ds ys zs g dy dz in
    let c_plus : c ≡ b'+' = ground arith in
    let shape : cs ≡ b'+' ∷ d ∷ ds = cc in
    (
      d,
      ds,
      shape,
      (ground arith, ground arith),
      all,
      omega (arith, len, ly, lz),
      omega (arith, len, ly, lz),
    )

IsE164-complete : (cs : List ℕ) → IsE164 cs → Matches e164_pattern cs
IsE164-complete cs (d, ds, e, first, all, least, most) = (
  b'+' ∷ [],
  d ∷ ds,
  e,
  (b'+', refl, refl),
  (d ∷ [], ds, refl, (d, ground arith, refl), between_complete 6 8 ds all least most),
)

-- A recipient passes as a phone number exactly if its code points are a plus, a digit from 1 to 9 and
-- then from 6 to 14 digits, with nothing before and nothing behind.
pub is_e164_iff : (s : String) → (is_e164 s ≡ true) ↔ IsE164 (codes s)
unfolding is_e164 match_string
is_e164_iff s =
    let (to, from) = matches_iff e164_pattern (codes s) in
    (λ h. IsE164-sound (codes s) (to h), λ m. from (IsE164-complete (codes s) m))
