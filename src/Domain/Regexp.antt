-- ===== src/Domain/Regexp.antt =====
-- The patterns of internal/domain/validate.go and internal/domain/template.go, over code points,
-- with a matcher for what they use of Go's `regexp`: anchored patterns, classes and repetition.
pub mod Correct
pub mod E164
use Prim.Native.Char.{code}
use notifier.Base.{
  String, ℕ, zero, suc, ◌-◌, Bool, true, false, not, ◌&&◌, ◌||◌, List, [], ◌∷◌, leb, ◌==◌,
  if◌then◌else◌,
}

pub data Regexp : Type 0 where
  never empty : Regexp
  class : (ℕ → Bool) → Regexp
  seq alt : Regexp → Regexp → Regexp
  star : Regexp → Regexp

unfoldable pub nullable : Regexp → Bool
nullable never = false
nullable empty = true
nullable (class p) = false
nullable (seq r s) = nullable r && nullable s
nullable (alt r s) = nullable r || nullable s
nullable (star r) = true

-- What is left to match after one code point.
unfoldable pub derive : ℕ → Regexp → Regexp
unfolding nullable
derive c never = never
derive c empty = never
derive c (class p) = if p c then empty else never
derive c (seq r s) =
    if nullable r then alt (seq (derive c r) s) (derive c s) else seq (derive c r) s
derive c (alt r s) = alt (derive c r) (derive c s)
derive c (star r) = seq (derive c r) (star r)

unfoldable pub matches : Regexp → List ℕ → Bool
unfolding nullable derive
matches r [] = nullable r
matches r (c ∷ cs) = matches (derive c r) cs

-- `r{n}`, `r{0,n}`, `r{m,n}` and `r+`.
unfoldable pub times : ℕ → Regexp → Regexp
times zero r = empty
times (suc n) r = seq r (times n r)

unfoldable pub up_to : ℕ → Regexp → Regexp
up_to zero r = empty
up_to (suc n) r = alt empty (seq r (up_to n r))

abbrev pub between : ℕ → ℕ → Regexp → Regexp
between m n r = seq (times m r) (up_to (n - m) r)

abbrev pub plus : Regexp → Regexp
plus r = seq r (star r)

abbrev pub char : ℕ → Regexp
char c = class (λ d. d == c)

abbrev in_range : ℕ → ℕ → ℕ → Bool
in_range lo hi c = leb lo c && leb c hi

-- `\s` of Go's syntax: tab, line feed, form feed, carriage return, space.
abbrev is_space : ℕ → Bool
is_space c = c == 9 || c == 10 || c == 12 || c == 13 || c == 32

abbrev pub is_digit : ℕ → Bool
is_digit c = in_range 48 57 c

abbrev pub is_first_digit : ℕ → Bool
is_first_digit c = in_range 49 57 c

-- `[^@\s]`
abbrev pub is_address_char : ℕ → Bool
is_address_char c = not (c == b'@' || is_space c)

-- `[a-z0-9]` and `[a-z0-9_-]`
abbrev is_name_start : ℕ → Bool
is_name_start c = in_range 97 122 c || is_digit c

abbrev is_name_char : ℕ → Bool
is_name_char c = is_name_start c || c == b'_' || c == b'-'

abbrev pub e164_pattern : Regexp
e164_pattern = seq (char b'+') (seq (class is_first_digit) (between 6 14 (class is_digit)))

abbrev pub email_pattern : Regexp
email_pattern = seq (plus (class is_address_char)) (
    seq (char b'@')
      (seq (plus (class is_address_char)) (seq (char b'.') (plus (class is_address_char)))))

abbrev pub template_name_pattern : Regexp
template_name_pattern = seq (class is_name_start) (between 1 63 (class is_name_char))

-- The code points of a text.
abbrev pub codes : String → List ℕ
codes String.[] = []
codes (String.◌∷◌ c s) = code c ∷ codes s

unfoldable pub match_string : Regexp → String → Bool
unfolding matches
match_string r s = matches r (codes s)
