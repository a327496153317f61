-- ===== src/Examples/Codec.antt =====
-- A codec of cursors that counts in unary, as a text of marks.
use Prim.Native.Char.{code}
use Prim.Native.String.{[], ◌∷◌}
use notifier.Base.{
  String, ℕ, zero, suc, ◌≡◌, ◌≢◌, refl, ap, Option, none, some, ◌==◌, if◌then◌else◌, arith,
}
use mathlib.Core.Option
use notifier.Api.Cursor.{ListCursor, Codec, IsLawful}

-- A cursor as its two numbers: the time, a separator, and the identifier.
abbrev unary : ℕ → String → String
unary zero s = s
unary (suc n) s = "a" ∷ unary n s

abbrev write : ListCursor → String
write c = unary c.created_at ("b" ∷ unary c.id [])

abbrev size : String → ℕ
size [] = 0
size (c ∷ s) = suc (size s)

abbrev one_more : ListCursor → ListCursor
one_more c = record c { created_at = suc c.created_at }

abbrev read : String → Option ListCursor
read [] = none
read (c ∷ s) =
    let more = Option.map one_more (read s) in
    if code c == 97 then more else some (record { created_at = 0; id = size s })

abbrev tail : String → Option String
tail [] = none
tail (c ∷ s) = some s

abbrev pub unary_codec : Codec
unary_codec = record {
  Bytes = String;
  marshal = write;
  unmarshal = read;
  encode_to_string = λ s. "=" ∷ s;
  decode_string = tail;
}

size-unary : (n : ℕ) → size (unary n []) ≡ n
size-unary zero = refl
size-unary (suc n) = ap suc (size-unary n)

read-unary :
    (n i : ℕ) → read (unary n ("b" ∷ unary i [])) ≡ some (record { created_at = n; id = i })
read-unary zero i = ap (λ z. some (record { created_at = 0; id = z })) (size-unary i)
read-unary (suc n) i = ap (Option.map one_more) (read-unary n i)

cons_nonempty : (s : String) → size ("=" ∷ s) ≢ 0
cons_nonempty s h = omega (arith, h)

pub unary_codec-IsLawful : IsLawful unary_codec
unary_codec-IsLawful = record {
  json = λ c. read-unary c.created_at c.id;
  base64 = λ b. refl;
  nonempty = λ c h. cons_nonempty (write c) (ap size h);
}
