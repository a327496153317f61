-- ===== src/Api/Cursor.antt =====
-- internal/api/cursor.go: the token of a page, with its JSON and its base64 as parameters.
use notifier.Base.{String, ℕ, ◌≡◌, ◌≢◌, ◌↔◌, ◌||◌, Option, none, some, ◌==◌, if◌then◌else◌, arith}
use notifier.Domain.Errors.{external, wrapped, Result, ok, err}

pub record ListCursor : Type 0 where
  pub created_at : ℕ
  pub id : ℕ

-- encoding/json on a cursor and encoding/base64 on its bytes.
pub record Codec : Type 1 where
  pub Bytes : Type 0
  pub marshal : ListCursor → Bytes
  pub unmarshal : Bytes → Option ListCursor
  pub encode_to_string : Bytes → String
  pub decode_string : String → Option Bytes

-- Both packages read what they write, and base64 writes no empty text for the bytes of a cursor.
pub record IsLawful (codec : Codec) : Type 0 where
  pub json : (c : ListCursor) → codec.unmarshal (codec.marshal c) ≡ some c
  pub base64 : (b : codec.Bytes) → codec.decode_string (codec.encode_to_string b) ≡ some b
  pub nonempty : (c : ListCursor) → codec.encode_to_string (codec.marshal c) ≢ ""

module _ (codec : Codec) where
  -- `encodeCursor`
  unfoldable pub encode_cursor : ℕ → ℕ → String
  encode_cursor created_at id =
      codec.encode_to_string (codec.marshal (record { created_at = created_at; id = id }))

  -- `IsZero()` and `uuid.Nil`
  abbrev check_fields : ListCursor → Result ListCursor
  check_fields c =
      if c.created_at == 0 || c.id == 0 then err (external "cursor missing fields") else ok c

  abbrev parse_cursor : Option ListCursor → Result ListCursor
  parse_cursor none = err (wrapped "parse cursor" (external "json"))
  parse_cursor (some c) = check_fields c

  abbrev parse_raw : Option codec.Bytes → Result ListCursor
  parse_raw none = err (wrapped "decode cursor" (external "base64"))
  parse_raw (some b) = parse_cursor (codec.unmarshal b)

  -- `decodeCursor`
  unfoldable pub decode_cursor : String → Result ListCursor
  decode_cursor encoded = parse_raw (codec.decode_string encoded)

  check_fields_iff : (c : ListCursor) → (check_fields c ≡ ok c) ↔ ((c.created_at ≢ 0) × (c.id ≢ 0))
  check_fields_iff c = ground arith

  -- A cursor is read back as it was written exactly if it has a time and an identifier.
  pub decode_cursor-encode_cursor :
      IsLawful codec
      → (at id : ℕ)
      → (decode_cursor (encode_cursor at id) ≡ ok (record { created_at = at; id = id }))
        ↔ ((at ≢ 0) × (id ≢ 0))
  unfolding decode_cursor encode_cursor
  decode_cursor-encode_cursor lawful at id =
      let c : ListCursor = record { created_at = at; id = id } in
      rw (lawful.base64 (codec.marshal c)) (rw (lawful.json c) (check_fields_iff c))
