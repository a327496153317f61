-- ===== src/Api/Query.antt =====
-- `parseListQuery` of internal/api/notifications.go: the parameters of a listing.
use notifier.Base.{
  String, ℕ, suc, Bool, true, false, [], ◌∷◌, Option, none, some, str_eq, if◌then◌else◌, ℤ, pos,
}
use notifier.Domain.Errors.{external, texts, Result, ok, err, ◌>>=◌}
use notifier.Domain.Status.Text.{status_of, channel_of}
use notifier.Domain.List.{ListQuery}
use notifier.Api.Cursor.{ListCursor, Codec, decode_cursor}

-- The readers of texts that belong to the standard library and to the package uuid.
pub record Parsers : Type 0 where
  pub atoi : String → Option ℤ
  pub parse_uuid : String → Option ℕ
  pub parse_rfc3339 : String → Option ℕ

-- `params.Get`: "" for a parameter that is not given.
abbrev pub Params : Type 0
Params = String → String

module _ (codec : Codec) (parsers : Parsers) where
  abbrev positive : Option ℤ → Result ℤ
  positive (some (pos (suc n))) = ok (pos (suc n))
  positive _ = err (external "limit must be a positive integer")

  -- An absent limit is Go's zero, which the service replaces by its default.
  abbrev parse_limit : String → Result ℤ
  parse_limit s = if str_eq s "" then ok (pos 0) else positive (parsers.atoi s)

  abbrev or_error : String → Option ℕ → Result (Option ℕ)
  or_error why none = err (external why)
  or_error why (some n) = ok (some n)

  abbrev parse_batch_id : String → Result (Option ℕ)
  parse_batch_id s =
      if str_eq s "" then ok none else or_error "batch_id must be a UUID" (parsers.parse_uuid s)

  abbrev parse_bound : String → String → Result (Option ℕ)
  parse_bound name s =
      if str_eq s ""
      then ok none
      else or_error (texts (name ∷ " must be RFC3339" ∷ [])) (parsers.parse_rfc3339 s)

  -- The range over a map takes its two keys in either order; it decides which error is found.
  abbrev parse_bounds : Bool → Params → Result (Option ℕ × Option ℕ)
  parse_bounds true params = do
    from ← parse_bound "from" (params "from")
    to ← parse_bound "to" (params "to")
    ok (from, to)
  parse_bounds false params = do
    to ← parse_bound "to" (params "to")
    from ← parse_bound "from" (params "from")
    ok (from, to)

  abbrev with_cursor : ListQuery → ListCursor → ListQuery
  with_cursor q c = record q { cursor_created_at = some c.created_at; cursor_id = some c.id }

  abbrev pub cursor_given : ListQuery → Result ListCursor → Result ListQuery
  cursor_given q (ok c) = ok (with_cursor q c)
  cursor_given q (err e) = err (external "invalid cursor")

  unfoldable pub parse_cursor_param : ListQuery → String → Result ListQuery
  parse_cursor_param q s = if str_eq s "" then ok q else cursor_given q (decode_cursor codec s)

  unfoldable pub parse_filters : Bool → Params → Result ListQuery
  parse_filters from_first params = do
    limit ← parse_limit (params "limit")
    batch_id ← parse_batch_id (params "batch_id")
    bounds ← parse_bounds from_first params
    ok (record {
      status = status_of (params "status");
      channel = channel_of (params "channel");
      batch_id = batch_id;
      from = bounds.0;
      to = bounds.1;
      limit = limit;
      cursor_created_at = none;
      cursor_id = none;
    })

  -- `parseListQuery`
  unfoldable pub parse_list_query : Bool → Params → Result ListQuery
  parse_list_query from_first params = do
    q ← parse_filters from_first params
    parse_cursor_param q (params "cursor")
