-- ===== src/Storage/Templates.antt =====
-- internal/storage/postgres/template_repository.go: creating and listing templates, on the table
-- notification_templates of internal/storage/postgres/migrations. Reading by name stands in
-- Service/Resolve.
use notifier.Base.{
  String, ℕ, Bool, List, [], ◌∷◌, Option, none, some, ◌==◌, leb, str_eq, exists, if◌then◌else◌,
}
use notifier.Domain.Errors.{external, wrapped, duplicate_template_name, Result, ok, err}
use notifier.Domain.Status.{channel_valid}
use notifier.Domain.Template.{Template}
use notifier.Storage.Repository.{Outcome}
use notifier.Storage.Table.{microsecond, add_when, Violation, bad_value, id_taken, key_taken}
use notifier.World.{World, next_turn, arrive, settle}

abbrev pub name_used : String → List Template → Bool
name_used name ts = exists (λ t. str_eq t.name name) ts

abbrev pub id_used : ℕ → List Template → Bool
id_used id ts = exists (λ t. t.id == id) ts

-- The enumeration, the primary key and the unique name, in this order.
unfoldable pub check_template : Template → List Template → Option Violation
check_template t ts =
    if channel_valid t.channel
    then (if id_used t.id ts
        then some id_taken
        else if name_used t.name ts
        then some key_taken
        else none)
    else some bad_value

-- Either unique violation is reported as a taken name.
abbrev template_outcome : Result (Option Violation) → Outcome
template_outcome (ok none) = none
template_outcome (ok (some key_taken)) = some duplicate_template_name
template_outcome (ok (some id_taken)) = some duplicate_template_name
template_outcome (ok (some bad_value)) =
    some (wrapped "insert template" (external "bad enumeration value"))
template_outcome (err e) = some e

-- The row of a template, whose times lose their nanoseconds.
abbrev pub stored_template : Template → Template
stored_template t = record t {
  created_at = microsecond t.created_at;
  updated_at = microsecond t.updated_at;
}

-- `CreateTemplate`
unfoldable pub create_template : Template → World → Outcome × World
create_template t w =
    let v = arrive w in
    let check = check_template t v.templates in
    let (r, u) =
      settle (next_turn w.turns).fate "insert template" check v
        (record v { templates = add_when check v.templates (stored_template t ∷ []) }) in
    (template_outcome r, u)

-- `ORDER BY created_at DESC`, equal ones in the order of the table.
unfoldable pub insert_newest_template : Template → List Template → List Template
insert_newest_template t [] = t ∷ []
insert_newest_template t (x ∷ xs) =
    let rest = insert_newest_template t xs in
    if leb x.created_at t.created_at then t ∷ x ∷ xs else x ∷ rest

unfoldable pub newest_templates : List Template → List Template
unfolding insert_newest_template
newest_templates [] = []
newest_templates (t ∷ ts) = insert_newest_template t (newest_templates ts)

-- `ListTemplates`
unfoldable pub list_templates : World → Result (List Template) × World
list_templates w =
    let v = arrive w in
    settle (next_turn w.turns).fate "list templates" (newest_templates v.templates) v v
