-- ===== src/Api/Templates/Lifecycle.antt =====
-- The handlers of internal/api/templates.go one after the other.
use notifier.Base.{
  eq_iff, eq_refl, String, ◌≡◌, refl, sym, subst, ◌∙◌, true, false, List, [], ◌∷◌, ◌++◌, Option,
  none, some, str_eq, exists-append, arith, Bool-cases, inl, inr,
}
use notifier.Domain.Validate.{to_error}
use notifier.Domain.Errors.{
  FieldError, Error, duplicate_template_name, validation, as_validation, is_duplicate_template, err,
}
use notifier.Domain.Status.{channel_valid}
use notifier.Domain.Template.{Template, validate_new_template}
use notifier.Template.{Engine, validate}
use notifier.Storage.Table.{microsecond, add_when, key_taken}
use notifier.Storage.Templates.{
  name_used, id_used, check_template, stored_template, create_template,
}
use notifier.World.{World, settle}
use notifier.World.Quiet.{IsQuiet, arrive-quiet}
use notifier.Service.Create.{minted}
use notifier.Service.Resolve.{find_template, get_template_by_name}
use notifier.Service.Templates.{new_template, after_parse, after_shape, get_by_name}
use notifier.Service.Templates as Templates
use notifier.Api.Respond.{Response, json, status_code, write_error_response}
use notifier.Api.Templates.{
  CreateTemplateRequest, TemplateResponse, to_template_response, to_input, created_template, create,
  get,
}

-- No two templates have a name in common.
abbrev pub HaveNames : List Template → Type 0
HaveNames [] = Unit
HaveNames (t ∷ ts) = (name_used t.name ts ≡ false) × HaveNames ts

str_eq-sym_false : (a b : String) → str_eq a b ≡ false → str_eq b a ≡ false
str_eq-sym_false a b h = elim (Bool-cases (str_eq b a)) [
  | inl e ↦
      let same : b ≡ a = (eq_iff b a).0 e in
      let hit : str_eq a b ≡ true = (eq_iff a b).1 (sym same) in absurd (cc)
  | inr e ↦ e
]

HaveNames-append :
    (ts : List Template) (t : Template)
    → name_used t.name ts ≡ false
    → HaveNames ts
    → HaveNames (ts ++ t ∷ [])
HaveNames-append [] t n h = (refl, tt)
HaveNames-append (x ∷ xs) t n h =
    let all = exists-append (λ q. str_eq q.name x.name) xs (t ∷ []) in
    let other : str_eq x.name t.name ≡ false = ground arith in
    let back = str_eq-sym_false x.name t.name other in
    (all ∙ rw (h.0, back) refl, HaveNames-append xs t (ground arith) h.1)

find_template-append :
    (ts : List Template) (t : Template)
    → name_used t.name ts ≡ false
    → find_template t.name (ts ++ t ∷ []) ≡ some t
unfolding find_template
find_template-append [] t n = rw (eq_refl t.name) refl
find_template-append (x ∷ xs) t n =
    let other : str_eq x.name t.name ≡ false = ground arith in
    rw other (find_template-append xs t (ground arith))

module _ (t : Template) (w : World) (q : IsQuiet w) where
  create_template-taken :
      check_template t w.templates ≡ some key_taken
      → create_template t w ≡ (some duplicate_template_name, w)
  unfolding create_template settle add_when
  create_template-taken c = rw (arrive-quiet w q) (rw q (rw c refl))

  create_template-done :
      check_template t w.templates ≡ none
      → create_template t w ≡ (none, record w { templates = w.templates ++ stored_template t ∷ [] })
  unfolding create_template settle add_when
  create_template-done c = rw (arrive-quiet w q) (rw q (rw c refl))

get-found :
    (name : String) (t : Template) (w : World)
    → IsQuiet w
    → find_template name w.templates ≡ some t
    → (quote : String → String) → get quote name w ≡ (json 200 (to_template_response t), w)
unfolding get get_by_name get_template_by_name settle
get-found name t w q f quote = rw (arrive-quiet w q) (rw q (rw f refl))

validate_new_template-channel :
    (t : Template) → validate_new_template t ≡ none → channel_valid t.channel ≡ true
unfolding validate_new_template
validate_new_template-channel t h = elim (Bool-cases (channel_valid t.channel)) [
  | inl c ↦ c
  | inr c ↦ absurd (ground (arith, h, c))
]

module _ (engine : Engine) (quote : String → String) (p : CreateTemplateRequest) (w : World) where
  abbrev requested : Template
  requested = new_template w.next_id w.now (to_input p)

  -- The answers to the creation of a template, and to a request for it afterwards.
  pub data CreateAnswer (z : Response TemplateResponse × World) : Type 0 where
    malformed_shape :
        (e : Error)
        → validate_new_template requested ≡ some e
        → status_code z.0 ≡ 400
        → z.1.templates ≡ w.templates
        → CreateAnswer z
    unparseable :
        (e : Error)
        → validate_new_template requested ≡ none
        → validate engine p.body ≡ some e
        → status_code z.0 ≡ 400
        → z.1.templates ≡ w.templates
        → CreateAnswer z
    taken :
        name_used p.name w.templates ≡ true
        → status_code z.0 ≡ 409
        → z.1.templates ≡ w.templates
        → CreateAnswer z
    done :
        (m r : TemplateResponse)
        → name_used p.name w.templates ≡ false
        → z.0 ≡ json 201 m
        → get quote p.name z.1 ≡ (json 200 r, z.1)
        → r ≡ record m {
          created_at = microsecond m.created_at;
          updated_at = microsecond m.updated_at;
        }
        → HaveNames z.1.templates
        → CreateAnswer z

  rejected_status :
      (es : List FieldError) (e : Error)
      → to_error es ≡ some e
      → status_code (created_template quote (err e)) ≡ 400
  unfolding as_validation write_error_response
  rejected_status [] e h = absurd (cc)
  rejected_status (x ∷ xs) e h =
      let same : validation (x ∷ xs) ≡ e = cc in
      subst (λ z. status_code (created_template quote (err z)) ≡ 400) same refl

  taken_answer :
      IsQuiet w
      → check_template requested w.templates ≡ some key_taken
      → name_used p.name w.templates ≡ true
      → let r = after_parse quote requested none (minted w) in
        CreateAnswer (created_template quote r.0, r.1)
  unfolding after_parse as_validation is_duplicate_template write_error_response
  taken_answer q c u =
      let run = create_template-taken requested (minted w) q c in
      taken u (rw run refl) (rw run refl)

  done_answer :
      IsQuiet w
      → check_template requested w.templates ≡ none
      → name_used p.name w.templates ≡ false
      → HaveNames w.templates
      → let r = after_parse quote requested none (minted w) in
        CreateAnswer (created_template quote r.0, r.1)
  unfolding after_parse to_template_response
  done_answer q c u h =
      let run = create_template-done requested (minted w) q c in
      rw run (
        done (to_template_response requested) (to_template_response (stored_template requested)) u
          refl
          (get-found p.name (stored_template requested) _ q
            (find_template-append w.templates (stored_template requested) u) quote)
          refl (HaveNames-append w.templates (stored_template requested) u h))

  after_shape_cases :
      (shape parse : Option Error)
      → validate_new_template requested ≡ shape
      → validate engine p.body ≡ parse
      → IsQuiet w
      → HaveNames w.templates
      → id_used w.next_id w.templates ≡ false
      → let r = after_shape engine quote requested shape (minted w) in
        CreateAnswer (created_template quote r.0, r.1)
  unfolding after_shape after_parse validate_new_template check_template as_validation
      write_error_response
  after_shape_cases (some e) parse s f q h i = malformed_shape e s (rejected_status _ e s) refl
  after_shape_cases none (some e) s f q h i = rw f (unparseable e s f refl refl)
  after_shape_cases none none s f q h i =
      let valid = validate_new_template-channel requested s in
      elim (Bool-cases (name_used p.name w.templates)) [
        | inl u ↦ rw f (taken_answer q (rw (valid, i, u) refl) u)
        | inr u ↦ rw f (done_answer q (rw (valid, i, u) refl) u h)
      ]

  -- With no faults and no interference, on templates with no name in common and an unused identifier, a
  -- decoded request to create a template is answered in one of four ways: 400 if its shape is rejected,
  -- 400 if its body does not parse, 409 if its name is taken, each with the templates as they were; or
  -- 201, and then a request for that name is answered with 200 and the same body, its two times in
  -- microseconds, and the templates still have no name in common.
  pub create_cases :
      IsQuiet w
      → HaveNames w.templates
      → id_used w.next_id w.templates ≡ false
      → CreateAnswer (create quote engine (some p) w)
  unfolding create Templates.create
  create_cases q h i = after_shape_cases _ _ refl refl q h i
