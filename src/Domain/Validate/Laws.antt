-- ===== src/Domain/Validate/Laws.antt =====
-- What the checks of internal/domain/validate.go accept, and what they report.
use Prim.Native.String.{len, count}
use notifier.Base.{
  String, ℕ, ◌≤◌, ◌<◌, ◌≡◌, ◌≢◌, ◌↔◌, refl, Bool, true, false, not, List, [], ◌∷◌, ◌++◌, Option,
  none, some, arith, eq_iff,
}
use notifier.Domain.Status.{Channel, sms, email, push, other_channel, channel_valid, priority_valid}
use notifier.Domain.Errors.{FieldError}
use notifier.Domain.Notification.{Notification}
use notifier.Domain.Validate.{
  is_e164, is_email, validate_recipient, validate_content, new_errors, validate_new, is_overdue,
  unless,
}

-- A recipient that fits its channel.
abbrev pub FitsRecipient : Channel → String → Type 0
FitsRecipient sms r = is_e164 r ≡ true
FitsRecipient email r = is_email r ≡ true
FitsRecipient push r = Unit
FitsRecipient (other_channel c) r = Unit

-- A content within the limit of its channel: characters for sms, bytes for the others.
abbrev pub FitsContent : Channel → String → Type 0
FitsContent sms s = count s ≤ 160
FitsContent push s = len s ≤ 512
FitsContent email s = len s ≤ 102400
FitsContent (other_channel c) s = Unit

abbrev pub IsFuture : Option ℕ → ℕ → Type 0
IsFuture none now = Unit
IsFuture (some t) now = now < t

pub record IsAcceptable (n : Notification) (now : ℕ) : Type 0 where
  pub channel_known : channel_valid n.channel ≡ true
  pub priority_known : priority_valid n.priority ≡ true
  pub recipient_given : n.recipient ≢ ""
  pub recipient_fits : FitsRecipient n.channel n.recipient
  pub content_given : n.content ≢ ""
  pub content_fits : FitsContent n.channel n.content
  pub in_future : IsFuture n.scheduled_at now

validate_recipient-nil :
    (c : Channel) (r : String) → (validate_recipient c r ≡ []) ↔ ((r ≢ "") × FitsRecipient c r)
unfolding validate_recipient
validate_recipient-nil sms r = ground (arith, eq_iff r "")
validate_recipient-nil _ r = ground (arith, eq_iff r "")

validate_content-nil :
    (c : Channel) (s : String) → (validate_content c s ≡ []) ↔ ((s ≢ "") × FitsContent c s)
unfolding validate_content
validate_content-nil sms s = ground (arith, eq_iff s "")
validate_content-nil _ s = ground (arith, eq_iff s "")

is_overdue-IsFuture : (t : Option ℕ) (now : ℕ) → (is_overdue t now ≡ false) ↔ IsFuture t now
is_overdue-IsFuture none now = (λ _. tt, λ _. refl)
is_overdue-IsFuture (some t) now = ground arith

unless-nil : (b : Bool) (e : FieldError) → (unless b e ≡ []) ↔ (b ≡ true)
unless-nil true e = (λ _. refl, λ _. refl)
unless-nil false e = (λ h. absurd (cc), λ h. absurd (cc))

five_nil {ℓ} :
    {A : Type ℓ} (a b c d e : List A)
    → (a ++ (b ++ (c ++ (d ++ e))) ≡ []) ↔ ((a ≡ []) × (b ≡ []) × (c ≡ []) × (d ≡ []) × (e ≡ []))
five_nil [] [] [] [] e = (λ h. (refl, refl, refl, refl, h), λ p. p.4)
five_nil [] [] [] (x ∷ d) e = (λ h. absurd (cc), λ p. absurd (cc (p.3)))
five_nil [] [] (x ∷ c) d e = (λ h. absurd (cc), λ p. absurd (cc (p.2)))
five_nil [] (x ∷ b) c d e = (λ h. absurd (cc), λ p. absurd (cc (p.1)))
five_nil (x ∷ a) b c d e = (λ h. absurd (cc), λ p. absurd (cc (p.0)))

not-eq_true : (b : Bool) → (not b ≡ true) ↔ (b ≡ false)
not-eq_true true = (λ h. cc, λ h. cc)
not-eq_true false = (λ h. refl, λ h. refl)

-- The same condition as a statement about the five lists of errors.
new_errors-nil :
    (n : Notification) (now : ℕ)
    → (new_errors n now ≡ []) ↔ (
        (channel_valid n.channel ≡ true)
        × (priority_valid n.priority ≡ true)
        × (validate_recipient n.channel n.recipient ≡ [])
        × (validate_content n.channel n.content ≡ [])
        × (is_overdue n.scheduled_at now ≡ false))
unfolding new_errors
new_errors-nil n now =
    let five =
      five_nil _ _ (validate_recipient n.channel n.recipient) (validate_content n.channel n.content)
        _ in
    (
      λ h.
          let p = five.0 h in
          (
            (unless-nil _ _).0 p.0,
            (unless-nil _ _).0 p.1,
            p.2,
            p.3,
            (not-eq_true _).0 ((unless-nil _ _).0 p.4),
          ),
      λ p. five.1 (
        (unless-nil _ _).1 p.0,
        (unless-nil _ _).1 p.1,
        p.2,
        p.3,
        (unless-nil _ _).1 ((not-eq_true _).1 p.4),
      ),
    )

validate_new-nil :
    (n : Notification) (now : ℕ) → (validate_new n now ≡ none) ↔ (new_errors n now ≡ [])
unfolding validate_new
validate_new-nil n now = ground arith

-- A notification is accepted exactly when its channel and priority are known, its recipient and
-- content are given and fit the channel, and its time, if it has one, lies in the future.
pub validate_new_iff :
    (n : Notification) (now : ℕ) → (validate_new n now ≡ none) ↔ IsAcceptable n now
validate_new_iff n now = (
  λ h.
      let p = (new_errors-nil n now).0 ((validate_new-nil n now).0 h) in
      record {
        channel_known = p.0;
        priority_known = p.1;
        recipient_given = ((validate_recipient-nil n.channel n.recipient).0 p.2).0;
        recipient_fits = ((validate_recipient-nil n.channel n.recipient).0 p.2).1;
        content_given = ((validate_content-nil n.channel n.content).0 p.3).0;
        content_fits = ((validate_content-nil n.channel n.content).0 p.3).1;
        in_future = (is_overdue-IsFuture n.scheduled_at now).0 p.4;
      },
  λ v. (validate_new-nil n now).1 (
      (new_errors-nil n now).1 (
        v.channel_known,
        v.priority_known,
        (validate_recipient-nil n.channel n.recipient).1 (v.recipient_given, v.recipient_fits),
        (validate_content-nil n.channel n.content).1 (v.content_given, v.content_fits),
        (is_overdue-IsFuture n.scheduled_at now).1 v.in_future,
      )),
)
