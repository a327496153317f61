-- ===== src/Worker/Senders.antt =====
-- The senders of internal/delivery as what the worker of internal/worker/worker.go asks for.
use notifier.Base.{String, ℕ, ◌≤◌, if◌then◌else◌, str_eq}
use native.Mathlib.Nat.{le-add_right}
use notifier.Domain.Notification.{Notification}
use notifier.Delivery.{Reader, Provider, webhook_send, refresh_target, switchable_send}
use notifier.Worker.{Sender}

pub webhook_send-later :
    (rd : Reader) (url : String) (n : Notification) (now : ℕ) (p : Provider)
    → now ≤ (webhook_send rd url n now p).2
unfolding webhook_send
webhook_send-later rd url n now p = le-add_right _ _

pub switchable_send-later :
    (rd : Reader) (fallback : String) (n : Notification) (now : ℕ) (p : Provider)
    → now ≤ (switchable_send rd fallback n now p).2
unfolding switchable_send
switchable_send-later rd fallback n now p =
    let q = refresh_target now p in
    webhook_send-later rd (if str_eq q.cached_url "" then fallback else q.cached_url) n now q

abbrev pub webhook_sender : Reader → String → Sender
webhook_sender rd url = record {
  send = webhook_send rd url;
  send_later = webhook_send-later rd url;
}

abbrev pub switchable_sender : Reader → String → Sender
switchable_sender rd fallback = record {
  send = switchable_send rd fallback;
  send_later = switchable_send-later rd fallback;
}
