-- ===== src/Examples/Data.antt =====
-- A few rows, and a world in which they are stored.
use notifier.Base.{refl, String, ℕ, true, List, [], ◌∷◌, none, some}
use notifier.Domain.Status.{Status, sms, high, normal, pending, queued, sent}
use notifier.Domain.Notification.{Notification}
use notifier.Storage.Table.{Table}
use notifier.Storage.Table.Keys.{IsKeyed}
use notifier.World.Safe.{IsSound}
use notifier.Delivery.{Reader, Reply, responded, Provider}
use notifier.World.{World}
use notifier.Service.Create.{Service}
use notifier.Service.Resolve.{CreateInput}
use notifier.Worker.{Settings}
use notifier.Worker.Senders.{webhook_sender}

abbrev pub row : ℕ → Status → Notification
row id status = record {
  id = id;
  batch_id = none;
  recipient = "+905551234567";
  channel = sms;
  content = "hello";
  priority = high;
  status = status;
  idempotency_key = none;
  scheduled_at = none;
  attempts = 0;
  last_error = none;
  provider_message_id = none;
  created_at = 10;
  updated_at = 10;
  sent_at = none;
}

abbrev pub keyed_row : ℕ → Status → String → Notification
keyed_row id status key = record (row id status) { idempotency_key = some key }

abbrev pub three_rows : Table
three_rows = row 1 pending ∷ row 2 queued ∷ keyed_row 3 sent "k" ∷ []

abbrev pub plain_reader : Reader
plain_reader = record { message_id = λ s. s; snapshot = λ s. s; error_body = λ s. s }

abbrev pub provider_with : List Reply → Provider
provider_with rs = record {
  cached_url = "";
  cached_at = 0;
  overrides = [];
  replies = rs;
  requests = [];
}

abbrev pub world_with : Table → List Reply → World
world_with t rs = record {
  now = 100;
  next_id = 50;
  table = t;
  templates = [];
  turns = [];
  bus = record { confirmations = []; published = []; event_faults = []; events = [] };
  provider = provider_with rs;
  waits = some 2 ∷ [];
  sends = [];
  metrics = [];
}

abbrev pub calm : World
calm = world_with three_rows (responded 5 202 "m-1" ∷ [])

abbrev pub settings : Settings
settings = record {
  sender = webhook_sender plain_reader "https://provider.test";
  max_attempts = 4;
  has_metrics = true;
  quote = λ s. s;
}

abbrev pub plain_service : Service
plain_service = record { has_templates = true; has_metrics = true }

abbrev pub plain_input : CreateInput
plain_input = record {
  recipient = "+905551234567";
  channel = sms;
  content = "hello";
  template = none;
  priority = normal;
  scheduled_at = none;
  idempotency_key = some "fresh";
}

pub three_rows-IsKeyed : IsKeyed three_rows
three_rows-IsKeyed = ((refl, refl, (refl, refl, (refl, refl, tt))))

pub calm-IsSound : IsSound calm
calm-IsSound = record { keyed = three_rows-IsKeyed; issued = tt }
