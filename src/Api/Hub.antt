-- ===== src/Api/Hub.antt =====
-- internal/api/hub.go: the goroutine that owns the WebSocket clients, and the handlers that wait on it.
-- A client is its send channel and the state of its handler; `known` says that the hub's map holds it.
pub mod Client
pub mod Sound
use notifier.Base.{
  String, ℕ, Bool, true, false, not, ◌&&◌, ◌||◌, List, [], ◌∷◌, ◌++◌, map, Option, none, some, ltb,
  ◌==◌, str_eq, if◌then◌else◌, length,
}

abbrev pub client_send_buffer : ℕ
client_send_buffer = 32

-- The capacity of the channel `broadcast`.
abbrev pub broadcast_buffer : ℕ
broadcast_buffer = 64

pub record HubEvent : Type 0 where
  pub notification_id : ℕ
  pub payload : String

-- Where a handler `serveWS` stands: before the registration, in its loop, in its deferred call, ended.
pub data Phase : Type 0 where
  registering streaming leaving gone : Phase

-- `broken` says that the channel was closed twice, or sent to when closed: in Go a panic.
pub record WsClient : Type 0 where
  pub key : ℕ
  pub filter_id : ℕ
  pub phase : Phase
  pub known : Bool
  pub closed : Bool
  pub send : List String
  pub written : List String
  pub broken : Bool

pub record Hub : Type 0 where
  pub clients : List WsClient
  pub broadcast : List HubEvent
  pub done : Bool

-- `NewHub`
abbrev pub new_hub : Hub
new_hub = record { clients = []; broadcast = []; done = false }

-- `close(client.send)`
abbrev pub close_send : WsClient → WsClient
close_send c = record c { closed = true; broken = c.broken || c.closed }

-- `Run`: a registration, and the removal of a known client.
unfoldable pub on_register : WsClient → WsClient
on_register c = record c { known = true; phase = streaming }

unfoldable pub on_unregister : WsClient → WsClient
on_unregister c =
    let ended = record c { phase = gone } in
    if c.known then close_send (record ended { known = false }) else ended

-- The send with a default: a full channel drops its client.
abbrev pub send_or_drop : String → WsClient → WsClient
send_or_drop payload c =
    if c.closed
    then record c { broken = true }
    else if ltb (length c.send) client_send_buffer
    then record c { send = c.send ++ payload ∷ [] }
    else close_send (record c { known = false })

unfoldable pub on_event : HubEvent → WsClient → WsClient
on_event e c =
    if c.known
    then (if not (c.filter_id == 0) && not (c.filter_id == e.notification_id)
        then c
        else send_or_drop e.payload c)
    else c

unfoldable pub on_stop : WsClient → WsClient
on_stop c = if c.known then close_send c else c

-- `serveWS`: the handler takes a payload and writes it, or sees the closed and empty channel.
unfoldable pub on_take : WsClient → WsClient
on_take c = elim c.send [
  | [] ↦ if c.closed then record c { phase = leaving } else c
  | p ∷ ps ↦ record c { send = ps; written = c.written ++ p ∷ [] }
]

unfoldable pub on_leave : WsClient → WsClient
on_leave c = record c { phase = leaving }

unfoldable pub on_give_up : WsClient → WsClient
on_give_up c = record c { phase = gone }

abbrev pub is_phase : Phase → Phase → Bool
is_phase registering registering = true
is_phase streaming streaming = true
is_phase leaving leaving = true
is_phase gone gone = true
is_phase _ _ = false

-- One client in a phase moves.
abbrev pub when_in : Phase → ℕ → (WsClient → WsClient) → WsClient → WsClient
when_in p key f c = if is_phase c.phase p && c.key == key then f c else c

abbrev pub new_client : ℕ → ℕ → WsClient
new_client key filter_id = record {
  key = key;
  filter_id = filter_id;
  phase = registering;
  known = false;
  closed = false;
  send = [];
  written = [];
  broken = false;
}

-- What happens next, in any order: a request to connect with its parameter `id`, a ready case of a
-- `select` of one handler or of the hub, a failed write or a closed connection, an event, the shutdown.
pub data Action : Type 0 where
  connect : String → Action
  register take leave unregister see_done : ℕ → Action
  broadcast_raw : String → Action
  dispatch stop : Action

abbrev pub join : Option ℕ → Hub → Hub
join none h = h
join (some filter_id) h = record h {
  clients = h.clients ++ new_client (length h.clients) filter_id ∷ [];
}

abbrev pub each_client : (WsClient → WsClient) → Hub → Hub
each_client f h = record h { clients = map f h.clients }

-- `Broadcast`: a full buffer drops the event.
unfoldable pub broadcast_event : ℕ → String → Hub → Hub
broadcast_event id payload h =
    if ltb (length h.broadcast) broadcast_buffer
    then record h {
      broadcast = h.broadcast ++ record { notification_id = id; payload = payload } ∷ [];
    }
    else h

-- `BroadcastRaw`, whose JSON gives the identifier.
unfoldable pub on_raw : String → Option ℕ → Hub → Hub
unfolding broadcast_event
on_raw payload none h = h
on_raw payload (some id) h = broadcast_event id payload h

abbrev pub dispatch_next : List HubEvent → Hub → Hub
dispatch_next [] h = h
dispatch_next (e ∷ es) h = each_client (on_event e) (record h { broadcast = es })

module _ (parse_uuid : String → Option ℕ) (envelope : String → Option ℕ) where
  -- A case of a `select` that is not ready is not taken; after `done` only handlers move.
  unfoldable pub act : Action → Hub → Hub
  unfolding on_register on_unregister on_event on_stop on_take on_leave on_give_up on_raw
  act (connect id) h = join (if str_eq id "" then some 0 else parse_uuid id) h
  act (register key) h = if h.done then h else each_client (when_in registering key on_register) h
  act (take key) h = each_client (when_in streaming key on_take) h
  act (leave key) h = each_client (when_in streaming key on_leave) h
  act (unregister key) h = if h.done then h else each_client (when_in leaving key on_unregister) h
  act (see_done key) h =
      if h.done
      then each_client (λ c. when_in leaving key on_give_up (when_in registering key on_give_up c))
          h
      else h
  act (broadcast_raw payload) h = on_raw payload (envelope payload) h
  act dispatch h = if h.done then h else dispatch_next h.broadcast h
  act stop h = if h.done then h else record (each_client on_stop h) { done = true }

  unfoldable pub run : List Action → Hub → Hub
  unfolding act
  run [] h = h
  run (a ∷ rest) h = run rest (act a h)
