-- ===== src/Api/Hub/Sound.antt =====
-- The hub of internal/api/hub.go in every order of its events.
use notifier.Base.{
  String, ℕ, ◌≤◌, ◌≡◌, refl, sym, ap, subst, Bool, true, false, ◌&&◌, List, [], ◌∷◌, map, Option,
  none, some, ltb, ◌==◌, if◌then◌else◌, length, length-append, All, All-append, arith,
}
use notifier.Api.Hub.{
  HubEvent, Phase, registering, streaming, leaving, gone, WsClient, Hub, new_hub, broadcast_buffer,
  Action, connect, register, take, leave, unregister, see_done, broadcast_raw, dispatch, stop,
  on_register, on_unregister, on_event, on_stop, on_take, on_leave, on_give_up, is_phase, when_in,
  join, each_client, broadcast_event, on_raw, dispatch_next, act, run,
}
use notifier.Api.Hub.Client.{
  is_waiting, is_served, IsOk, choose_lem, new_client-IsOk, on_register-IsOk, on_unregister-IsOk,
  on_stop-IsOk, on_leave-IsOk, on_give_up-IsOk, on_take-IsOk, on_event-IsOk,
}

-- In the loop of a handler, or behind it.
streaming_served :
    (q : Phase) → is_phase q streaming ≡ true → (is_waiting q ≡ false) × (is_served q ≡ true)
streaming_served streaming h = (refl, refl)
streaming_served registering h = absurd (cc)
streaming_served leaving h = absurd (cc)
streaming_served gone h = absurd (cc)

leaving_served : (q : Phase) → is_phase q leaving ≡ true → is_served q ≡ true
leaving_served leaving h = refl
leaving_served registering h = absurd (cc)
leaving_served streaming h = absurd (cc)
leaving_served gone h = absurd (cc)

registering_waiting : (q : Phase) → is_phase q registering ≡ true → is_waiting q ≡ true
registering_waiting registering h = refl
registering_waiting leaving h = absurd (cc)
registering_waiting streaming h = absurd (cc)
registering_waiting gone h = absurd (cc)

All-map :
    (P Q : WsClient → Type 0) (f : WsClient → WsClient) (cs : List WsClient)
    → ((c : WsClient) → P c → Q (f c))
    → All P cs
    → All Q (map f cs)
All-map P Q f [] g h = tt
All-map P Q f (c ∷ cs) g h = (g c h.0, All-map P Q f cs g h.1)

module _ (parse_uuid : String → Option ℕ) (envelope : String → Option ℕ) where
  abbrev IsParsed : HubEvent → Type 0
  IsParsed e = envelope e.payload ≡ some e.notification_id

  pub record IsSound (h : Hub) : Type 0 where
    pub buffered : length h.broadcast ≤ broadcast_buffer
    pub parsed : All IsParsed h.broadcast
    pub clients : All (IsOk envelope h.done) h.clients

  when_in-IsOk :
      (p : Phase) (key : ℕ) (f : WsClient → WsClient) (done : Bool) (c : WsClient)
      → (is_phase c.phase p ≡ true → IsOk envelope done (f c))
      → IsOk envelope done c
      → IsOk envelope done (when_in p key f c)
  when_in-IsOk p key f done c g h =
      choose_lem (IsOk envelope done) (is_phase c.phase p && c.key == key) _ _
        (λ e. g (ground arith)) (λ e. h)

  each_client-IsSound :
      (f : WsClient → WsClient) (h : Hub) (done : Bool)
      → h.done ≡ done
      → ((c : WsClient) → IsOk envelope done c → IsOk envelope done (f c))
      → IsSound h
      → IsSound (each_client f h)
  each_client-IsSound f h done e g s = record {
    buffered = s.buffered;
    parsed = s.parsed;
    clients =
        subst (λ d. All (IsOk envelope d) (map f h.clients)) (sym e)
          (All-map (IsOk envelope done) _ f h.clients g
            (subst (λ d. All (IsOk envelope d) h.clients) e s.clients));
  }

  -- A move that needs a running hub, or one that is done.
  choose_hub :
      (b : Bool) (x y : Hub)
      → (b ≡ true → IsSound x)
      → (b ≡ false → IsSound y)
      → IsSound (if b then x else y)
  choose_hub true x y f g = f refl
  choose_hub false x y f g = g refl

  join-IsSound : (f : Option ℕ) (h : Hub) → IsSound h → IsSound (join f h)
  join-IsSound none h s = s
  join-IsSound (some id) h s = record {
    buffered = s.buffered;
    parsed = s.parsed;
    clients =
        All-append (IsOk envelope h.done) h.clients _ s.clients
          (new_client-IsOk envelope h.done (length h.clients) id, tt);
  }

  on_raw-IsSound :
      (payload : String) (id : Option ℕ) (h : Hub)
      → envelope payload ≡ id
      → IsSound h
      → IsSound (on_raw payload id h)
  unfolding on_raw broadcast_event
  on_raw-IsSound payload none h e s = s
  on_raw-IsSound payload (some id) h e s =
      choose_hub (ltb (length h.broadcast) broadcast_buffer) _ _
        (λ room. record {
          buffered =
              (let size =
                  length-append h.broadcast
                    (record { notification_id = id; payload = payload } ∷ []) in
                ground (arith, size));
          parsed = All-append IsParsed h.broadcast _ s.parsed (e, tt);
          clients = s.clients;
        })
        (λ full. s)

  dispatch_next-IsSound :
      (es : List HubEvent) (h : Hub)
      → h.broadcast ≡ es
      → h.done ≡ false
      → IsSound h
      → IsSound (dispatch_next es h)
  dispatch_next-IsSound [] h q d s = s
  dispatch_next-IsSound (e ∷ es) h q d s =
      let parsed : All IsParsed (e ∷ es) = subst (All IsParsed) q s.parsed in
      let size : length h.broadcast ≡ length (e ∷ es) = ap length q in
      each_client-IsSound (on_event e) (record h { broadcast = es }) false d
        (λ c. on_event-IsOk envelope e c parsed.0)
        (record {
          buffered = omega (arith, size, s.buffered);
          parsed = parsed.1;
          clients = s.clients;
        })

  stop-IsSound :
      (h : Hub)
      → h.done ≡ false
      → IsSound h
      → IsSound (record (each_client on_stop h) { done = true })
  stop-IsSound h d s = record {
    buffered = s.buffered;
    parsed = s.parsed;
    clients =
        All-map (IsOk envelope false) (IsOk envelope true) on_stop h.clients (on_stop-IsOk envelope)
          (subst (λ b. All (IsOk envelope b) h.clients) d s.clients);
  }

  -- A case of the hub's goroutine, which runs as long as it is not done.
  hub_case-IsSound :
      (p : Phase) (key : ℕ) (f : WsClient → WsClient) (h : Hub)
      → ((c : WsClient)
          → is_phase c.phase p ≡ true
          → IsOk envelope false c
          → IsOk envelope false (f c))
      → IsSound h
      → IsSound (if h.done then h else each_client (when_in p key f) h)
  hub_case-IsSound p key f h g s =
      choose_hub h.done _ _ (λ d. s)
        (λ d.
          each_client-IsSound (when_in p key f) h false d
            (λ c o. when_in-IsOk p key f false c (λ e. g c e o) o) s)

  -- A case of a handler.
  handler_case-IsSound :
      (key : ℕ) (f : WsClient → WsClient) (h : Hub)
      → ((c : WsClient)
          → is_phase c.phase streaming ≡ true
          → IsOk envelope h.done c
          → IsOk envelope h.done (f c))
      → IsSound h
      → IsSound (each_client (when_in streaming key f) h)
  handler_case-IsSound key f h g s =
      each_client-IsSound (when_in streaming key f) h h.done refl
        (λ c o. when_in-IsOk streaming key f h.done c (λ e. g c e o) o) s

  act-IsSound : (a : Action) (h : Hub) → IsSound h → IsSound (act parse_uuid envelope a h)
  unfolding act
  act-IsSound (connect id) h s = join-IsSound _ h s
  act-IsSound (register key) h s =
      hub_case-IsSound registering key on_register h
        (λ c e. on_register-IsOk envelope c (registering_waiting c.phase e)) s
  act-IsSound (take key) h s =
      handler_case-IsSound key on_take h
        (λ c e. let (w, v) = streaming_served c.phase e in on_take-IsOk envelope h.done c w v) s
  act-IsSound (leave key) h s =
      handler_case-IsSound key on_leave h
        (λ c e. on_leave-IsOk envelope h.done c (streaming_served c.phase e).1) s
  act-IsSound (unregister key) h s =
      hub_case-IsSound leaving key on_unregister h
        (λ c e. on_unregister-IsOk envelope c (leaving_served c.phase e)) s
  act-IsSound (see_done key) h s =
      choose_hub h.done _ _
        (λ d.
          each_client-IsSound
            (λ c. when_in leaving key on_give_up (when_in registering key on_give_up c)) h h.done
            refl
            (λ c o.
              let first =
                when_in-IsOk registering key on_give_up h.done c
                  (λ e. on_give_up-IsOk envelope h.done c o) o in
              when_in-IsOk leaving key on_give_up h.done _
                (λ e. on_give_up-IsOk envelope h.done _ first) first)
            s)
        (λ d. s)
  act-IsSound (broadcast_raw payload) h s = on_raw-IsSound payload _ h refl s
  act-IsSound dispatch h s =
      choose_hub h.done _ _ (λ d. s) (λ d. dispatch_next-IsSound h.broadcast h refl d s)
  act-IsSound stop h s = choose_hub h.done _ _ (λ d. s) (λ d. stop-IsSound h d s)

  run_from-IsSound :
      (actions : List Action) (h : Hub) → IsSound h → IsSound (run parse_uuid envelope actions h)
  unfolding run
  run_from-IsSound [] h s = s
  run_from-IsSound (a ∷ rest) h s =
      run_from-IsSound rest (act parse_uuid envelope a h) (act-IsSound a h s)

  -- From a new hub, in every order of connections, registrations, events, reads, departures and the
  -- shutdown: the buffer of events holds at most 64 and each client's channel at most 32; no channel is
  -- closed twice or sent to when closed; the channel of a known client is open exactly as long as the hub
  -- runs; a handler in its loop or behind it is known or has its channel closed, so it does not wait for
  -- ever; and a client with a filter gets payloads of its notification only.
  pub run-IsSound : (actions : List Action) → IsSound (run parse_uuid envelope actions new_hub)
  run-IsSound actions =
      run_from-IsSound actions new_hub
        (record { buffered = omega arith; parsed = tt; clients = tt })
