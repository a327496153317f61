-- ===== src/Api/Hub/Client.antt =====
-- What holds of one client of internal/api/hub.go, and that every move of it keeps it so.
use notifier.Base.{
  String, ℕ, ◌≤◌, ◌≡◌, refl, sym, ap, subst, ◌∙◌, ◌⊎◌, ◌==◌, ◌&&◌, if◌then◌else◌, inl, inr, Bool,
  true, false, not, ◌||◌, List, [], ◌∷◌, ◌++◌, Option, some, ltb, length, length-append, All,
  All-append, arith, Bool-cases,
}
use notifier.Api.Hub.{
  HubEvent, Phase, registering, streaming, leaving, WsClient, client_send_buffer, on_register,
  on_unregister, on_event, on_stop, on_take, on_leave, on_give_up, new_client, send_or_drop,
}

abbrev pub is_waiting : Phase → Bool
is_waiting registering = true
is_waiting _ = false

-- The handler is in its loop or about to unregister.
abbrev pub is_served : Phase → Bool
is_served streaming = true
is_served leaving = true
is_served _ = false

-- What holds of either branch holds of the choice.
pub choose_lem :
    (P : WsClient → Type 0) (b : Bool) (x y : WsClient)
    → (b ≡ true → P x)
    → (b ≡ false → P y)
    → P (if b then x else y)
choose_lem P true x y f g = f refl
choose_lem P false x y f g = g refl

module _ (envelope : String → Option ℕ) where
  -- A payload that a client with this filter asked for.
  abbrev pub IsWanted : ℕ → String → Type 0
  IsWanted filter_id p = (filter_id ≡ 0) ⊎ (envelope p ≡ some filter_id)

  -- A client of a hub that runs or is done.
  pub record IsOk (done : Bool) (c : WsClient) : Type 0 where
    pub unbroken : c.broken ≡ false
    pub bounded : length c.send ≤ client_send_buffer
    pub held_open : done ≡ false → c.known ≡ true → c.closed ≡ false
    pub waiting : is_waiting c.phase ≡ true → (c.known ≡ false) × (c.closed ≡ false)
    pub served : is_served c.phase ≡ true → (c.known || c.closed) ≡ true
    pub ended : done ≡ true → c.known ≡ true → c.closed ≡ true
    pub sent_wanted : All (IsWanted c.filter_id) c.send
    pub written_wanted : All (IsWanted c.filter_id) c.written

  pub new_client-IsOk : (done : Bool) (key filter_id : ℕ) → IsOk done (new_client key filter_id)
  new_client-IsOk done key filter_id = ground arith

  pub on_register-IsOk :
      (c : WsClient) → is_waiting c.phase ≡ true → IsOk false c → IsOk false (on_register c)
  unfolding on_register
  on_register-IsOk c w h = ground arith

  pub on_unregister-IsOk :
      (c : WsClient) → is_served c.phase ≡ true → IsOk false c → IsOk false (on_unregister c)
  unfolding on_unregister
  on_unregister-IsOk c p h = elim (Bool-cases c.known) [
    | inl k ↦ rw k (ground arith)
    | inr k ↦ rw k (ground arith)
  ]

  pub on_stop-IsOk : (c : WsClient) → IsOk false c → IsOk true (on_stop c)
  unfolding on_stop
  on_stop-IsOk c h = elim (Bool-cases c.known) [
    | inl k ↦ rw k (ground arith)
    | inr k ↦ rw k (ground arith)
  ]

  pub on_leave-IsOk :
      (done : Bool) (c : WsClient) → is_served c.phase ≡ true → IsOk done c → IsOk done (on_leave c)
  unfolding on_leave
  on_leave-IsOk done c p h = ground arith

  pub on_give_up-IsOk : (done : Bool) (c : WsClient) → IsOk done c → IsOk done (on_give_up c)
  unfolding on_give_up
  on_give_up-IsOk done c h = ground arith

  taken-IsOk :
      (done : Bool) (c : WsClient) (send : List String)
      → c.send ≡ send
      → is_waiting c.phase ≡ false
      → is_served c.phase ≡ true
      → IsOk done c
      → IsOk done (elim send [
        | [] ↦ if c.closed then record c { phase = leaving } else c
        | p ∷ ps ↦ record c { send = ps; written = c.written ++ p ∷ [] }
      ])
  taken-IsOk done c [] e v p h = choose_lem (IsOk done) c.closed _ c (λ k. ground arith) (λ k. h)
  taken-IsOk done c (x ∷ xs) e v p h =
      let size : length c.send ≡ length (x ∷ xs) = ap length e in
      let wanted : All (IsWanted c.filter_id) (x ∷ xs) =
        subst (All (IsWanted c.filter_id)) e h.sent_wanted in
      record {
        unbroken = h.unbroken;
        bounded = omega (arith, size, h.bounded);
        held_open = h.held_open;
        waiting = h.waiting;
        served = h.served;
        ended = h.ended;
        sent_wanted = wanted.1;
        written_wanted =
            All-append (IsWanted c.filter_id) c.written (x ∷ []) h.written_wanted (wanted.0, tt);
      }

  pub on_take-IsOk :
      (done : Bool) (c : WsClient)
      → is_waiting c.phase ≡ false
      → is_served c.phase ≡ true
      → IsOk done c
      → IsOk done (on_take c)
  unfolding on_take
  on_take-IsOk done c v p h = taken-IsOk done c c.send refl v p h

  send_or_drop-IsOk :
      (payload : String) (c : WsClient)
      → c.known ≡ true
      → IsWanted c.filter_id payload
      → IsOk false c
      → IsOk false (send_or_drop payload c)
  send_or_drop-IsOk payload c k w h =
      choose_lem (IsOk false) c.closed _ _ (λ shut. absurd (let o = h.held_open refl k in cc))
        (λ free.
          choose_lem (IsOk false) (ltb (length c.send) client_send_buffer) _ _
            (λ room. record {
              unbroken = h.unbroken;
              bounded = (let size = length-append c.send (payload ∷ []) in ground (arith, size));
              held_open = h.held_open;
              waiting = h.waiting;
              served = h.served;
              ended = h.ended;
              sent_wanted =
                  All-append (IsWanted c.filter_id) c.send (payload ∷ []) h.sent_wanted (w, tt);
              written_wanted = h.written_wanted;
            })
            (λ full. ground arith))

  pub on_event-IsOk :
      (e : HubEvent) (c : WsClient)
      → envelope e.payload ≡ some e.notification_id
      → IsOk false c
      → IsOk false (on_event e c)
  unfolding on_event
  on_event-IsOk e c r h =
      choose_lem (IsOk false) c.known _ _
        (λ k.
          choose_lem (IsOk false) (not (c.filter_id == 0) && not (c.filter_id == e.notification_id))
            _ _ (λ other. h) (λ meant. send_or_drop-IsOk e.payload c k (wants meant) h))
        (λ k. h)
    where
      wants :
          (not (c.filter_id == 0) && not (c.filter_id == e.notification_id)) ≡ false
          → IsWanted c.filter_id e.payload
      wants meant = elim (Bool-cases (c.filter_id == 0)) [
        | inl z ↦ inl (ground arith)
        | inr z ↦
            inr
              (let same : c.filter_id ≡ e.notification_id = ground arith in r ∙ ap some (sym same))
      ]
