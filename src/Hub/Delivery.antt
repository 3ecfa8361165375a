-- ===== src/Hub/Delivery.antt =====
-- Who gets a broadcast.
use eitoh_forge.Prelude.{
  ℕ, ◌+◌, ◌≡◌, refl, sym, ap, subst, ◌∙◌, String, str_eq, eq_iff, Bool, true, false, none, some,
  is_some, List, [], ◌∷◌, if◌then◌else◌, arith, inl, inr, Bool-cases, Option-cases, if_intro,
  length,
}
use eitoh_forge.Prelude.Text.{is_blank, strip}
use eitoh_forge.Prelude.Dict.{Dict, get}
use eitoh_forge.Prelude.Results.{ok}
use eitoh_forge.Prelude.Sets.{
  has, members, without, Distinct, Distinct-add, Distinct-without, members-add_member,
  members-discard_member, has-without,
}
use eitoh_forge.Hub.{
  SocketEnvelope, InMemorySocketHub, new_hub, register, join_room, leave_room, leave_all,
  disconnect,
}
use eitoh_forge.Hub.Send.{Send, send_then, broadcast_to, broadcast}
use eitoh_forge.Hub.Table.{
  Call, register_call, join_call, leave_call, disconnect_call, hub_step, hub_run, table_run,
  empty_table, hub_run-Agrees,
}

Distinct-none : (room : String) → Distinct (members [] room)
unfolding members get
Distinct-none room = tt

module _ {C : Type 0} where
  -- No room names a member twice.
  abbrev RoomsDistinct : InMemorySocketHub C → Type 0
  RoomsDistinct hub = (room : String) → Distinct (members hub.rooms room)

  join_room-RoomsDistinct :
      (hub : InMemorySocketHub C) (r id : String)
      → RoomsDistinct hub
      → RoomsDistinct (join_room hub r id).1
  unfolding join_room
  join_room-RoomsDistinct hub r id d room =
      let P = λ (x : Bool × InMemorySocketHub C). Distinct (members x.1.rooms room) in
      if_intro P (is_some (get hub.connections id)) _ _
        (λ e.
          if_intro P (is_blank (strip r)) _ _ (λ f. d room)
            (λ f. subst Distinct (sym (members-add_member hub.rooms (strip r) room id)) (
              if_intro Distinct (str_eq (strip r) room) _ _ (λ g. Distinct-add _ id (d (strip r)))
                (λ g. d room))))
        (λ e. d room)

  leave_room-RoomsDistinct :
      (hub : InMemorySocketHub C) (r id : String)
      → RoomsDistinct hub
      → RoomsDistinct (leave_room hub r id).1
  unfolding leave_room
  leave_room-RoomsDistinct hub r id d room =
      let P = λ (x : Bool × InMemorySocketHub C). Distinct (members x.1.rooms room) in
      if_intro P (is_blank (strip r)) _ _ (λ e. d room)
        (λ e.
          if_intro P (has id (members hub.rooms (strip r))) _ _
            (λ f. subst Distinct (sym (members-discard_member hub.rooms (strip r) room id)) (
              if_intro Distinct (str_eq (strip r) room) _ _
                (λ g. Distinct-without id _ (d (strip r))) (λ g. d room)))
            (λ f. d room))

  leave_all-RoomsDistinct :
      (hub : InMemorySocketHub C) (id : String) (rooms : List String)
      → RoomsDistinct hub
      → RoomsDistinct (leave_all hub id rooms)
  unfolding leave_all
  leave_all-RoomsDistinct hub id [] d = d
  leave_all-RoomsDistinct hub id (r ∷ rooms) d =
      leave_all-RoomsDistinct (leave_room hub r id).1 id rooms (leave_room-RoomsDistinct hub r id d)

  step-RoomsDistinct :
      (hub : InMemorySocketHub C) (call : Call C)
      → RoomsDistinct hub
      → RoomsDistinct (hub_step hub call)
  unfolding register disconnect
  step-RoomsDistinct hub (register_call c p) d = d
  step-RoomsDistinct hub (join_call r id) d = join_room-RoomsDistinct hub r id d
  step-RoomsDistinct hub (leave_call r id) d = leave_room-RoomsDistinct hub r id d
  step-RoomsDistinct hub (disconnect_call id) d =
      leave_all-RoomsDistinct _ id (members hub.member_rooms id) d

  run-RoomsDistinct :
      (hub : InMemorySocketHub C) (calls : List (Call C))
      → RoomsDistinct hub
      → RoomsDistinct (hub_run hub calls)
  unfolding hub_run
  run-RoomsDistinct hub [] d = d
  run-RoomsDistinct hub (call ∷ calls) d =
      run-RoomsDistinct (hub_step hub call) calls (step-RoomsDistinct hub call d)

module _ {C V E W : Type 0} (send : Send C V E W) where
  unfoldable pub send_one : Dict C → SocketEnvelope V → String → W → W
  send_one connections message id w = elim (get connections id) [
    | none ↦ w
    | some c ↦ (send c message w).1
  ]

  -- The sends to the connections of ids, in order.
  unfoldable pub send_each : Dict C → SocketEnvelope V → List String → W → W
  unfolding send_one
  send_each connections message [] w = w
  send_each connections message (id ∷ ids) w =
      send_each connections message ids (send_one connections message id w)

  broadcast_to_lem :
      (hub : InMemorySocketHub C) (message : SocketEnvelope V) (x : String) (ids : List String)
      (n : ℕ) (w : W)
      → ((c : C) (w : W) → (send c message w).0 ≡ none)
      → ((id : String) → has id ids ≡ true → is_some (get hub.connections id) ≡ true)
      → broadcast_to send hub message (some x) ids n w
        ≡ (ok (n + length (without x ids)), send_each hub.connections message (without x ids) w)
  unfolding broadcast_to send_each without has
  broadcast_to_lem hub message x [] n w quiet live = ap (λ k. (ok k, w)) (omega arith)
  broadcast_to_lem hub message x (id ∷ ids) n w quiet live =
      let ih = λ (k : ℕ) (v : W).
        broadcast_to_lem hub message x ids k v quiet (λ j h. live j (ground (arith, h))) in
      elim (Bool-cases (str_eq id x)) [
        | inl e ↦ rw e (ih n w)
        | inr e ↦ elim (Option-cases (get hub.connections id)) [
          | inl f ↦ absurd (ground (arith, live id, f, eq_iff id id))
          | inr (c, f) ↦
              let rest = without x ids in
              let one : send_one hub.connections message id w ≡ (send c message w).1 =
                rw (f, send_one) refl in
              rw (e, f, send_then, quiet c w)
                (ih (n + 1) (send c message w).1
                  ∙ ap (λ v. (ok (n + 1 + length rest), send_each hub.connections message rest v))
                      (sym one)
                  ∙ ap
                      (λ k. (
                        ok k,
                        send_each hub.connections message rest
                            (send_one hub.connections message id w),
                      ))
                      (omega arith))
        ]
      ]

  -- In the hub after every sequence of calls, if no send of the message raises: a broadcast that
  -- excludes `x` sends to some ids, in order, each once, and returns their number; and these are
  -- exactly the connections other than `x` that have joined the room by the table.
  pub broadcast-Delivers :
      (calls : List (Call C)) (room event x : String) (payload : V) (now : ℕ) (w : W)
      → ((c : C) (m : SocketEnvelope V) (w : W) → (send c m w).0 ≡ none)
      → let hub = hub_run new_hub calls in
        let message : SocketEnvelope V = record {
          event = event;
          room = room;
          payload = payload;
          occurred_at = now;
          from_actor_id = none;
          target_actor_id = none;
        } in
        (ids : List String) × Distinct ids
        × ((id : String)
            → has id ids ≡ (
                if str_eq x id
                then false
                else (table_run {C = C} empty_table calls).joined id room))
        × (broadcast send hub room event payload (some x) now w
            ≡ (ok (length ids), send_each hub.connections message ids w))
  unfolding broadcast
  broadcast-Delivers calls room event x payload now w quiet =
      let hub = hub_run new_hub calls in
      let message : SocketEnvelope V = record {
        event = event;
        room = room;
        payload = payload;
        occurred_at = now;
        from_actor_id = none;
        target_actor_id = none;
      } in
      let a = hub_run-Agrees calls in
      let distinct = run-RoomsDistinct new_hub calls (λ r. Distinct-none r) in
      let s = members hub.rooms room in
      (
        without x s,
        Distinct-without x s (distinct room),
        λ id. ground (arith, has-without id x s, a.tracks.in_room id room),
        broadcast_to_lem hub message x s 0 w (λ c v. quiet c message v)
              (λ id h. a.connected id ∙ a.alive id room (sym (a.tracks.in_room id room) ∙ h))
            ∙ ap (λ k. (ok k, send_each hub.connections message (without x s) w)) (omega arith),
      )
