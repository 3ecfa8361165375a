-- ===== src/Hub/Send.antt =====
-- The sends of the hub: broadcast and send_direct_to_actor.
use eitoh_forge.Prelude.{
  ℕ, ◌+◌, String, str_eq, Option, none, some, List, [], ◌∷◌, Bool, false, if◌then◌else◌,
}
use eitoh_forge.Prelude.Dict.{Dict, get}
use eitoh_forge.Prelude.Sets.{members}
use eitoh_forge.Prelude.Results.{Result, ok, err}
use eitoh_forge.Hub.{SocketPrincipal, SocketEnvelope, InMemorySocketHub}

-- What a send does.
abbrev pub Send : Type 0 → Type 0 → Type 0 → Type 0 → Type 0
Send C V E W = C → SocketEnvelope V → W → Option E × W

-- `exclude_connection_id is not None and connection_id == exclude_connection_id`
abbrev pub is_excluded : Option String → String → Bool
is_excluded none connection_id = false
is_excluded (some x) connection_id = str_eq connection_id x

module _ {C V E W : Type 0} (send : Send C V E W) where
  -- One send, and then `rest` with the count one higher.
  unfoldable pub send_then :
      C → SocketEnvelope V → W → ℕ → (ℕ → W → Result E ℕ × W) → Result E ℕ × W
  send_then connection message w delivered rest =
      let (raised, w') = send connection message w in
      elim raised [ some e ↦ (err e, w') | none ↦ rest (delivered + 1) w' ]

  -- The loop of broadcast
  unfoldable pub broadcast_to :
      InMemorySocketHub C → SocketEnvelope V → Option String → List String → ℕ → W → Result E ℕ × W
  unfolding send_then
  broadcast_to hub message exclude [] delivered w = (ok delivered, w)
  broadcast_to hub message exclude (connection_id ∷ ids) delivered w =
      let rest = broadcast_to hub message exclude ids in
      if is_excluded exclude connection_id
      then rest delivered w
      else elim (get hub.connections connection_id) [
        | none ↦ rest delivered w
        | some connection ↦ send_then connection message w delivered rest
      ]

  -- InMemorySocketHub.broadcast at the time `now`
  unfoldable pub broadcast :
      InMemorySocketHub C
      → (room event : String) → V
      → Option String
      → (now : ℕ) → W
      → Result E ℕ × W
  unfolding broadcast_to
  broadcast hub room event payload exclude now w =
      broadcast_to hub
        (record {
          event = event;
          room = room;
          payload = payload;
          occurred_at = now;
          from_actor_id = none;
          target_actor_id = none;
        })
        exclude (members hub.rooms room) 0 w

  -- The loop of send_direct_to_actor, over the principals
  unfoldable pub direct_to :
      InMemorySocketHub C
      → SocketEnvelope V
      → String
      → Option String
      → Dict SocketPrincipal
      → ℕ
      → W
      → Result E ℕ × W
  unfolding send_then
  direct_to hub message target exclude [] delivered w = (ok delivered, w)
  direct_to hub message target exclude ((connection_id, principal) ∷ more) delivered w =
      let rest = direct_to hub message target exclude more in
      if str_eq principal.actor_id target
      then if is_excluded exclude connection_id
        then rest delivered w
        else elim (get hub.connections connection_id) [
          | none ↦ rest delivered w
          | some connection ↦ send_then connection message w delivered rest
        ]
      else rest delivered w

  -- InMemorySocketHub.send_direct_to_actor at the time `now`
  unfoldable pub send_direct_to_actor :
      InMemorySocketHub C
      → (target event : String) → V
      → (from_actor : String) → Option String
      → (now : ℕ) → W
      → Result E ℕ × W
  unfolding direct_to
  send_direct_to_actor hub target event payload from_actor exclude now w =
      direct_to hub
        (record {
          event = event;
          room = "__direct__";
          payload = payload;
          occurred_at = now;
          from_actor_id = some from_actor;
          target_actor_id = some target;
        })
        target exclude hub.principals 0 w
