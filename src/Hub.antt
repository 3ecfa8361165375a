-- ===== src/Hub.antt =====
-- src/eitohforge_sdk/infrastructure/sockets/hub.py and contracts.py: the in-memory socket hub. A
-- connection is a value of the type `C`; its send_json is the argument `send`, which acts on a
-- world of type `W` and returns or raises, and during which no other call of the hub runs. `V` is
-- the type of a payload.
pub mod Send
pub mod Table
pub mod Delivery
mod Tests
use eitoh_forge.Prelude.{
  ℕ, ◌+◌, ◌≡◌, String, str_append, str_eq, Bool, true, false, ◌&&◌, Option, none, some, is_some,
  List, [], ◌∷◌, ◌++◌, map, if◌then◌else◌,
}
use eitoh_forge.Prelude.Text.{is_blank, strip}
use eitoh_forge.Prelude.Dict.{Dict, get, put, remove}
use eitoh_forge.Prelude.Sets.{Sets, has, members, add_member, discard_member}
use eitoh_forge.Prelude.Sort.{sorted}
use eitoh_forge.Prelude.Decimal.{decimal}
use eitoh_forge.Prelude.Results.{Result, ok, err}

pub record SocketPrincipal : Type 0 where
  pub actor_id : String
  pub tenant_id : Option String

-- SocketEnvelope, and the sender and target of a direct message
pub record SocketEnvelope (V : Type 0) : Type 0 where
  pub event : String
  pub room : String
  pub payload : V
  pub occurred_at : ℕ
  pub from_actor_id : Option String
  pub target_actor_id : Option String

pub record InMemorySocketHub (C : Type 0) : Type 0 where
  pub connections : Dict C
  pub principals : Dict SocketPrincipal
  pub rooms : Sets
  pub member_rooms : Sets
  pub next_connection_id : ℕ

abbrev pub connection_name : ℕ → String
connection_name n = str_append "conn-" (decimal n)

-- The loop of room_presence: connections by actor
unfoldable pub group_by_actor :
    Dict SocketPrincipal → List String → Dict (List String) → Dict (List String)
group_by_actor principals [] grouped = grouped
group_by_actor principals (connection_id ∷ ids) grouped =
    group_by_actor principals ids (elim (get principals connection_id) [
      | none ↦ grouped
      | some principal ↦
          put grouped principal.actor_id (members grouped principal.actor_id ++ connection_id ∷ [])
    ])

abbrev pub sort_values : Dict (List String) → Dict (List String)
sort_values [] = []
sort_values ((k, v) ∷ d) = (k, sorted v) ∷ sort_values d

module _ {C : Type 0} where
  abbrev pub new_hub : InMemorySocketHub C
  new_hub = record {
    connections = [];
    principals = [];
    rooms = [];
    member_rooms = [];
    next_connection_id = 1;
  }

  -- InMemorySocketHub.register
  unfoldable pub register : InMemorySocketHub C → C → SocketPrincipal → String × InMemorySocketHub C
  register hub connection principal =
      let connection_id = connection_name hub.next_connection_id in
      (
        connection_id,
        record hub {
          connections = put hub.connections connection_id connection;
          principals = put hub.principals connection_id principal;
          next_connection_id = hub.next_connection_id + 1;
        },
      )

  -- InMemorySocketHub.join_room
  unfoldable pub join_room : InMemorySocketHub C → String → String → Bool × InMemorySocketHub C
  unfolding strip
  join_room hub room connection_id =
      let normalized_room = strip room in
      if is_some (get hub.connections connection_id)
      then if is_blank normalized_room then (false, hub) else (
        true,
        record hub {
          rooms = add_member hub.rooms normalized_room connection_id;
          member_rooms = add_member hub.member_rooms connection_id normalized_room;
        },
      )
      else (false, hub)

  -- InMemorySocketHub.leave_room
  unfoldable pub leave_room : InMemorySocketHub C → String → String → Bool × InMemorySocketHub C
  unfolding strip
  leave_room hub room connection_id =
      let normalized_room = strip room in
      if is_blank normalized_room
      then (false, hub)
      else if has connection_id (members hub.rooms normalized_room)
      then (
        true,
        record hub {
          rooms = discard_member hub.rooms normalized_room connection_id;
          member_rooms = discard_member hub.member_rooms connection_id normalized_room;
        },
      )
      else (false, hub)

  -- The loop of disconnect
  unfoldable pub leave_all : InMemorySocketHub C → String → List String → InMemorySocketHub C
  unfolding leave_room
  leave_all hub connection_id [] = hub
  leave_all hub connection_id (room ∷ rooms) =
      leave_all (leave_room hub room connection_id).1 connection_id rooms

  -- InMemorySocketHub.disconnect
  unfoldable pub disconnect : InMemorySocketHub C → String → Bool × InMemorySocketHub C
  unfolding leave_all
  disconnect hub connection_id =
      let popped = record hub {
        connections = remove hub.connections connection_id;
        principals = remove hub.principals connection_id;
      } in
      let left = leave_all popped connection_id (members hub.member_rooms connection_id) in
      (
        is_some (get hub.connections connection_id),
        record left { member_rooms = remove left.member_rooms connection_id },
      )

  -- InMemorySocketHub.room_members
  unfoldable pub room_members : InMemorySocketHub C → String → List String
  unfolding sorted
  room_members hub room = sorted (members hub.rooms room)

  -- InMemorySocketHub.room_presence
  unfoldable pub room_presence : InMemorySocketHub C → String → Dict (List String)
  unfolding group_by_actor
  room_presence hub room = sort_values (group_by_actor hub.principals (members hub.rooms room) [])

  -- InMemorySocketHub.connection_rooms
  unfoldable pub connection_rooms : InMemorySocketHub C → String → List String
  unfolding sorted
  connection_rooms hub connection_id = sorted (members hub.member_rooms connection_id)

  -- InMemorySocketHub.principal_for_connection
  unfoldable pub principal_for_connection : InMemorySocketHub C → String → Option SocketPrincipal
  principal_for_connection hub connection_id = get hub.principals connection_id
