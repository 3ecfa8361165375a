-- ===== src/Hub/Tests.antt =====
-- Calls of a hub with two connections, and the theorems at them.
use eitoh_forge.Prelude.{
  ℕ, ◌≡◌, refl, String, str_eq, false, none, some, List, [], ◌∷◌, ◌++◌, if◌then◌else◌, length,
}
use eitoh_forge.Prelude.Results.{ok}
use eitoh_forge.Prelude.Sets.{has, Distinct}
use eitoh_forge.Hub.{SocketPrincipal, new_hub}
use eitoh_forge.Hub.Send.{Send, broadcast}
use eitoh_forge.Hub.Table.{
  Call, register_call, join_call, leave_call, hub_run, table_run, empty_table, Agrees,
  hub_run-Agrees,
}
use eitoh_forge.Hub.Delivery.{send_each, broadcast-Delivers}

abbrev principal : String → SocketPrincipal
principal actor = record { actor_id = actor; tenant_id = none }

-- A connection is the name that its sends leave in the world.
abbrev calls : List (Call String)
calls =
    register_call "A" (principal "ada")
    ∷ register_call "B" (principal "bob")
    ∷ join_call " lobby " "conn-1"
    ∷ join_call "lobby" "conn-2"
    ∷ join_call "lobby" "conn-9"
    ∷ leave_call "lobby" "conn-9"
    ∷ []

abbrev log_send : Send String ℕ ℕ (List String)
log_send c m w = (none, w ++ c ∷ [])

hub_run-Agrees_example : Agrees (hub_run new_hub calls) (table_run empty_table calls)
hub_run-Agrees_example = hub_run-Agrees calls

broadcast-Delivers_example :
    (ids : List String) × Distinct ids
    × ((id : String)
        → has id ids ≡ (
            if str_eq "conn-1" id
            then false
            else (table_run {C = String} empty_table calls).joined id "lobby"))
    × (broadcast log_send (hub_run new_hub calls) "lobby" "hi" 7 (some "conn-1") 5 [] ≡ (
      ok (length ids),
      send_each log_send
          (hub_run new_hub calls).connections
          (record {
            event = "hi";
            room = "lobby";
            payload = 7;
            occurred_at = 5;
            from_actor_id = none;
            target_actor_id = none;
          })
          ids
          [],
    ))
broadcast-Delivers_example =
    broadcast-Delivers log_send calls "lobby" "hi" "conn-1" 7 5 [] (λ c m w. refl)
