-- ===== src/Hub/Table.antt =====
-- The hub against a table of who is connected and who has joined what.
use eitoh_forge.Prelude.{
  ℕ, ◌+◌, ◌≡◌, refl, sym, ap, ◌∙◌, String, str_eq, eq_iff, Bool, true, false, not, ◌&&◌, is_some,
  List, [], ◌∷◌, if◌then◌else◌, arith, if_intro,
}
use eitoh_forge.Prelude.Text.{is_blank, strip, strip_twice}
use eitoh_forge.Prelude.Dict.{get, remove, get-put, get-remove}
use eitoh_forge.Prelude.Sets.{has, members, has-add_member, has-discard_member, has-remove}
use eitoh_forge.Hub.{
  SocketPrincipal, InMemorySocketHub, connection_name, new_hub, register, join_room, leave_room,
  leave_all, disconnect,
}

pub record Table : Type 0 where
  pub live : String → Bool
  -- connection, room
  pub joined : String → String → Bool
  pub next : ℕ

pub data Call (C : Type 0) : Type 0 where
  register_call : C → SocketPrincipal → Call C
  join_call : (room connection_id : String) → Call C
  leave_call : (room connection_id : String) → Call C
  disconnect_call : (connection_id : String) → Call C

abbrev pub empty_table : Table
empty_table = record { live = λ i. false; joined = λ i x. false; next = 1 }

-- Whether one of the rooms has the stripped name.
abbrev strips : String → List String → Bool
strips x [] = false
strips x (r ∷ rooms) = if str_eq (strip r) x then true else strips x rooms

strips_lem :
    (x : String) (rooms : List String) → has x rooms ≡ true → strip x ≡ x → strips x rooms ≡ true
unfolding has
strips_lem x [] h e = h
strips_lem x (r ∷ rooms) h e = ground (arith, strips_lem x rooms, eq_iff r x, eq_iff (strip r) x, e)

module _ {C : Type 0} where
  abbrev pub hub_step : InMemorySocketHub C → Call C → InMemorySocketHub C
  hub_step hub (register_call c p) = (register hub c p).1
  hub_step hub (join_call r id) = (join_room hub r id).1
  hub_step hub (leave_call r id) = (leave_room hub r id).1
  hub_step hub (disconnect_call id) = (disconnect hub id).1

  -- The same on the table: a room counts by its stripped name, and only a live connection joins.
  abbrev pub table_step : Table → Call C → Table
  table_step t (register_call c p) = record t {
    live = λ i. if str_eq (connection_name t.next) i then true else t.live i;
    next = t.next + 1;
  }
  table_step t (join_call r id) = record t {
    joined = λ i x.
        if t.live id && not (is_blank (strip r))
        then (if str_eq id i && str_eq (strip r) x then true else t.joined i x)
        else t.joined i x;
  }
  table_step t (leave_call r id) = record t {
    joined = λ i x. if str_eq id i && str_eq (strip r) x then false else t.joined i x;
  }
  table_step t (disconnect_call id) = record t {
    live = λ i. if str_eq id i then false else t.live i;
    joined = λ i x. if str_eq id i then false else t.joined i x;
  }

  -- The two dicts of sets hold the relation, of stripped names only.
  pub record Tracks (hub : InMemorySocketHub C) (joined : String → String → Bool) : Type 0 where
    pub in_room : (id room : String) → has id (members hub.rooms room) ≡ joined id room
    pub has_room : (id room : String) → has room (members hub.member_rooms id) ≡ joined id room
    pub normal :
        (id room : String) → joined id room ≡ true → (strip room ≡ room) × (is_blank room ≡ false)

  pub record Agrees (hub : InMemorySocketHub C) (t : Table) : Type 0 where
    pub connected : (id : String) → is_some (get hub.connections id) ≡ t.live id
    pub known : (id : String) → is_some (get hub.principals id) ≡ t.live id
    pub counter : hub.next_connection_id ≡ t.next
    pub alive : (id room : String) → t.joined id room ≡ true → t.live id ≡ true
    pub tracks : Tracks hub t.joined

  register-Agrees :
      (hub : InMemorySocketHub C) (t : Table) (c : C) (p : SocketPrincipal)
      → Agrees hub t
      → Agrees (register hub c p).1 (table_step t (register_call c p))
  unfolding register
  register-Agrees hub t c p a =
      let name = connection_name hub.next_connection_id in
      let r = a.tracks in
      record {
        connected = λ id.
            rw (sym a.counter) (ground (arith, get-put hub.connections name id c, a.connected id));
        known =
            λ id. rw (sym a.counter) (ground (arith, get-put hub.principals name id p, a.known id));
        counter = omega (arith, a.counter);
        alive = λ id room j. ground (arith, a.alive id room j);
        tracks = record { in_room = r.in_room; has_room = r.has_room; normal = r.normal };
      }

  join_room-Agrees :
      (hub : InMemorySocketHub C) (t : Table) (r id : String)
      → Agrees hub t
      → Agrees (join_room hub r id).1 (table_step t (join_call r id))
  unfolding join_room
  join_room-Agrees hub t r id a = record {
    connected = λ i. ground (arith, a.connected i);
    known = λ i. ground (arith, a.known i);
    counter = ground (arith, a.counter);
    alive = λ i x j. ground (arith, a.alive i x, eq_iff id i, j);
    tracks = record {
      in_room = λ i x. ground (
        arith,
        a.tracks.in_room i x,
        a.connected id,
        has-add_member hub.rooms (strip r) x i id,
        eq_iff (strip r) x,
        eq_iff id i,
      );
      has_room = λ i x. ground (
        arith,
        a.tracks.has_room i x,
        a.connected id,
        has-add_member hub.member_rooms id i x (strip r),
        eq_iff (strip r) x,
        eq_iff id i,
      );
      normal = λ i x j. ground (arith, a.tracks.normal i x, strip_twice r, eq_iff (strip r) x, j);
    };
  }

  leave_room-Tracks :
      (hub : InMemorySocketHub C) (joined : String → String → Bool) (r id : String)
      → Tracks hub joined
      → Tracks
          (leave_room hub r id).1
          (λ i x. if str_eq id i && str_eq (strip r) x then false else joined i x)
  unfolding leave_room
  leave_room-Tracks hub joined r id a = record {
    in_room = λ i x. ground (
      arith,
      a.in_room i x,
      a.in_room id (strip r),
      a.normal i x,
      has-discard_member hub.rooms (strip r) x i id,
      eq_iff (strip r) x,
      eq_iff id i,
    );
    has_room = λ i x. ground (
      arith,
      a.has_room i x,
      a.in_room id (strip r),
      a.in_room i x,
      a.normal i x,
      has-discard_member hub.member_rooms id i x (strip r),
      eq_iff (strip r) x,
      eq_iff id i,
    );
    normal = λ i x j. ground (arith, a.normal i x, j);
  }

  -- Only the rooms differ.
  abbrev KeepsConnections : InMemorySocketHub C → InMemorySocketHub C → Type 0
  KeepsConnections hub left =
      (left.connections ≡ hub.connections)
      × (left.principals ≡ hub.principals)
      × (left.next_connection_id ≡ hub.next_connection_id)

  leave_room-KeepsConnections :
      (hub : InMemorySocketHub C) (r id : String) → KeepsConnections hub (leave_room hub r id).1
  unfolding leave_room
  leave_room-KeepsConnections hub r id =
      let P = λ (x : Bool × InMemorySocketHub C). KeepsConnections hub x.1 in
      if_intro P (is_blank (strip r)) _ _ (λ e. (refl, refl, refl))
        (λ e.
          if_intro P (has id (members hub.rooms (strip r))) _ _ (λ e. (refl, refl, refl))
            (λ e. (refl, refl, refl)))

  leave_all-KeepsConnections :
      (hub : InMemorySocketHub C) (id : String) (rooms : List String)
      → KeepsConnections hub (leave_all hub id rooms)
  unfolding leave_all
  leave_all-KeepsConnections hub id [] = (refl, refl, refl)
  leave_all-KeepsConnections hub id (r ∷ rooms) =
      let (a, b, c) = leave_room-KeepsConnections hub r id in
      let (x, y, z) = leave_all-KeepsConnections (leave_room hub r id).1 id rooms in
      (x ∙ a, y ∙ b, z ∙ c)

  leave_all-Tracks :
      (hub : InMemorySocketHub C) (joined : String → String → Bool) (id : String)
      (rooms : List String)
      → Tracks hub joined
      → Tracks
          (leave_all hub id rooms)
          (λ i x. if str_eq id i && strips x rooms then false else joined i x)
  unfolding leave_all
  leave_all-Tracks hub joined id [] a = record {
    in_room = λ i x. ground (arith, a.in_room i x);
    has_room = λ i x. ground (arith, a.has_room i x);
    normal = λ i x j. ground (arith, a.normal i x, j);
  }
  leave_all-Tracks hub joined id (r ∷ rooms) a =
      let b =
        leave_all-Tracks (leave_room hub r id).1 _ id rooms (leave_room-Tracks hub joined r id a) in
      record {
        in_room = λ i x. ground (arith, b.in_room i x);
        has_room = λ i x. ground (arith, b.has_room i x);
        normal = λ i x j. ground (arith, b.normal i x, j);
      }

  leave_room-Agrees :
      (hub : InMemorySocketHub C) (t : Table) (r id : String)
      → Agrees hub t
      → Agrees (leave_room hub r id).1 (table_step t (leave_call r id))
  leave_room-Agrees hub t r id a =
      let (c, p, n) = leave_room-KeepsConnections hub r id in
      record {
        connected = λ i. ap (λ d. is_some (get d i)) c ∙ a.connected i;
        known = λ i. ap (λ d. is_some (get d i)) p ∙ a.known i;
        counter = n ∙ a.counter;
        alive = λ i x j. ground (arith, a.alive i x, j);
        tracks = leave_room-Tracks hub t.joined r id a.tracks;
      }

  disconnect-Agrees :
      (hub : InMemorySocketHub C) (t : Table) (id : String)
      → Agrees hub t
      → Agrees (disconnect hub id).1 (table_step t (disconnect_call id))
  unfolding disconnect
  disconnect-Agrees hub t id a =
      let popped : InMemorySocketHub C = record hub {
        connections = remove hub.connections id;
        principals = remove hub.principals id;
      } in
      let listed = members hub.member_rooms id in
      let (c, p, n) = leave_all-KeepsConnections popped id listed in
      let r = a.tracks in
      let popped_tracks : Tracks popped t.joined = record {
        in_room = r.in_room;
        has_room = r.has_room;
        normal = r.normal;
      } in
      let b = leave_all-Tracks popped t.joined id listed popped_tracks in
      let left = leave_all popped id listed in
      let all = λ (x : String). strips_lem x listed in
      record {
        connected = λ i.
            ap (λ d. is_some (get d i)) c
            ∙ ground (arith, get-remove hub.connections id i, a.connected i);
        known = λ i.
            ap (λ d. is_some (get d i)) p
            ∙ ground (arith, get-remove hub.principals id i, a.known i);
        counter = n ∙ a.counter;
        alive = λ i x j. ground (arith, a.alive i x, j);
        tracks = record {
          in_room = λ i x.
              b.in_room i x ∙ ground (arith, eq_iff id i, r.has_room id x, r.normal id x, all x);
          has_room = λ i x. ground (arith, has-remove left.member_rooms id i x, b.has_room i x);
          normal = λ i x j. ground (arith, r.normal i x, j);
        };
      }

  Agrees-step :
      (hub : InMemorySocketHub C) (t : Table) (call : Call C)
      → Agrees hub t
      → Agrees (hub_step hub call) (table_step t call)
  Agrees-step hub t (register_call c p) = register-Agrees hub t c p
  Agrees-step hub t (join_call r id) = join_room-Agrees hub t r id
  Agrees-step hub t (leave_call r id) = leave_room-Agrees hub t r id
  Agrees-step hub t (disconnect_call id) = disconnect-Agrees hub t id

  unfoldable pub hub_run : InMemorySocketHub C → List (Call C) → InMemorySocketHub C
  hub_run hub [] = hub
  hub_run hub (call ∷ calls) = hub_run (hub_step hub call) calls

  unfoldable pub table_run : Table → List (Call C) → Table
  table_run t [] = t
  table_run t (call ∷ calls) = table_run (table_step t call) calls

  run-Agrees :
      (hub : InMemorySocketHub C) (t : Table) (calls : List (Call C))
      → Agrees hub t
      → Agrees (hub_run hub calls) (table_run t calls)
  unfolding hub_run table_run
  run-Agrees hub t [] a = a
  run-Agrees hub t (call ∷ calls) a =
      run-Agrees (hub_step hub call) (table_step t call) calls (Agrees-step hub t call a)

  Agrees-new : Agrees new_hub empty_table
  unfolding get members has
  Agrees-new = record {
    connected = λ i. refl;
    known = λ i. refl;
    counter = refl;
    alive = λ i x j. absurd (ground arith);
    tracks = record {
      in_room = λ i x. refl;
      has_room = λ i x. refl;
      normal = λ i x j. absurd (ground arith);
    };
  }

  -- After every sequence of calls on a new hub: a connection is known exactly if the table says that
  -- it is live; it is a member of a room, and the room is one of its rooms, exactly if the table says
  -- that it has joined; and then the connection is live and the room's name is stripped and not blank.
  pub hub_run-Agrees :
      (calls : List (Call C)) → Agrees (hub_run new_hub calls) (table_run empty_table calls)
  hub_run-Agrees calls = run-Agrees new_hub empty_table calls Agrees-new
