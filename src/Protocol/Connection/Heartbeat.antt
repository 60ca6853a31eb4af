-- ===== src/Protocol/Connection/Heartbeat.antt =====
-- connection.go: when the heartbeat check closes a connection, over any history of calls.
use data_middleware.Prelude.{
  ℕ, ◌+◌, ◌≤◌, ◌<◌, ◌≡◌, refl, Bool, true, List, [], ◌∷◌, leb, arith, if◌then◌else◌, length, ◌↔◌,
  Bool-cases, inl, inr,
}
use data_middleware.Protocol.Types.{Message, ConnectionConfig}
use data_middleware.Protocol.Binary.{Outcome, decoded, failed, is_insufficient_data_error}
use data_middleware.Protocol.Connection.{
  Connection, new_connection, start, close, send_message, Attempt, got, broken, more, attempt,
  after_decode, round, Read, ReadResult, bytes, read_error, receive, read_loop, read_message,
  authenticate, update_heartbeat, check_heartbeat, is_active,
}

-- The calls on a connection, in the order in which they take its lock.
pub data Event : Type 0 where
  starts closes : Event
  authenticates : List ℕ → List ℕ → Event
  heartbeat_arrives heartbeat_checked : ℕ → Event
  sends : ℕ → (List ℕ → ℕ × Bool) → Message → Event
  reads : ℕ → List Read → Event

pub after : Connection → Event → Connection
after c starts = start c
after c closes = close c
after c (authenticates game_id user_id) = authenticate game_id user_id c
after c (heartbeat_arrives now) = update_heartbeat now c
after c (heartbeat_checked now) = (check_heartbeat now c).0
after c (sends now write m) = (send_message now write c m).0
after c (reads now from) = (read_message now c from).0

-- How often the heartbeat check asks for the connection to be closed.
asks : Connection → Event → ℕ
asks c (heartbeat_checked now) = if (check_heartbeat now c).1 then 1 else 0
asks _ _ = 0

pub heartbeat_closures : Connection → List Event → ℕ
unfolding asks after
heartbeat_closures c [] = 0
heartbeat_closures c (e ∷ es) = asks c e + heartbeat_closures (after c e) es

-- A check closes an active connection whose last heartbeat is too old and whose missed
-- heartbeats, with this one, reach the maximum; and in no other case.
pub check_heartbeat-closes_iff :
    (now : ℕ) (c : Connection)
    → ((check_heartbeat now c).1 ≡ true) ↔ (
        (is_active c.state ≡ true)
        × (c.last_heartbeat + c.config.heartbeat.timeout < now)
        × (c.config.heartbeat.max_missed ≤ c.missed_heartbeats + 1))
unfolding check_heartbeat
check_heartbeat-closes_iff now c = (λ h. ground arith, λ h. ground arith)

-- No heartbeat counts as missed, and the configuration is the one given.
record IsPatient (c : Connection) : Type 0 where
  patience : 2 ≤ c.config.heartbeat.max_missed
  none_missed : c.missed_heartbeats ≡ 0

abbrev LeavesPatient : Attempt → Type 0
LeavesPatient (got m d) = IsPatient d
LeavesPatient (broken e) = Unit
LeavesPatient more = Unit

after_decode-LeavesPatient :
    (now : ℕ) (c : Connection) (r : Outcome) → IsPatient c → LeavesPatient (after_decode now c r)
unfolding after_decode
after_decode-LeavesPatient now c (decoded m k) p = ground arith
after_decode-LeavesPatient now c (failed k e) p = elim (Bool-cases (is_insufficient_data_error e)) [
  | inl y ↦ rw y tt
  | inr n ↦ rw n tt
]

attempt-LeavesPatient : (now : ℕ) (c : Connection) → IsPatient c → LeavesPatient (attempt now c)
unfolding attempt
attempt-LeavesPatient now c p = elim (Bool-cases (leb 28 (length c.read_buffer))) [
  | inl y ↦ rw y (after_decode-LeavesPatient now c _ p)
  | inr n ↦ rw n tt
]

-- One round of the loop: what an attempt leaves, and what more data leads to.
round-IsPatient :
    (c : Connection) (r : Attempt) (next : Connection × ReadResult)
    → IsPatient c
    → LeavesPatient r
    → IsPatient next.0
    → IsPatient (round c r next).0
unfolding round
round-IsPatient c (got m d) next p q n = q
round-IsPatient c (broken e) next p q n = p
round-IsPatient c more next p q n = n

read_loop-IsPatient :
    (now : ℕ) (c : Connection) (from : List Read) → IsPatient c → IsPatient (read_loop now c from).0
unfolding read_loop
read_loop-IsPatient now c [] p = round-IsPatient c _ _ p (attempt-LeavesPatient now c p) p
read_loop-IsPatient now c (bytes chunk ∷ from) p =
    round-IsPatient c _ _ p (attempt-LeavesPatient now c p) (
      read_loop-IsPatient now (receive c chunk) from
        (record { patience = p.patience; none_missed = p.none_missed }))
read_loop-IsPatient now c (read_error ∷ from) p =
    round-IsPatient c _ _ p (attempt-LeavesPatient now c p) p

after-IsPatient : (c : Connection) (e : Event) → IsPatient c → IsPatient (after c e)
unfolding after start close authenticate update_heartbeat check_heartbeat send_message read_message
after-IsPatient c starts p = ground arith
after-IsPatient c closes p = ground arith
after-IsPatient c (authenticates game_id user_id) p = ground arith
after-IsPatient c (heartbeat_arrives now) p = ground arith
after-IsPatient c (heartbeat_checked now) p = ground arith
after-IsPatient c (sends now write m) p = ground arith
after-IsPatient c (reads now from) p = ground (arith, read_loop-IsPatient now c from)

asks_none : (c : Connection) (e : Event) → IsPatient c → asks c e ≡ 0
unfolding asks check_heartbeat
asks_none c (heartbeat_checked now) p = ground arith
asks_none c _ p = refl

heartbeat_closures_none :
    (c : Connection) (es : List Event) → IsPatient c → heartbeat_closures c es ≡ 0
unfolding heartbeat_closures
heartbeat_closures_none c [] p = refl
heartbeat_closures_none c (e ∷ es) p =
    omega (arith, asks_none c e p, heartbeat_closures_none (after c e) es (after-IsPatient c e p))

-- With two or more missed heartbeats allowed the heartbeat check never closes a connection,
-- whatever happens on it and however long no heartbeat arrives.
pub heartbeat_closures-new_connection :
    (id : List ℕ) (now : ℕ) (config : ConnectionConfig) (es : List Event)
    → 2 ≤ config.heartbeat.max_missed
    → heartbeat_closures (new_connection id now config) es ≡ 0
unfolding new_connection
heartbeat_closures-new_connection id now config es h =
    heartbeat_closures_none _ es (record { patience = h; none_missed = refl })
