-- ===== src/Protocol/Manager/Capacity.antt =====
-- manager.go: the limit on the number of connections, over any history of calls.
use data_middleware.Prelude.{
  ℕ, ◌≤◌, ◌<◌, ◌≡◌, refl, ap, List, [], ◌∷◌, ltb, leb, ◌&&◌, arith, string_eq, length, Option-cases,
  inl, inr, Bool-cases,
}
use data_middleware.Prelude.Assoc.{
  lookup, delete, IsMap, length-insert-le, length-delete-le, insert-IsMap, delete-IsMap,
}
use data_middleware.Protocol.Types.{ConnectionConfig}
use data_middleware.Protocol.Connection.{Connection, new_connection, start}
use data_middleware.Protocol.Manager.{
  ConnectionManager, new_connection_manager, add_connection, remove_connection, stop, to_remove,
  delete_all, cleanup,
}

pub data Call : Type 0 where
  adds : List ℕ → ℕ → Call
  removes : List ℕ → Call
  cleans stops : Call

pub after : ConnectionManager → Call → ConnectionManager
after cm (adds id now) = (add_connection id now cm).0
after cm (removes id) = remove_connection id cm
after cm cleans = cleanup cm
after cm stops = (stop cm).0

pub run : ConnectionManager → List Call → ConnectionManager
unfolding after
run cm [] = cm
run cm (call ∷ calls) = run (after cm call) calls

-- One entry for an identifier, and no more entries than a positive limit allows.
pub record IsValid (config : ConnectionConfig) (cm : ConnectionManager) : Type 0 where
  pub configured : cm.config ≡ config
  pub is_map : IsMap cm.connections
  pub bounded : 0 < config.max_connections → length cm.connections ≤ config.max_connections

length-delete_all :
    (ids : List (List ℕ)) (m : List (List ℕ × Connection)) → length (delete_all ids m) ≤ length m
unfolding delete_all
length-delete_all [] m = omega arith
length-delete_all (id ∷ ids) m =
    omega (arith, length-delete-le {0, 0} id m, length-delete_all ids (delete id m))

delete_all-IsMap :
    (ids : List (List ℕ)) (m : List (List ℕ × Connection)) → IsMap m → IsMap (delete_all ids m)
unfolding delete_all
delete_all-IsMap [] m h = h
delete_all-IsMap (id ∷ ids) m h = delete_all-IsMap ids (delete id m) (delete-IsMap id m h)

add_connection-IsValid :
    {config : ConnectionConfig} (id : List ℕ) (now : ℕ) (cm : ConnectionManager)
    → IsValid config cm
    → IsValid config (add_connection id now cm).0
unfolding add_connection
add_connection-IsValid id now cm v =
    elim (Bool-cases
      (ltb 0 cm.config.max_connections && leb cm.config.max_connections (length cm.connections))) [
        | inl full ↦ rw full v
        | inr room ↦ rw room (record {
          configured = v.configured;
          is_map = insert-IsMap id _ cm.connections v.is_map;
          bounded = λ h. ground (
            arith,
            room,
            ap (λ (c : ConnectionConfig). c.max_connections) v.configured,
            length-insert-le id (start (new_connection id now cm.config)) cm.connections,
          );
        })
      ]

remove_connection-IsValid :
    {config : ConnectionConfig} (id : List ℕ) (cm : ConnectionManager)
    → IsValid config cm
    → IsValid config (remove_connection id cm)
unfolding remove_connection
remove_connection-IsValid id cm v = elim (Option-cases (lookup id cm.connections)) [
  | inl miss ↦ rw (miss, remove_connection) v
  | inr (c, hit) ↦
      rw (hit, remove_connection)
        (record {
          configured = v.configured;
          is_map = delete-IsMap id cm.connections v.is_map;
          bounded = λ h. omega (arith, v.bounded h, length-delete-le {0, 0} id cm.connections);
        })
]

after-IsValid :
    {config : ConnectionConfig} (cm : ConnectionManager) (call : Call)
    → IsValid config cm
    → IsValid config (after cm call)
unfolding after cleanup stop
after-IsValid cm (adds id now) v = add_connection-IsValid id now cm v
after-IsValid cm (removes id) v = remove_connection-IsValid id cm v
after-IsValid cm cleans v = record {
  configured = v.configured;
  is_map = delete_all-IsMap (to_remove cm.connections) cm.connections v.is_map;
  bounded =
      λ h. omega (arith, v.bounded h, length-delete_all (to_remove cm.connections) cm.connections);
}
after-IsValid cm stops v = record {
  configured = v.configured;
  is_map = tt;
  bounded = λ h. omega arith;
}

run-IsValid :
    {config : ConnectionConfig} (cm : ConnectionManager) (calls : List Call)
    → IsValid config cm
    → IsValid config (run cm calls)
unfolding run
run-IsValid cm [] v = v
run-IsValid cm (call ∷ calls) v = run-IsValid (after cm call) calls (after-IsValid cm call v)

-- After any history of additions, removals, cleanups and stops a new manager has its
-- configuration, one connection for an identifier, and never more than a positive limit.
pub run-new_connection_manager-IsValid :
    (config : ConnectionConfig) (calls : List Call)
    → IsValid config (run (new_connection_manager config) calls)
unfolding new_connection_manager
run-new_connection_manager-IsValid config calls =
    run-IsValid _ calls (record { configured = refl; is_map = tt; bounded = λ h. omega arith })
