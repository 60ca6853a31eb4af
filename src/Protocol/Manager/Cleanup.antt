-- ===== src/Protocol/Manager/Cleanup.antt =====
-- manager.go: which connections a cleanup removes, and what GetStats counts.
use data_middleware.Prelude.{
  ℕ, ◌+◌, ◌≡◌, refl, Bool, true, false, List, [], ◌∷◌, arith, string_eq, if◌then◌else◌, length,
  Option, none, some, inl, inr, Bool-cases, list_beq, list_beq_iff,
}
use data_middleware.Prelude.Assoc.{lookup, delete, IsMap, lookup-delete, lookup-insert}
use data_middleware.Protocol.Connection.{Connection, is_closed}
use data_middleware.Protocol.Manager.{
  ConnectionManager, to_remove, delete_all, cleanup, count_by, bump, is_empty, get_connection,
  get_stats, get_connections_by_game, get_connections_by_user, connections_where,
}

contains : List ℕ → List (List ℕ) → Bool
contains id [] = false
contains id (j ∷ ids) = if list_beq j id then true else contains id ids

lookup-delete_all :
    (id : List ℕ) (ids : List (List ℕ)) (m : List (List ℕ × Connection))
    → lookup id (delete_all ids m) ≡ (if contains id ids then none else lookup id m)
unfolding delete_all contains
lookup-delete_all id [] m = refl
lookup-delete_all id (j ∷ ids) m =
    ground (arith, lookup-delete_all id ids (delete j m), lookup-delete j id m)

-- The connection, if it is not closed.
abbrev pub unless_closed : Option Connection → Option Connection
unless_closed none = none
unless_closed (some c) = if is_closed c.state then none else some c

contains-to_remove_absent :
    (id : List ℕ) (m : List (List ℕ × Connection))
    → lookup id m ≡ none
    → contains id (to_remove m) ≡ false
unfolding to_remove contains
contains-to_remove_absent id [] h = refl
contains-to_remove_absent id ((j, c) ∷ m) h = ground (arith, contains-to_remove_absent id m)

lookup_kept :
    (id : List ℕ) (m : List (List ℕ × Connection))
    → IsMap m
    → (if contains id (to_remove m) then none else lookup id m) ≡ unless_closed (lookup id m)
unfolding to_remove contains
lookup_kept id [] h = refl
lookup_kept id ((j, c) ∷ m) h =
    ground (arith, list_beq_iff j id, contains-to_remove_absent id m, lookup_kept id m h.1)

-- On a manager with one entry for an identifier, a cleanup removes the closed connections and
-- keeps all others.
pub get_connection-cleanup :
    (id : List ℕ) (cm : ConnectionManager)
    → IsMap cm.connections
    → get_connection id (cleanup cm) ≡ unless_closed (get_connection id cm)
unfolding cleanup
get_connection-cleanup id cm h = rw lookup-delete_all (lookup_kept id cm.connections h)

-- The number that a map of counters holds for a key.
abbrev pub count_of : List ℕ → List (List ℕ × ℕ) → ℕ
count_of key stats = elim (lookup key stats) [ none ↦ 0 | some n ↦ n ]

count_of-bump :
    (j k : List ℕ) (stats : List (List ℕ × ℕ))
    → count_of k (bump j stats) ≡ (if list_beq j k then count_of k stats + 1 else count_of k stats)
count_of-bump j k stats = ground (
  arith,
  lookup-insert j k (elim (lookup j stats) [ none ↦ 1 | some n ↦ n + 1 ]) stats,
  list_beq_iff j k,
)

module _ (key : Connection → List ℕ) (k : List ℕ) (named : is_empty k ≡ false) where
  abbrev selected : List (List ℕ × Connection) → ℕ
  selected m = length (connections_where (λ c. list_beq (key c) k) m)

  count_of-count_by :
      (m : List (List ℕ × Connection)) (stats : List (List ℕ × ℕ))
      → count_of k (count_by key m stats) ≡ count_of k stats + selected m
  unfolding count_by connections_where
  count_of-count_by [] stats = omega arith
  count_of-count_by ((id, c) ∷ m) stats = elim (Bool-cases (is_empty (key c))) [
    | inl unnamed ↦ rw (unnamed, other unnamed) (count_of-count_by m stats)
    | inr n ↦ rw n (elim (Bool-cases (list_beq (key c) k)) [
      | inl same ↦ rw same (
          omega (
            arith,
            count_of-count_by m (bump (key c) stats),
            (rw same at (count_of-bump (key c) k stats)),
          ))
      | inr differs ↦ rw differs (
          omega (
            arith,
            count_of-count_by m (bump (key c) stats),
            (rw differs at (count_of-bump (key c) k stats)),
          ))
    ])
  ]
    where
      other : is_empty (key c) ≡ true → list_beq (key c) k ≡ false
      other e = ground (arith, list_beq_iff (key c) k)

-- For a game and for a user that is not the empty string the statistics count the connections
-- that the lookup by game or by user returns.
pub count_of-get_stats :
    (k : List ℕ) (cm : ConnectionManager)
    → is_empty k ≡ false
    → (count_of k (get_stats cm).0 ≡ length (get_connections_by_game k cm))
      × (count_of k (get_stats cm).1 ≡ length (get_connections_by_user k cm))
count_of-get_stats k cm h = (
  omega (arith, count_of-count_by (λ c. c.info.game_id) k h cm.connections []),
  omega (arith, count_of-count_by (λ c. c.info.user_id) k h cm.connections []),
)
