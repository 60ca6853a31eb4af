-- ===== src/Business/Sessions/Register.antt =====
-- player_service.go: RegisterPlayer, GetPlayer and UpdatePlayer of PlayerService.
use data_middleware.Prelude.{ℕ, List, Option, none, some}
use data_middleware.Business.Dao.{Queried, answer, unavailable}
use data_middleware.Business.Players.{Player}
use data_middleware.Data.Table.{Table}
use data_middleware.Data.Players.{
  Account, create_player, get_player_by_id, get_player_by_username, update_player,
}
use data_middleware.Business.Sessions.{
  Libraries, database, username_taken, no_user_id, no_hash, player_not_found, Result, ok, failed,
  ApiPlayer, convert_to_api_types, Registration, new_player, with_updates, saved, user_id_of,
}

module _ (lib : Libraries) {P Q : Type 0} (t : Table (Player Account) P) where
  -- RegisterPlayer, from the hash on.
  abbrev pub register_hashed :
      List ℕ → Registration → P × Q → Option (List ℕ) → (P × Q) × Result ApiPlayer
  register_hashed bytes r s none = (s, failed no_hash)
  register_hashed bytes r (s, sessions) (some hashed) =
      let p = new_player (user_id_of lib bytes) hashed r in saved sessions p (create_player t p s)

  -- RegisterPlayer, from the identifier on.
  abbrev pub register_new :
      List ℕ → Registration → P × Q → Option (List ℕ) → (P × Q) × Result ApiPlayer
  register_new salt r s none = (s, failed no_user_id)
  register_new salt r s (some bytes) =
      register_hashed bytes r s (lib.generate_from_password salt r.password)

  -- RegisterPlayer, from what the query gives.
  abbrev pub register_from :
      List ℕ
      → Option (List ℕ)
      → Registration
      → P × Q
      → Queried (Option (Player Account))
      → (P × Q) × Result ApiPlayer
  register_from salt random r s unavailable = (s, failed database)
  register_from salt random r s (answer (some p)) = (s, failed username_taken)
  register_from salt random r s (answer none) = register_new salt r s random

  unfoldable pub register_player :
      List ℕ → Option (List ℕ) → Registration → P × Q → (P × Q) × Result ApiPlayer
  register_player salt random r s =
      register_from salt random r s (get_player_by_username t r.username s.0)

-- GetPlayer, from what the query gives.
abbrev pub found_player : Queried (Option (Player Account)) → Result ApiPlayer
found_player unavailable = failed database
found_player (answer none) = failed player_not_found
found_player (answer (some p)) = ok (convert_to_api_types p)

module _ {P Q : Type 0} (t : Table (Player Account) P) where
  unfoldable pub get_player : List ℕ → P × Q → Result ApiPlayer
  get_player user_id s = found_player (get_player_by_id t user_id s.0)

  -- UpdatePlayer, from what the query gives.
  abbrev pub update_found :
      Option (List ℕ)
      → Option (List ℕ)
      → P × Q
      → Queried (Option (Player Account))
      → (P × Q) × Result ApiPlayer
  update_found nickname avatar s unavailable = (s, failed database)
  update_found nickname avatar s (answer none) = (s, failed player_not_found)
  update_found nickname avatar (s, sessions) (answer (some p)) =
      let q = with_updates nickname avatar p in saved sessions q (update_player t q s)

  unfoldable pub update_player_info :
      List ℕ → Option (List ℕ) → Option (List ℕ) → P × Q → (P × Q) × Result ApiPlayer
  update_player_info user_id nickname avatar s =
      update_found nickname avatar s (get_player_by_id t user_id s.0)
