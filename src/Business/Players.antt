-- ===== src/Business/Players.antt =====
-- internal/business/common/player_service.go: UpdatePlayerStats and calculateLevel of
-- PlayerService, over the player methods of the interface DAO. The fields of a player that they do
-- not touch are a parameter. The level and the
-- number that the loop multiplies stay far below the bound of int64.
pub mod Levels
use data_middleware.Prelude.{
  ℕ, ◌+◌, ◌*◌, suc, zero, Bool, true, false, List, Option, none, some, ℤ, pos, negsuc, ◌+ℤ◌, leb,
  ltb, if◌then◌else◌, ◌-◌, ◌%◌, ◌^◌,
}
use data_middleware.Business.Dao.{Queried, answer, unavailable, Written, done, refused}

pub record Player (R : Type 0) : Type 0 where
  pub level : ℕ
  pub experience : ℤ
  pub coins : ℤ
  pub diamonds : ℤ
  pub others : R

pub record PlayerDao (R S : Type 0) : Type 0 where
  pub get_player_by_id : List ℕ → S → Queried (Option (Player R))
  pub update_player : Player R → S → S × Written

-- The loop of `calculateLevel`; `none` where the fuel runs out.
unfoldable pub level_loop : ℕ → ℕ → ℕ → ℕ → Option ℕ
level_loop zero level exp_needed experience = none
level_loop (suc fuel) level exp_needed experience =
    let next = level_loop fuel (level + 1) ((level + 1) * 100) experience in
    if leb exp_needed experience then next else some level

-- A round for each point of experience is enough.
unfoldable pub calculate_level : ℤ → Option ℕ
calculate_level (pos experience) = level_loop (experience + 1) 1 100 experience
calculate_level (negsuc n) = level_loop 1 1 100 0

-- The int64 with the bits of a number below 2 ^ 64.
abbrev pub signed : ℕ → ℤ
signed r = if ltb r (2 ^ 63) then pos r else negsuc (2 ^ 64 - 1 - r)

-- The sum of two int64.
unfoldable pub wrap_64 : ℤ → ℤ
wrap_64 (pos n) = signed (n % 2 ^ 64)
wrap_64 (negsuc n) = signed (2 ^ 64 - 1 - n % 2 ^ 64)

-- `if x < 0 { x = 0 }`
abbrev pub not_negative : ℤ → ℤ
not_negative (pos n) = pos n
not_negative (negsuc n) = pos 0

-- `if newLevel > player.Level`
abbrev pub raised : ℕ → Option ℕ → ℕ
raised level none = level
raised level (some new_level) = if ltb level new_level then new_level else level

pub data PlayerError : Type 0 where
  database not_found : PlayerError

pub data Result (R : Type 0) : Type 0 where
  ok : Player R → Result R
  failed : PlayerError → Result R

module _ {R : Type 0} where
  unfoldable pub updated : ℤ → ℤ → ℤ → Player R → Player R
  updated experience coins diamonds p = record p {
    level = raised p.level (calculate_level (wrap_64 (p.experience +ℤ experience)));
    experience = wrap_64 (p.experience +ℤ experience);
    coins = not_negative (wrap_64 (p.coins +ℤ coins));
    diamonds = not_negative (wrap_64 (p.diamonds +ℤ diamonds));
  }

  abbrev pub written : {S : Type 0} → Player R → S × Written → S × Result R
  written p (s, done) = (s, ok p)
  written p (s, refused) = (s, failed database)

  -- UpdatePlayerStats, from what the query gives.
  unfoldable pub update_from :
      {S : Type 0} → PlayerDao R S → ℤ → ℤ → ℤ → S → Queried (Option (Player R)) → S × Result R
  update_from dao experience coins diamonds s unavailable = (s, failed database)
  update_from dao experience coins diamonds s (answer none) = (s, failed not_found)
  update_from dao experience coins diamonds s (answer (some p)) =
      let q = updated experience coins diamonds p in written q (dao.update_player q s)

  abbrev pub update_player_stats :
      {S : Type 0} → PlayerDao R S → List ℕ → ℤ → ℤ → ℤ → S → S × Result R
  update_player_stats dao id experience coins diamonds s =
      update_from dao experience coins diamonds s (dao.get_player_by_id id s)
