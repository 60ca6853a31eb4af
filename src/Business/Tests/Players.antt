-- ===== src/Business/Tests/Players.antt =====
-- PlayerService over a database with one player.
use data_middleware.Prelude.{ℕ, ◌≤◌, ◌≡◌, refl, [], ◌∷◌, some, pos, negsuc, ◌+ℤ◌, arith}
use data_middleware.Business.Dao.{answer, done}
use data_middleware.Business.Players.{
  Player, PlayerDao, level_loop, calculate_level, updated, update_from, wrap_64,
}
use data_middleware.Business.Players.Levels.{
  IsFair, Sums, calculate_level-div, update_player_stats-IsFair,
}

calculate_level-div_example :
    (level_loop 400 1 100 250 ≡ some 3)
    × (calculate_level (pos 250) ≡ some 3)
    × (calculate_level (negsuc 250) ≡ some 1)
calculate_level-div_example = calculate_level-div 250 400 (omega arith)

abbrev novice : Player ℕ
novice = record { level = 1; experience = pos 90; coins = pos 10; diamonds = pos 0; others = 7 }

abbrev one_player : PlayerDao ℕ (Player ℕ)
one_player = record { get_player_by_id = λ id s. answer (some s); update_player = λ p s. (p, done) }

abbrev after_quest : Player ℕ
after_quest = record {
  level = 4;
  experience = pos 300;
  coins = pos 0;
  diamonds = pos 1;
  others = 7;
}

update_player_stats-IsFair_example :
    IsFair after_quest × (1 ≤ 4) × Sums (pos 90 +ℤ pos 210) (pos 300)
unfolding update_from updated calculate_level level_loop wrap_64
update_player_stats-IsFair_example =
    update_player_stats-IsFair one_player (1 ∷ []) (pos 210) (negsuc 19) (pos 1) novice novice
      after_quest refl refl
