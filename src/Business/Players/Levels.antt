-- ===== src/Business/Players/Levels.antt =====
-- player_service.go: levels and balances of players.
use data_middleware.Prelude.{
  ℕ, ◌+◌, ◌*◌, ◌/◌, ◌≤◌, ◌<◌, ◌≡◌, refl, ap, suc, zero, List, Option, none, some, ℤ, pos, negsuc,
  ◌+ℤ◌, leb, arith, Bool-cases, inl, inr, ◌⊎◌, ◌^◌, ◌-◌, ◌%◌, ltb, ltb→lt, true, false, ◌∙◌,
}
use native.Mathlib.Nat.{mod-lt, mod-eq_of_lt}
use data_middleware.Business.Dao.{answer, Written, done, refused}
use data_middleware.Business.Players.{
  Player, PlayerDao, level_loop, calculate_level, not_negative, raised, updated, written, ok,
  wrap_64, signed, update_from, update_player_stats,
}

level_loop_lem :
    (fuel level e : ℕ)
    → e + 100 < level * 100 + fuel * 100
    → level * 100 ≤ e + 100
    → level_loop fuel level (level * 100) e ≡ some (e / 100 + 1)
unfolding level_loop
level_loop_lem zero level e h k = absurd (omega arith)
level_loop_lem (suc fuel) level e h k = elim (Bool-cases (leb (level * 100) e)) [
  | inl y ↦
      let m : level * 100 ≤ e = ground arith in
      rw y (level_loop_lem fuel (level + 1) e (omega arith) (omega arith))
  | inr n ↦
      let m : e < level * 100 = ground arith in
      let q : level ≡ e / 100 + 1 = omega arith in rw n (ap some q)
]

-- The level that calculateLevel gives: the loop ends with any fuel over the experience, and the
-- level is one more than the hundreds of the experience, and one for a negative experience.
pub calculate_level-div :
    (e fuel : ℕ)
    → e < fuel
    → (level_loop fuel 1 100 e ≡ some (e / 100 + 1))
      × (calculate_level (pos e) ≡ some (e / 100 + 1))
      × (calculate_level (negsuc e) ≡ some 1)
unfolding calculate_level
calculate_level-div e fuel h = (
  level_loop_lem fuel 1 e (omega arith) (omega arith),
  level_loop_lem (e + 1) 1 e (omega arith) (omega arith),
  level_loop_lem 1 1 0 (omega arith) (omega arith),
)

-- A player whose level is that of the experience at least, and whose balances are not negative.
pub record IsFair {R : Type 0} (p : Player R) : Type 0 where
  pub earned : (n : ℕ) → calculate_level p.experience ≡ some n → n ≤ p.level
  pub coins_left : (n : ℕ) × (p.coins ≡ pos n)
  pub diamonds_left : (n : ℕ) × (p.diamonds ≡ pos n)

raised-le : (level : ℕ) (r : Option ℕ) → level ≤ raised level r
raised-le level none = omega arith
raised-le level (some n) = ground arith

raised-earned : (level n : ℕ) (r : Option ℕ) → r ≡ some n → n ≤ raised level r
raised-earned level n none e = absurd (cc)
raised-earned level n (some m) e = let same : m ≡ n = cc in rw same (ground arith)

not_negative-pos : (x : ℤ) → (n : ℕ) × (not_negative x ≡ pos n)
not_negative-pos (pos n) = (n, refl)
not_negative-pos (negsuc n) = (0, refl)

-- The number is an int64.
abbrev pub Fits : ℤ → Type 0
Fits (pos n) = n < 2 ^ 63
Fits (negsuc n) = n < 2 ^ 63

-- What an int64 holds after an addition with the sum `x`: the sum if it fits, else the int64 that
-- differs from it by a multiple of 2 ^ 64.
abbrev pub Sums : ℤ → ℤ → Type 0
Sums x y = Fits y × ((Fits x × (y ≡ x)) ⊎ ((¬ Fits x) × (y ≡ wrap_64 x)))

signed-Fits : (r : ℕ) → r < 2 ^ 64 → Fits (signed r)
signed-Fits r l = elim (Bool-cases (ltb r (2 ^ 63))) [
  | inl y ↦ rw y (ltb→lt r _ y)
  | inr n ↦ let above : 2 ^ 63 ≤ r = ground arith in rw n (omega (arith, above, l))
]

wrap_64-Fits : (x : ℤ) → Fits (wrap_64 x)
unfolding wrap_64
wrap_64-Fits (pos n) = signed-Fits _ (mod-lt n (omega arith))
wrap_64-Fits (negsuc n) = signed-Fits _ (omega arith)

signed_pos : (n : ℕ) → n < 2 ^ 63 → signed n ≡ pos n
signed_pos n l = let y : ltb n (2 ^ 63) ≡ true = ground (arith, l) in rw y refl

signed_negsuc : (n : ℕ) → n < 2 ^ 63 → signed (2 ^ 64 - 1 - n) ≡ negsuc n
signed_negsuc n l =
    let y : ltb (2 ^ 64 - 1 - n) (2 ^ 63) ≡ false = ground (arith, l) in
    let same : 2 ^ 64 - 1 - (2 ^ 64 - 1 - n) ≡ n = omega (arith, l) in rw y (ap negsuc same)

wrap_64_lem : (x : ℤ) → Fits x → wrap_64 x ≡ x
unfolding wrap_64
wrap_64_lem (pos n) l =
    let same : n % 2 ^ 64 ≡ n = mod-eq_of_lt (omega (arith, l)) in ap signed same ∙ signed_pos n l
wrap_64_lem (negsuc n) l =
    let same : n % 2 ^ 64 ≡ n = mod-eq_of_lt (omega (arith, l)) in
    ap (λ r. signed (2 ^ 64 - 1 - r)) same ∙ signed_negsuc n l

abbrev size_of : ℤ → ℕ
size_of (pos n) = n
size_of (negsuc n) = n

Fits-size_of : (x : ℤ) → (size_of x < 2 ^ 63) ≡ Fits x
Fits-size_of (pos n) = refl
Fits-size_of (negsuc n) = refl

wrap_64-Sums : (x : ℤ) → Sums x (wrap_64 x)
wrap_64-Sums x = (
  wrap_64-Fits x,
  elim (Bool-cases (ltb (size_of x) (2 ^ 63))) [
    | inl y ↦
        let fits : Fits x = rw (Fits-size_of x) at (ltb→lt (size_of x) _ y) in
        inl (fits, wrap_64_lem x fits)
    | inr n ↦ inr (
      λ fits.
          let small : size_of x < 2 ^ 63 = rw (Fits-size_of x) fits in
          let y : ltb (size_of x) (2 ^ 63) ≡ true = ground (arith, small) in absurd (cc),
      refl,
    )
  ],
)

updated-IsFair :
    {R : Type 0} (experience coins diamonds : ℤ) (p : Player R)
    → IsFair (updated experience coins diamonds p)
      × (p.level ≤ (updated experience coins diamonds p).level)
unfolding updated
updated-IsFair experience coins diamonds p = (
  record {
    earned = λ n e. raised-earned p.level n _ e;
    coins_left = not_negative-pos (wrap_64 (p.coins +ℤ coins));
    diamonds_left = not_negative-pos (wrap_64 (p.diamonds +ℤ diamonds));
  },
  raised-le p.level (calculate_level (wrap_64 (p.experience +ℤ experience))),
)

written-ok : {R S : Type 0} (p q : Player R) (r : S × Written) → (written p r).1 ≡ ok q → p ≡ q
written-ok p q (s, done) e = cc
written-ok p q (s, refused) e = absurd (cc)

-- Where the database has a player, and UpdatePlayerStats succeeds, the player that it returns has
-- at least the level of before and that of the new experience, and no negative number of coins or
-- diamonds, whatever was added or taken. The new experience is the old one with what was added if
-- that is an int64, and else wraps around to the int64 that `wrap_64` gives.
pub update_player_stats-IsFair :
    {R S : Type 0} (dao : PlayerDao R S) (id : List ℕ) (experience coins diamonds : ℤ) (s : S)
    (p q : Player R)
    → dao.get_player_by_id id s ≡ answer (some p)
    → (update_player_stats dao id experience coins diamonds s).1 ≡ ok q
    → IsFair q × (p.level ≤ q.level) × Sums (p.experience +ℤ experience) q.experience
unfolding update_from updated
update_player_stats-IsFair dao id experience coins diamonds s p q has fine =
    let e = rw has at fine in
    let same : updated experience coins diamonds p ≡ q = written-ok _ q (dao.update_player _ s) e in
    let (fair, higher) = updated-IsFair experience coins diamonds p in
    rw (← same) (fair, higher, wrap_64-Sums (p.experience +ℤ experience))
