-- ===== src/Business/Sessions/Steps.antt =====
-- player_service.go: what a call of PlayerService does to each of the two tables.
use data_middleware.Prelude.{
  ℕ, ◌≡◌, refl, ap, ◌∙◌, ◌⊎◌, inl, inr, List, Option, none, some, ℤ, list_beq, list_beq_iff,
  Bool-cases,
}
use data_middleware.Business.Dao.{Queried, answer, unavailable, Written, done, refused}
use data_middleware.Business.Players.{Player, update_from, written, updated}
use data_middleware.Data.Rows.{find_row, has, find-holds}
use data_middleware.Data.Table.{Table, IsTable}
use data_middleware.Data.Players.{
  Account, PlayerSession, player_key, player_conflict, create_player, get_player_by_id,
  update_player, player_dao, create_session,
}
use data_middleware.Business.Sessions.{
  Libraries, LoginRequest, Readings, Registration, new_player, logged_in, new_session, with_updates,
  saved, session_id_of, user_id_of, active,
}
use data_middleware.Business.Sessions.Register.{register_from, register_hashed, update_found}
use data_middleware.Business.Sessions.Login.{
  login_from, login_saved, session_created, login_by_username_from,
}

-- What a call does to the table of players: nothing, a new row, or a new value of an old one.
pub data PlayerStep {P : Type 0} (t : Table (Player Account) P) (rows : P → List (Player Account))
    (before after : P) : Type 0 where
  same : after ≡ before → PlayerStep t rows before after
  created : (p : Player Account) → after ≡ (t.create p before).0 → PlayerStep t rows before after
  stored :
      (p q : Player Account)
      → find_row (has player_key (player_key q)) (rows before) ≡ some p
      → after ≡ (t.save q before).0
      → PlayerStep t rows before after

-- What a login does to the table of sessions, by what it draws.
abbrev pub Opens :
    {Q : Type 0} → Libraries → Table PlayerSession Q → Option (List ℕ) → Q → Q → Type 0
Opens lib u random before after =
    (after ≡ before)
    ⊎ ((bytes : List ℕ) × (x : PlayerSession) × (random ≡ some bytes)
        × (x.session_id ≡ session_id_of lib bytes)
        × (after ≡ (u.create x before).0))

pub saved-state :
    {P Q : Type 0} (sessions : Q) (p : Player Account) (r : P × Written)
    → (saved sessions p r).0 ≡ (r.0, sessions)
saved-state sessions p (s, done) = refl
saved-state sessions p (s, refused) = refl

written-state : {P : Type 0} (p : Player Account) (r : P × Written) → (written p r).0 ≡ r.0
written-state p (s, done) = refl
written-state p (s, refused) = refl

pub session_created-state :
    {P Q : Type 0} (s : P) (p : Player Account) (x : PlayerSession) (r : Q × Written)
    → (session_created s p x r).0 ≡ (s, r.0)
session_created-state s p x (q, done) = refl
session_created-state s p x (q, refused) = refl

stored_after :
    {P : Type 0} {t : Table (Player Account) P} {rows : P → List (Player Account)} (s a b : P)
    → b ≡ a
    → PlayerStep t rows s a
    → PlayerStep t rows s b
stored_after {t} {rows} s a b e step = rw e step

module _ {P : Type 0} (t : Table (Player Account) P) (rows : P → List (Player Account))
    (h : IsTable t rows player_key player_conflict) where
  -- A player that a query by identifier found can be saved.
  pub found-stored :
      (id : List ℕ) (s : P) (p q : Player Account)
      → get_player_by_id t id s ≡ answer (some p)
      → player_key q ≡ player_key p
      → PlayerStep t rows s (update_player t q s).0
  unfolding get_player_by_id update_player
  found-stored id s p q e keeps =
      let there = h.first_answer (has player_key id) s (some p) e in
      let at_id : player_key p ≡ id =
        (list_beq_iff (player_key p) id).0 (find-holds (has player_key id) (rows s) p there) in
      stored p q (rw (keeps ∙ at_id) there) refl

  pub register-step :
      (lib : Libraries) {Q : Type 0} (salt : List ℕ) (random : Option (List ℕ)) (r : Registration)
      (s : P × Q) (o : Queried (Option (Player Account)))
      → PlayerStep t rows s.0 (register_from lib t salt random r s o).0.0
        × ((register_from lib t salt random r s o).0.1 ≡ s.1)
  unfolding create_player
  register-step lib salt random r s unavailable = (same refl, refl)
  register-step lib salt random r s (answer (some p)) = (same refl, refl)
  register-step lib salt none r s (answer none) = (same refl, refl)
  register-step lib salt (some bytes) r s (answer none) =
      hashed (lib.generate_from_password salt r.password)
    where
      hashed :
          (o : Option (List ℕ))
          → PlayerStep t rows s.0 (register_hashed lib t bytes r s o).0.0
            × ((register_hashed lib t bytes r s o).0.1 ≡ s.1)
      hashed none = (same refl, refl)
      hashed (some hash) =
          let p = new_player (user_id_of lib bytes) hash r in
          let e = saved-state s.1 p (create_player t p s.0) in
          (created p (ap (λ x. x.0) e), ap (λ x. x.1) e)

  pub update-step :
      {Q : Type 0} (id : List ℕ) (nickname avatar : Option (List ℕ)) (s : P × Q)
      (o : Queried (Option (Player Account)))
      → get_player_by_id t id s.0 ≡ o
      → PlayerStep t rows s.0 (update_found t nickname avatar s o).0.0
        × ((update_found t nickname avatar s o).0.1 ≡ s.1)
  update-step id nickname avatar s unavailable e = (same refl, refl)
  update-step id nickname avatar s (answer none) e = (same refl, refl)
  update-step id nickname avatar s (answer (some p)) e =
      let q = with_updates nickname avatar p in
      let after = saved-state s.1 q (update_player t q s.0) in
      (
        stored_after s.0 (update_player t q s.0).0 _ (ap (λ x. x.0) after)
            (found-stored id s.0 p q e refl),
        ap (λ x. x.1) after,
      )

  pub stats-step :
      (id : List ℕ) (experience coins diamonds : ℤ) (s : P) (o : Queried (Option (Player Account)))
      → get_player_by_id t id s ≡ o
      → PlayerStep t rows s (update_from (player_dao t) experience coins diamonds s o).0
  unfolding update_from updated
  stats-step id experience coins diamonds s unavailable e = same refl
  stats-step id experience coins diamonds s (answer none) e = same refl
  stats-step id experience coins diamonds s (answer (some p)) e =
      let q = updated experience coins diamonds p in
      stored_after s (update_player t q s).0 _ (written-state q (update_player t q s))
        (found-stored id s p q e refl)

  module _ (lib : Libraries) {Q : Type 0} (u : Table PlayerSession Q) where
    login_saved-step :
        (clock : Readings) (user : List ℕ) (r : LoginRequest) (random : Option (List ℕ))
        (p : Player Account) (sessions : Q) (w : P × Written)
        → ((login_saved lib t u clock user r random p sessions w).0.0 ≡ w.0)
          × Opens lib u random sessions (login_saved lib t u clock user r random p sessions w).0.1
    unfolding create_session
    login_saved-step clock user r random p sessions (s, refused) = (refl, inl refl)
    login_saved-step clock user r none p sessions (s, done) = (refl, inl refl)
    login_saved-step clock user r (some bytes) p sessions (s, done) =
        let x = new_session clock user r (session_id_of lib bytes) in
        let after = session_created-state s p x (create_session u x sessions) in
        (ap (λ y. y.0) after, inr (bytes, x, refl, refl, ap (λ y. y.1) after))

    pub login-step :
        (clock : Readings) (user : List ℕ) (r : LoginRequest) (random : Option (List ℕ)) (s : P × Q)
        (o : Queried (Option (Player Account)))
        → get_player_by_id t user s.0 ≡ o
        → PlayerStep t rows s.0 (login_from lib t u clock user r random s o).0.0
          × Opens lib u random s.1 (login_from lib t u clock user r random s o).0.1
    unfolding login_from
    login-step clock user r random s unavailable e = (same refl, inl refl)
    login-step clock user r random s (answer none) e = (same refl, inl refl)
    login-step clock user r random s (answer (some p)) e =
        elim (Bool-cases (list_beq p.others.status active)) [
          | inl y ↦
              let q = logged_in clock.now r p in
              let (moved, opened) =
                login_saved-step clock user r random q s.1 (update_player t q s.0) in
              rw y (
                stored_after s.0 (update_player t q s.0).0 _ moved
                    (found-stored user s.0 p q e refl),
                opened,
              )
          | inr n ↦ rw n (same refl, inl refl)
        ]

    pub login_by_username-step :
        (clock : Readings) (password : List ℕ) (r : LoginRequest) (random : Option (List ℕ))
        (s : P × Q) (o : Queried (Option (Player Account)))
        → PlayerStep t rows s.0 (login_by_username_from lib t u clock password r random s o).0.0
          × Opens lib u random s.1 (login_by_username_from lib t u clock password r random s o).0.1
    unfolding login_by_username_from
    login_by_username-step clock password r random s unavailable = (same refl, inl refl)
    login_by_username-step clock password r random s (answer none) = (same refl, inl refl)
    login_by_username-step clock password r random s (answer (some p)) =
        elim (Bool-cases (lib.compare_hash_and_password p.others.password password)) [
          | inl y ↦ elim (Bool-cases (list_beq p.others.status active)) [
            | inl a ↦
                rw (y, a)
                  (login-step clock p.others.user_id r random s
                    (get_player_by_id t p.others.user_id s.0) refl)
            | inr n ↦ rw (y, n) (same refl, inl refl)
          ]
          | inr n ↦ rw n (same refl, inl refl)
        ]
