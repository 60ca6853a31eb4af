-- ===== src/Business/Sessions/Credentials.antt =====
-- player_service.go: what a registration leaves behind, and the logins of a player that is there.
use data_middleware.Prelude.{
  ℕ, ◌≡◌, ◌⊎◌, refl, sym, ap, ◌∙◌, inl, inr, true, List, [], ◌∷◌, Option, none, some, list_beq,
  list_beq_iff, arith,
}
use data_middleware.Business.Dao.{Queried, answer, unavailable, Written, done, refused}
use data_middleware.Business.Players.{Player}
use data_middleware.Data.Rows.{find_row, has, find-append}
use data_middleware.Data.Table.{Table, IsTable}
use data_middleware.Data.Players.{
  Account, PlayerSession, player_key, player_conflict, username_of, get_player_by_id, create_player,
  create_session, update_player,
}
use data_middleware.Business.Sessions.{
  Libraries, Result, ok, failed, database, wrong_password, no_session_id, ApiPlayer, LoginResult,
  LoginRequest, Readings, Registration, logged_in, new_player, new_session, session_id_of,
  user_id_of, active, saved, convert_to_api_types,
}
use data_middleware.Business.Sessions.Register.{register_from, register_hashed}
use data_middleware.Business.Sessions.Steps.{saved-state}
use data_middleware.Business.Sessions.Login.{login_from, login_saved, session_created}

-- A login of a player, which the database or the source of randomness may still prevent.
abbrev pub IsLoggedIn : List ℕ → Result LoginResult → Type 0
IsLoggedIn user (ok l) = l.user.user_id ≡ user
IsLoggedIn user (failed e) = (e ≡ database) ⊎ (e ≡ no_session_id)

-- A login that is refused for its password, unless the database does not answer.
abbrev pub IsWrong : Result LoginResult → Type 0
IsWrong r = (r ≡ failed wrong_password) ⊎ (r ≡ failed database)

-- What bcrypt documents: a hash matches the password that it was made of.
abbrev pub HashesMatch : Libraries → Type 0
HashesMatch lib =
    (salt password hashed : List ℕ)
    → lib.generate_from_password salt password ≡ some hashed
    → lib.compare_hash_and_password hashed password ≡ true

pub same_player : {a b : List ℕ} (l : Result LoginResult) → a ≡ b → IsLoggedIn a l → IsLoggedIn b l
same_player (ok x) e y = y ∙ e
same_player (failed x) e y = y

session_created-IsLoggedIn :
    {P Q : Type 0} (s : P) (p : Player Account) (x : PlayerSession) (r : Q × Written)
    → IsLoggedIn (player_key p) (session_created s p x r).1
session_created-IsLoggedIn s p x (q, done) = refl
session_created-IsLoggedIn s p x (q, refused) = inl refl

saved-ok :
    {P Q : Type 0} (sessions : Q) (p : Player Account) (r : P × Written) (a : ApiPlayer)
    → (saved sessions p r).1 ≡ ok a
    → (r.1 ≡ done) × (a ≡ convert_to_api_types p)
saved-ok sessions p (s, refused) a e = absurd (cc)
saved-ok sessions p (s, done) a e = (refl, sym (ap value e))
  where
    value : Result ApiPlayer → ApiPlayer
    value (ok b) = b
    value (failed x) = convert_to_api_types p

no_username :
    (p q : Player Account) (rs : List (Player Account))
    → find_row (player_conflict p) rs ≡ none
    → (find_row (has player_key (player_key p)) rs ≡ none)
      × (find_row (has username_of (username_of p)) rs ≡ none)
no_username p q [] e = (refl, refl)
no_username p q (r ∷ rs) e = ground (arith, no_username p q rs)

module _ (lib : Libraries) {P Q : Type 0} (t : Table (Player Account) P) (u : Table PlayerSession Q)
    (rows : P → List (Player Account)) (h : IsTable t rows player_key player_conflict) where
  login_saved-IsLoggedIn :
      (clock : Readings) (user : List ℕ) (r : LoginRequest) (random : Option (List ℕ))
      (p : Player Account) (sessions : Q) (w : P × Written)
      → IsLoggedIn (player_key p) (login_saved lib t u clock user r random p sessions w).1
  login_saved-IsLoggedIn clock user r random p sessions (s, refused) = inl refl
  login_saved-IsLoggedIn clock user r none p sessions (s, done) = inr refl
  login_saved-IsLoggedIn clock user r (some bytes) p sessions (s, done) =
      let x = new_session clock user r (session_id_of lib bytes) in
      session_created-IsLoggedIn s p x (create_session u x sessions)

  pub login_from-IsLoggedIn :
      (clock : Readings) (r : LoginRequest) (random : Option (List ℕ)) (s : P × Q)
      (p : Player Account) (o : Queried (Option (Player Account)))
      → get_player_by_id t (player_key p) s.0 ≡ o
      → find_row (has player_key (player_key p)) (rows s.0) ≡ some p
      → list_beq p.others.status active ≡ true
      → IsLoggedIn (player_key p) (login_from lib t u clock (player_key p) r random s o).1
  unfolding login_from get_player_by_id
  login_from-IsLoggedIn clock r random s p unavailable e there on = inl refl
  login_from-IsLoggedIn clock r random s p (answer none) e there on =
      absurd (let gone = h.first_answer (has player_key (player_key p)) s.0 none e in cc)
  login_from-IsLoggedIn clock r random s p (answer (some q)) e there on =
      let found = h.first_answer (has player_key (player_key p)) s.0 (some q) e in
      let same : p ≡ q = cc in by_same q same
    where
      by_same :
          (q : Player Account)
          → p ≡ q
          → IsLoggedIn
              (player_key p)
              (login_from lib t u clock (player_key p) r random s (answer (some q))).1
      by_same q same =
          let on_q : list_beq q.others.status active ≡ true = rw (← same) on in
          let keys : player_key q ≡ player_key p = ap player_key (sym same) in
          rw on_q (
            same_player _ keys (
              login_saved-IsLoggedIn clock (player_key p) r random (logged_in clock.now r q) s.1
                (update_player t (logged_in clock.now r q) s.0)))

  -- What a registration that succeeds leaves behind.
  pub record IsRegistered (salt : List ℕ) (r : Registration) (a : ApiPlayer) (s : P × Q)
      : Type 0 where
    pub player : Player Account
    pub hashed : List ℕ
    pub hash : lib.generate_from_password salt r.password ≡ some hashed
    pub has_hash : player.others.password ≡ hashed
    pub on : list_beq player.others.status active ≡ true
    pub shown : player_key player ≡ a.user_id
    pub by_id : find_row (has player_key (player_key player)) (rows s.0) ≡ some player
    pub by_name : find_row (has username_of r.username) (rows s.0) ≡ some player

  hashed-IsRegistered :
      (salt bytes : List ℕ) (r : Registration) (a : ApiPlayer) (s : P × Q) (o : Option (List ℕ))
      → lib.generate_from_password salt r.password ≡ o
      → (register_hashed lib t bytes r s o).1 ≡ ok a
      → IsRegistered salt r a (register_hashed lib t bytes r s o).0
  unfolding create_player
  hashed-IsRegistered salt bytes r a s none e fine = absurd (cc)
  hashed-IsRegistered salt bytes r a s (some hash) e fine =
      let p = new_player (user_id_of lib bytes) hash r in
      let (created, same) = saved-ok s.1 p (create_player t p s.0) a fine in
      let (free, put) = h.create_done p s.0 created in
      let (no_id, no_name) = no_username p p (rows s.0) free in
      rw (saved-state s.1 p (create_player t p s.0)) record {
        player = p;
        hashed = hash;
        hash = e;
        has_hash = refl;
        on = refl;
        shown = ap ApiPlayer.user_id (sym same);
        by_id =
            ap (find_row (has player_key (player_key p))) put
            ∙ find-append (has player_key (player_key p)) (rows s.0) p
            ∙ rw (no_id, (list_beq_iff (player_key p) (player_key p)).1 refl) refl;
        by_name =
            ap (find_row (has username_of r.username)) put
            ∙ find-append (has username_of r.username) (rows s.0) p
            ∙ rw (no_name, (list_beq_iff r.username r.username).1 refl) refl;
      }

  pub register_from-IsRegistered :
      (salt : List ℕ) (random : Option (List ℕ)) (r : Registration) (a : ApiPlayer) (s : P × Q)
      (o : Queried (Option (Player Account)))
      → (register_from lib t salt random r s o).1 ≡ ok a
      → IsRegistered salt r a (register_from lib t salt random r s o).0
  register_from-IsRegistered salt random r a s unavailable fine = absurd (cc)
  register_from-IsRegistered salt random r a s (answer (some p)) fine = absurd (cc)
  register_from-IsRegistered salt none r a s (answer none) fine = absurd (cc)
  register_from-IsRegistered salt (some bytes) r a s (answer none) fine =
      hashed-IsRegistered salt bytes r a s (lib.generate_from_password salt r.password) refl fine
