-- ===== src/Business/Sessions/Lasting.antt =====
-- player_service.go: from a login of PlayerService to the validation of its session.
use data_middleware.Prelude.{
  ℕ, ◌+◌, ◌/◌, ◌≡◌, ◌≤◌, refl, sym, ap, ◌∙◌, inl, inr, true, List, [], ◌∷◌, Option, none, some,
  list_beq, list_beq_iff, Bool-cases, le→ltb,
}
use data_middleware.Business.Dao.{Queried, answer, unavailable, Written, done, refused}
use data_middleware.Business.Players.{Player}
use data_middleware.Data.Rows.{find_row, has, find-holds}
use data_middleware.Data.Table.{Table, IsTable}
use data_middleware.Data.Table.Keyed.{find-put}
use data_middleware.Data.Players.{
  Account, PlayerSession, player_key, player_conflict, session_key, session_conflict,
  get_player_by_id, get_session_by_id, create_session, update_player,
}
use data_middleware.Business.Sessions.{
  Libraries, Result, ok, failed, database, ApiPlayer, LoginResult, LoginRequest, Readings,
  logged_in, new_session, session_id_of, active, session_lifetime, second,
}
use data_middleware.Business.Sessions.Register.{get_player, found_player}
use data_middleware.Business.Sessions.Login.{
  login_player, login_from, login_saved, open_session, session_created, validate_session,
  validate_from,
}
use data_middleware.Business.Sessions.Calls.{Call, apply, run}
use data_middleware.Business.Sessions.Steps.{found-stored, session_created-state}
use data_middleware.Business.Sessions.Moves.{apply-step, IsKnown, step-IsKnown}
use data_middleware.Business.Sessions.Open.{IsSparing, AllSparing, IsOpen, step-IsOpen}

created-ok :
    {P Q : Type 0} (s : P) (p : Player Account) (x : PlayerSession) (r : Q × Written)
    (result : LoginResult)
    → (session_created s p x r).1 ≡ ok result
    → (r.1 ≡ done) × (result.session_id ≡ x.session_id) × (result.expires_at ≡ x.expire_at / second)
created-ok s p x (q, refused) result e = absurd (cc)
created-ok s p x (q, done) result e = (refl, sym (ap id_of e), sym (ap expiry_of e))
  where
    id_of : Result LoginResult → List ℕ
    id_of (ok y) = y.session_id
    id_of (failed y) = []

    expiry_of : Result LoginResult → ℕ
    expiry_of (ok y) = y.expires_at
    expiry_of (failed y) = 0

-- A validation gives the player with an identifier, unless the database does not answer.
abbrev pub IsAccepted : List ℕ → Result ApiPlayer → Type 0
IsAccepted user (ok p) = p.user_id ≡ user
IsAccepted user (failed e) = e ≡ database

module _ (lib : Libraries) {P Q : Type 0} (t : Table (Player Account) P) (u : Table PlayerSession Q)
    (rows : P → List (Player Account)) (h : IsTable t rows player_key player_conflict)
    (sessions : Q → List PlayerSession) (k : IsTable u sessions session_key session_conflict) where
  -- A session that is open, of a user that the table of players has.
  abbrev IsHeld : List ℕ → List ℕ → ℕ → P × Q → Type 0
  IsHeld id user expire s = IsKnown t rows h user s.0 × IsOpen id user expire (sessions s.1)

  step-IsHeld :
      (id user : List ℕ) (expire : ℕ) (c : Call) (s : P × Q)
      → IsSparing id expire c
      → IsHeld id user expire s
      → IsHeld id user expire (apply lib t u c s)
  step-IsHeld id user expire c s spares (known, o) =
      let (moved, opened) = apply-step lib t u rows h c s in
      (
        step-IsKnown t rows h user s.0 (apply lib t u c s).0 moved known,
        step-IsOpen u sessions k id user expire lib c s.1 (apply lib t u c s).1 opened spares o,
      )

  run-IsHeld :
      (id user : List ℕ) (expire : ℕ) (calls : List Call) (s : P × Q)
      → AllSparing id expire calls
      → IsHeld id user expire s
      → IsHeld id user expire (run lib t u calls s)
  run-IsHeld id user expire [] s spares held = held
  run-IsHeld id user expire (c ∷ calls) s spares held =
      run-IsHeld id user expire calls (apply lib t u c s) spares.1
        (step-IsHeld id user expire c s spares.0 held)

  get_player-IsAccepted :
      (user : List ℕ) (s : P × Q)
      → IsKnown t rows h user s.0
      → IsAccepted user (get_player t user s)
  unfolding get_player get_player_by_id
  get_player-IsAccepted user s (p, known) = by_answer (t.first (has player_key user) s.0) refl
    where
      by_answer :
          (o : Queried (Option (Player Account)))
          → t.first (has player_key user) s.0 ≡ o
          → IsAccepted user (found_player o)
      by_answer unavailable e = refl
      by_answer (answer none) e =
          absurd (let gone = h.first_answer (has player_key user) s.0 none e in cc)
      by_answer (answer (some q)) e = (list_beq_iff (player_key q) user).0 (
          find-holds (has player_key user) (rows s.0) q
            (h.first_answer (has player_key user) s.0 (some q) e))

  validate_session-IsAccepted :
      (id user : List ℕ) (expire now : ℕ) (s : P × Q)
      → now ≤ expire
      → IsHeld id user expire s
      → IsAccepted user (validate_session t u now id s)
  unfolding validate_from get_session_by_id
  validate_session-IsAccepted id user expire now s early (known, o) =
      by_answer (get_session_by_id u id s.1) refl
    where
      by_answer :
          (r : Queried (Option PlayerSession))
          → get_session_by_id u id s.1 ≡ r
          → IsAccepted user (validate_from t u now s r)
      by_answer unavailable e = refl
      by_answer (answer none) e =
          absurd
            (let gone = k.first_answer (has session_key id) s.1 none e in let there = o.there in cc)
      by_answer (answer (some x)) e =
          let found = k.first_answer (has session_key id) s.1 (some x) e in
          let there = o.there in
          let same : o.row ≡ x = cc in
          let is_on : x.is_active ≡ true = rw (← same) o.still_active in
          let in_time : now ≤ x.expire_at = rw (← same) (rw o.expires early) in
          let owned : x.user_id ≡ user = rw (← same) o.owner in
          rw (is_on, le→ltb x.expire_at now in_time, owned) (get_player-IsAccepted user s known)

  -- What a login that succeeds leaves behind.
  abbrev Opened : Readings → List ℕ → Option (List ℕ) → LoginResult → P × Q → Type 0
  Opened clock user random result s =
      (bytes : List ℕ) × (random ≡ some bytes)
      × (result.session_id ≡ session_id_of lib bytes)
      × (result.expires_at ≡ (clock.issued + session_lifetime) / second)
      × IsHeld result.session_id user (clock.issued + session_lifetime) s

  new-IsOpen :
      (clock : Readings) (user : List ℕ) (r : LoginRequest) (id : List ℕ) (s : Q)
      → (create_session u (new_session clock user r id) s).1 ≡ done
      → IsOpen id user
          (clock.issued + session_lifetime)
          (sessions (create_session u (new_session clock user r id) s).0)
  unfolding create_session
  new-IsOpen clock user r id s fine =
      let x = new_session clock user r id in
      let (free, put) = k.create_done x s fine in
      record {
        row = x;
        there =
            ap (find_row (has session_key id)) put
            ∙ find-put session_key (sessions s) x id free
            ∙ rw ((list_beq_iff id id).1 refl) refl;
        still_active = refl;
        expires = refl;
        owner = refl;
      }

  open_session-Opened :
      (clock : Readings) (user : List ℕ) (r : LoginRequest) (p : Player Account) (s : P × Q)
      (random : Option (List ℕ)) (result : LoginResult)
      → IsKnown t rows h user s.0
      → (open_session lib u clock user r p s random).1 ≡ ok result
      → Opened clock user random result (open_session lib u clock user r p s random).0
  open_session-Opened clock user r p s none result known e = absurd (cc)
  open_session-Opened clock user r p s (some bytes) result known e =
      let x = new_session clock user r (session_id_of lib bytes) in
      let (fine, named, expiry) = created-ok s.0 p x (create_session u x s.1) result e in
      let after = ap (λ y. y.1) (session_created-state s.0 p x (create_session u x s.1)) in
      let kept = ap (λ y. y.0) (session_created-state s.0 p x (create_session u x s.1)) in
      (
        bytes,
        refl,
        named,
        expiry,
        (
          rw kept known,
          rw (named, after) (new-IsOpen clock user r (session_id_of lib bytes) s.1 fine),
        ),
      )

  found-IsKnown :
      (user : List ℕ) (s : P) (p : Player Account)
      → get_player_by_id t user s ≡ answer (some p)
      → IsKnown t rows h user s
  unfolding get_player_by_id
  found-IsKnown user s p e = (p, h.first_answer (has player_key user) s (some p) e)

  login_saved-Opened :
      (clock : Readings) (user : List ℕ) (r : LoginRequest) (random : Option (List ℕ))
      (p : Player Account) (s : P × Q) (w : P × Written)
      → IsKnown t rows h user w.0
      → (result : LoginResult) → (login_saved lib t u clock user r random p s.1 w).1 ≡ ok result
      → Opened clock user random result (login_saved lib t u clock user r random p s.1 w).0
  login_saved-Opened clock user r random p s (a, refused) known result e = absurd (cc)
  login_saved-Opened clock user r random p s (a, done) known result e =
      open_session-Opened clock user r p (a, s.1) random result known e

  login_from-Opened :
      (clock : Readings) (user : List ℕ) (r : LoginRequest) (random : Option (List ℕ)) (s : P × Q)
      (result : LoginResult) (o : Queried (Option (Player Account)))
      → get_player_by_id t user s.0 ≡ o
      → (login_from lib t u clock user r random s o).1 ≡ ok result
      → Opened clock user random result (login_from lib t u clock user r random s o).0
  unfolding login_from
  login_from-Opened clock user r random s result unavailable e fine = absurd (cc)
  login_from-Opened clock user r random s result (answer none) e fine = absurd (cc)
  login_from-Opened clock user r random s result (answer (some p)) e fine =
      elim (Bool-cases (list_beq p.others.status active)) [
        | inl y ↦
            let q = logged_in clock.now r p in
            rw y (
              login_saved-Opened clock user r random q s (update_player t q s.0)
                (step-IsKnown t rows h user s.0 (update_player t q s.0).0
                  (found-stored t rows h user s.0 p q e refl) (found-IsKnown user s.0 p e))
                result (rw y at fine))
        | inr n ↦ absurd (let wrong = rw n at fine in cc)
      ]

  -- After a login that succeeds, and whatever calls follow, the session is valid for the player until
  -- its expiry, 24 hours after it was issued: the validation of a session that no call logs out, where
  -- the clean-ups and the validation are not later than the expiry, gives the player that logged
  -- in, or reports that the database does not answer.
  pub login_player-IsAccepted :
      (clock : Readings) (user : List ℕ) (r : LoginRequest) (random : Option (List ℕ)) (s : P × Q)
      (result : LoginResult) (calls : List Call) (now : ℕ)
      → (login_player lib t u clock user r random s).1 ≡ ok result
      → AllSparing result.session_id (clock.issued + session_lifetime) calls
      → now ≤ clock.issued + session_lifetime
      → (result.expires_at ≡ (clock.issued + session_lifetime) / second)
        × IsAccepted user (
            validate_session t u now result.session_id
              (run lib t u calls (login_player lib t u clock user r random s).0))
  login_player-IsAccepted clock user r random s result calls now fine spares early =
      let opened =
        login_from-Opened clock user r random s result (get_player_by_id t user s.0) refl fine in
      let (_, _, _, expiry, held) = opened in
      (
        expiry,
        validate_session-IsAccepted result.session_id user (clock.issued + session_lifetime) now
            (run lib t u calls (login_player lib t u clock user r random s).0) early
            (run-IsHeld result.session_id user (clock.issued + session_lifetime) calls
              (login_player lib t u clock user r random s).0 spares held),
      )
