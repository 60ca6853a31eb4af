-- ===== src/Business/Sessions/Ended.antt =====
-- player_service.go: what LogoutPlayer ends.
use data_middleware.Prelude.{
  ℕ, ◌≡◌, ◌≢◌, refl, ap, ◌∙◌, inl, inr, Bool, true, false, List, [], ◌∷◌, Option, none, some,
  list_beq, if◌then◌else◌, Bool-cases,
}
use data_middleware.Business.Dao.{
  Queried, answer, unavailable, Written, done, refused, Written-cases,
}
use data_middleware.Business.Players.{Player}
use data_middleware.Data.Rows.{find_row, has, find-select, find-change, find-holds}
use data_middleware.Data.Table.{Table, IsTable, Affected, rows_affected, statement_failed}
use data_middleware.Data.Table.Keyed.{find-put, completed-done}
use data_middleware.Data.Players.{
  Account, PlayerSession, player_key, player_conflict, session_key, session_conflict,
  get_session_by_id, invalidate_session, cleanup_expired_sessions, deactivated, is_stale,
}
use data_middleware.Business.Sessions.{
  Libraries, ServiceError, database, ApiPlayer, ok, session_id_of,
}
use data_middleware.Business.Sessions.Login.{logout_player, validate_session, validate_from}
use data_middleware.Business.Sessions.Calls.{
  Call, register, login, login_by_username, logout, update, update_stats, cleanup, apply, run,
}
use data_middleware.Business.Sessions.Steps.{Opens}
use data_middleware.Business.Sessions.Moves.{SessionStep, apply-step}

-- A login that does not draw the identifier again.
abbrev pub DrawsOther : Libraries → List ℕ → Option (List ℕ) → Type 0
DrawsOther lib id none = Unit
DrawsOther lib id (some bytes) = list_beq (session_id_of lib bytes) id ≡ false

abbrev pub AllDrawOthers : Libraries → List ℕ → List Call → Type 0
AllDrawOthers lib id [] = Unit
AllDrawOthers lib id (register salt random r ∷ cs) = AllDrawOthers lib id cs
AllDrawOthers lib id (login clock user r random ∷ cs) =
    DrawsOther lib id random × AllDrawOthers lib id cs
AllDrawOthers lib id (login_by_username clock name password r random ∷ cs) =
    DrawsOther lib id random × AllDrawOthers lib id cs
AllDrawOthers lib id (logout user other ∷ cs) = AllDrawOthers lib id cs
AllDrawOthers lib id (update user nickname avatar ∷ cs) = AllDrawOthers lib id cs
AllDrawOthers lib id (update_stats user experience coins diamonds ∷ cs) = AllDrawOthers lib id cs
AllDrawOthers lib id (cleanup now ∷ cs) = AllDrawOthers lib id cs

-- A row, where there is one, that is not active.
abbrev IsOff : Option PlayerSession → Type 0
IsOff none = Unit
IsOff (some x) = x.is_active ≡ false

-- The row at an identifier, after a statement that keeps or changes it.
if_IsOff :
    (b : Bool) (o : Option PlayerSession) (x : PlayerSession)
    → x.is_active ≡ false
    → IsOff (if b then some x else none)
if_IsOff true o x e = e
if_IsOff false o x e = tt

changed-IsOff :
    (b : PlayerSession → Bool) (o : Option PlayerSession)
    → IsOff o
    → IsOff (elim o [ some q ↦ some (if b q then deactivated q else q) | none ↦ none ])
changed-IsOff b none off = tt
changed-IsOff b (some q) off = elim (Bool-cases (b q)) [ inl y ↦ rw y refl | inr n ↦ rw n off ]

selected-IsOff :
    (b : PlayerSession → Bool) (o : Option PlayerSession)
    → IsOff o
    → IsOff (elim o [ some q ↦ (if b q then some q else none) | none ↦ none ])
selected-IsOff b none off = tt
selected-IsOff b (some q) off = if_IsOff (b q) none q off

every-IsOff :
    (b : PlayerSession → Bool) (o : Option PlayerSession)
    → ((q : PlayerSession) → o ≡ some q → b q ≡ true)
    → IsOff (elim o [ some q ↦ some (if b q then deactivated q else q) | none ↦ none ])
every-IsOff b none every = tt
every-IsOff b (some q) every = rw (every q refl) refl

went_through :
    (w : Written)
    → ◌≡◌ {A = Option ServiceError} (elim w [ done ↦ none | refused ↦ some database ]) none
    → w ≡ done
went_through done e = refl
went_through refused e = absurd (cc)

module _ {Q : Type 0} (u : Table PlayerSession Q) (rows : Q → List PlayerSession)
    (k : IsTable u rows session_key session_conflict) (id : List ℕ) where
  abbrev IsClosed : Q → Type 0
  IsClosed s = IsOff (find_row (has session_key id) (rows s))

  Opens-IsClosed :
      (lib : Libraries) (random : Option (List ℕ)) (s after : Q)
      → Opens lib u random s after
      → DrawsOther lib id random
      → IsClosed s
      → IsClosed after
  Opens-IsClosed lib random s after (inl e) other off = rw e off
  Opens-IsClosed lib random s after (inr (bytes, x, drawn, named, e)) other off =
      let miss : list_beq x.session_id id ≡ false = rw named (rw drawn at other) in
      rw e (elim (Written-cases (u.create x s).1) [
        | inl fine ↦
            let (free, put) = k.create_done x s fine in
            let placed =
              ap (find_row (has session_key id)) put ∙ find-put session_key (rows s) x id free in
            rw placed (rw miss off)
        | inr no_row ↦ rw (k.create_refused x s no_row) off
      ])

  invalidate-IsClosed :
      (other : List ℕ) (s : Q) → IsClosed s → IsClosed (invalidate_session u other s).0
  unfolding invalidate_session
  invalidate-IsClosed other s off =
      by_affected (u.updates (has session_key other) deactivated s).1 refl
    where
      by_affected :
          (a : Affected)
          → (u.updates (has session_key other) deactivated s).1 ≡ a
          → IsClosed (u.updates (has session_key other) deactivated s).0
      by_affected (rows_affected n) e =
          let changed = (k.updates_done (has session_key other) deactivated n s e).1 in
          rw
            (ap (find_row (has session_key id)) changed
              ∙ find-change (has session_key id) (has session_key other) deactivated (rows s)
                  (λ x y. refl))
            (changed-IsOff (has session_key other) (find_row (has session_key id) (rows s)) off)
      by_affected statement_failed e =
          rw (k.updates_failed (has session_key other) deactivated s e) off

  cleanup-IsClosed : (now : ℕ) (s : Q) → IsClosed s → IsClosed (cleanup_expired_sessions u now s).0
  unfolding cleanup_expired_sessions
  cleanup-IsClosed now s off = by_affected (u.delete (is_stale now) s).1 refl
    where
      by_affected :
          (a : Affected)
          → (u.delete (is_stale now) s).1 ≡ a
          → IsClosed (u.delete (is_stale now) s).0
      by_affected (rows_affected n) e =
          rw
            (ap (find_row (has session_key id)) (k.delete_done (is_stale now) n s e)
              ∙ find-select session_key _ id (rows s) (k.unique s))
            (selected-IsOff _ (find_row (has session_key id) (rows s)) off)
      by_affected statement_failed e = rw (k.delete_failed (is_stale now) s e) off

  logout-IsClosed :
      (s : Q) → (invalidate_session u id s).1 ≡ done → IsClosed (invalidate_session u id s).0
  unfolding invalidate_session
  logout-IsClosed s e =
      let (n, affected) = completed-done _ e in
      let changed = (k.updates_done (has session_key id) deactivated n s affected).1 in
      rw
        (ap (find_row (has session_key id)) changed
          ∙ find-change (has session_key id) (has session_key id) deactivated (rows s)
              (λ x y. refl))
        (every-IsOff (has session_key id) (find_row (has session_key id) (rows s))
          (λ q y. find-holds (has session_key id) (rows s) q y))

  step-IsClosed :
      (lib : Libraries) (c : Call) (s after : Q)
      → SessionStep lib u c s after
      → AllDrawOthers lib id (c ∷ [])
      → IsClosed s
      → IsClosed after
  step-IsClosed lib (register salt random r) s after e others off = rw e off
  step-IsClosed lib (login clock who r random) s after e others off =
      Opens-IsClosed lib random s after e others.0 off
  step-IsClosed lib (login_by_username clock name password r random) s after e others off =
      Opens-IsClosed lib random s after e others.0 off
  step-IsClosed lib (logout who other) s after e others off = rw e (invalidate-IsClosed other s off)
  step-IsClosed lib (update who nickname avatar) s after e others off = rw e off
  step-IsClosed lib (update_stats who experience coins diamonds) s after e others off = rw e off
  step-IsClosed lib (cleanup now) s after e others off = rw e (cleanup-IsClosed now s off)

AllDrawOthers-head :
    (lib : Libraries) (id : List ℕ) (c : Call) (cs : List Call)
    → AllDrawOthers lib id (c ∷ cs)
    → AllDrawOthers lib id (c ∷ []) × AllDrawOthers lib id cs
AllDrawOthers-head lib id (register salt random r) cs h = (tt, h)
AllDrawOthers-head lib id (login clock user r random) cs h = ((h.0, tt), h.1)
AllDrawOthers-head lib id (login_by_username clock name password r random) cs h = ((h.0, tt), h.1)
AllDrawOthers-head lib id (logout user other) cs h = (tt, h)
AllDrawOthers-head lib id (update user nickname avatar) cs h = (tt, h)
AllDrawOthers-head lib id (update_stats user experience coins diamonds) cs h = (tt, h)
AllDrawOthers-head lib id (cleanup now) cs h = (tt, h)

module _ (lib : Libraries) {P Q : Type 0} (t : Table (Player Account) P) (u : Table PlayerSession Q)
    (rows : P → List (Player Account)) (h : IsTable t rows player_key player_conflict)
    (sessions : Q → List PlayerSession) (k : IsTable u sessions session_key session_conflict) where
  run-IsClosed :
      (id : List ℕ) (calls : List Call) (s : P × Q)
      → AllDrawOthers lib id calls
      → IsClosed u sessions k id s.1
      → IsClosed u sessions k id (run lib t u calls s).1
  run-IsClosed id [] s others off = off
  run-IsClosed id (c ∷ calls) s others off =
      let (head, rest) = AllDrawOthers-head lib id c calls others in
      let (moved, opened) = apply-step lib t u rows h c s in
      run-IsClosed id calls (apply lib t u c s) rest
        (step-IsClosed u sessions k id lib c s.1 (apply lib t u c s).1 opened head off)

  validate_from_closed :
      (id : List ℕ) (now : ℕ) (s : P × Q) (p : ApiPlayer) (o : Queried (Option PlayerSession))
      → get_session_by_id u id s.1 ≡ o
      → IsClosed u sessions k id s.1
      → validate_from t u now s o ≢ ok p
  unfolding validate_from get_session_by_id
  validate_from_closed id now s p unavailable e off = λ bad. cc
  validate_from_closed id now s p (answer none) e off = λ bad. cc
  validate_from_closed id now s p (answer (some x)) e off =
      let off_there : x.is_active ≡ false =
        rw (k.first_answer (has session_key id) s.1 (some x) e) at off in
      λ bad. let wrong = rw off_there at bad in cc

  -- A logout that succeeds, whoever asks for it, ends the session for good: whatever calls follow, no
  -- validation of it gives a player, at any time, unless a later login draws the same identifier
  -- again.
  pub logout_player-validate_session :
      (user id : List ℕ) (s : P × Q) (calls : List Call) (now : ℕ) (p : ApiPlayer)
      → (logout_player u user id s).1 ≡ none
      → AllDrawOthers lib id calls
      → validate_session t u now id (run lib t u calls (logout_player u user id s).0) ≢ ok p
  unfolding logout_player
  logout_player-validate_session user id s calls now p fine others =
      let after = run lib t u calls (logout_player u user id s).0 in
      validate_from_closed id now after p (get_session_by_id u id after.1) refl (
        run-IsClosed id calls (logout_player u user id s).0 others
          (logout-IsClosed u sessions k id s.1 (went_through (invalidate_session u id s.1).1 fine)))
