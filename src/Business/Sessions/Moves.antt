-- ===== src/Business/Sessions/Moves.antt =====
-- player_service.go: every call of PlayerService as steps on the two tables, and the rows that
-- such steps keep.
use data_middleware.Prelude.{
  ℕ, ◌≡◌, refl, ap, ◌∙◌, inl, inr, Bool, true, false, List, [], ◌∷◌, Option, none, some, list_beq,
  if◌then◌else◌, arith,
}
use data_middleware.Business.Dao.{Written-cases}
use data_middleware.Business.Players.{Player}
use data_middleware.Data.Rows.{find_row, has}
use data_middleware.Data.Table.{Table, IsTable}
use data_middleware.Data.Table.Keyed.{find-put, save_at}
use data_middleware.Data.Players.{
  Account, PlayerSession, player_key, player_conflict, get_player_by_id, get_player_by_username,
  invalidate_session, cleanup_expired_sessions,
}
use data_middleware.Business.Sessions.{Libraries}
use data_middleware.Business.Sessions.Register.{register_player, update_player_info}
use data_middleware.Business.Sessions.Login.{logout_player, cleanup_sessions}
use data_middleware.Business.Sessions.Calls.{
  Call, register, login, login_by_username, logout, update, update_stats, cleanup, apply,
}
use data_middleware.Business.Sessions.Steps.{
  PlayerStep, same, created, stored, Opens, register-step, update-step, stats-step, login-step,
  login_by_username-step,
}

-- What a call does to the table of sessions.
abbrev pub SessionStep : {Q : Type 0} → Libraries → Table PlayerSession Q → Call → Q → Q → Type 0
SessionStep lib u (register salt random r) before after = after ≡ before
SessionStep lib u (login clock user r random) before after = Opens lib u random before after
SessionStep lib u (login_by_username clock name password r random) before after =
    Opens lib u random before after
SessionStep lib u (logout user id) before after = after ≡ (invalidate_session u id before).0
SessionStep lib u (update user nickname avatar) before after = after ≡ before
SessionStep lib u (update_stats user experience coins diamonds) before after = after ≡ before
SessionStep lib u (cleanup now) before after = after ≡ (cleanup_expired_sessions u now before).0

pub apply-step :
    {P Q : Type 0} (lib : Libraries) (t : Table (Player Account) P) (u : Table PlayerSession Q)
    (rows : P → List (Player Account)) (h : IsTable t rows player_key player_conflict) (c : Call)
    (s : P × Q)
    → PlayerStep t rows s.0 (apply lib t u c s).0 × SessionStep lib u c s.1 (apply lib t u c s).1
unfolding apply register_player update_player_info logout_player cleanup_sessions
apply-step lib t u rows h (register salt random r) s =
    register-step t rows h lib salt random r s (get_player_by_username t r.username s.0)
apply-step lib t u rows h (login clock user r random) s =
    login-step t rows h lib u clock user r random s (get_player_by_id t user s.0) refl
apply-step lib t u rows h (login_by_username clock name password r random) s =
    login_by_username-step t rows h lib u clock password r random s
      (get_player_by_username t name s.0)
apply-step lib t u rows h (logout user id) s = (same refl, refl)
apply-step lib t u rows h (update user nickname avatar) s =
    update-step t rows h user nickname avatar s (get_player_by_id t user s.0) refl
apply-step lib t u rows h (update_stats user experience coins diamonds) s = (
  stats-step t rows h user experience coins diamonds s.0 (get_player_by_id t user s.0) refl,
  refl,
)
apply-step lib t u rows h (cleanup now) s = (same refl, refl)

module _ {P : Type 0} (t : Table (Player Account) P) (rows : P → List (Player Account))
    (h : IsTable t rows player_key player_conflict) where
  -- The table has a player with an identifier.
  abbrev pub IsKnown : List ℕ → P → Type 0
  IsKnown id s = (p : Player Account) × (find_row (has player_key id) (rows s) ≡ some p)

  if_known :
      (b : Bool) (p : Player Account) (o : Option (Player Account))
      → ((q : Player Account) × (o ≡ some q))
      → (q : Player Account) × ((if b then some p else o) ≡ some q)
  if_known true p o (q, e) = (p, refl)
  if_known false p o (q, e) = (q, e)

  not_taken :
      (p q : Player Account) (rs : List (Player Account))
      → find_row (player_conflict p) rs ≡ none
      → find_row (has player_key (player_key p)) rs ≡ none
  not_taken p q [] e = refl
  not_taken p q (r ∷ rs) e = ground (arith, not_taken p q rs)

  pub step-IsKnown :
      (id : List ℕ) (s after : P) → PlayerStep t rows s after → IsKnown id s → IsKnown id after
  step-IsKnown id s after (same e) known = rw e known
  step-IsKnown id s after (created p e) (q, known) = rw e (elim (Written-cases (t.create p s).1) [
    | inl fine ↦
        let (free, put) = h.create_done p s fine in
        let gone = not_taken p p (rows s) free in
        let (r, there) =
          if_known (list_beq (player_key p) id) p (find_row (has player_key id) (rows s))
            (q, known) in
        (r, ap (find_row (has player_key id)) put ∙ find-put player_key (rows s) p id gone ∙ there)
    | inr no_row ↦ (q, ap (find_row (has player_key id)) (h.create_refused p s no_row) ∙ known)
  ])
  step-IsKnown id s after (stored p q there e) (r, known) =
      rw e (elim (Written-cases (t.save q s).1) [
        | inl fine ↦
            let (x, now_there) =
              if_known (list_beq (player_key q) id) q (find_row (has player_key id) (rows s))
                (r, known) in
            (x, save_at t rows player_key player_conflict h q p id s fine there ∙ now_there)
        | inr no_row ↦ (r, ap (find_row (has player_key id)) (h.save_refused q s no_row) ∙ known)
      ])
