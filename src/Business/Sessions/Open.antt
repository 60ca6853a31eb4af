-- ===== src/Business/Sessions/Open.antt =====
-- player_service.go: the calls of PlayerService that leave a session open.
use data_middleware.Prelude.{
  ℕ, ◌≡◌, ◌≤◌, refl, ap, ◌∙◌, inl, inr, true, false, List, [], ◌∷◌, Option, some, list_beq,
  list_beq_iff, Bool-cases, le→ltb,
}
use data_middleware.Business.Dao.{Written-cases}
use data_middleware.Data.Rows.{find_row, has, find-select}
use data_middleware.Data.Table.{Table, IsTable, Affected, rows_affected, statement_failed}
use data_middleware.Data.Table.Keyed.{find-put, updates_other}
use data_middleware.Data.Players.{
  PlayerSession, session_key, session_conflict, invalidate_session, cleanup_expired_sessions,
  deactivated, is_stale,
}
use data_middleware.Business.Sessions.{Libraries}
use data_middleware.Business.Sessions.Calls.{
  Call, register, login, login_by_username, logout, update, update_stats, cleanup,
}
use data_middleware.Business.Sessions.Steps.{Opens}
use data_middleware.Business.Sessions.Moves.{SessionStep}

-- A call that does not end a session with an expiry: a logout of another, or a clean-up in time.
abbrev pub IsSparing : List ℕ → ℕ → Call → Type 0
IsSparing id expire (register salt random r) = Unit
IsSparing id expire (login clock user r random) = Unit
IsSparing id expire (login_by_username clock name password r random) = Unit
IsSparing id expire (logout user other) = list_beq other id ≡ false
IsSparing id expire (update user nickname avatar) = Unit
IsSparing id expire (update_stats user experience coins diamonds) = Unit
IsSparing id expire (cleanup now) = now ≤ expire

abbrev pub AllSparing : List ℕ → ℕ → List Call → Type 0
AllSparing id expire [] = Unit
AllSparing id expire (c ∷ cs) = IsSparing id expire c × AllSparing id expire cs

-- A session row that is valid for a user until its expiry.
pub record IsOpen (id user : List ℕ) (expire : ℕ) (rows : List PlayerSession) : Type 0 where
  pub row : PlayerSession
  pub there : find_row (has session_key id) rows ≡ some row
  pub still_active : row.is_active ≡ true
  pub expires : row.expire_at ≡ expire
  pub owner : row.user_id ≡ user

module _ {Q : Type 0} (u : Table PlayerSession Q) (rows : Q → List PlayerSession)
    (k : IsTable u rows session_key session_conflict) (id user : List ℕ) (expire : ℕ) where
  -- The row at the identifier is the same as before.
  same_row :
      (s after : Q)
      → find_row (has session_key id) (rows after) ≡ find_row (has session_key id) (rows s)
      → IsOpen id user expire (rows s)
      → IsOpen id user expire (rows after)
  same_row s after e o = record {
    row = o.row;
    there = e ∙ o.there;
    still_active = o.still_active;
    expires = o.expires;
    owner = o.owner;
  }

  create-IsOpen :
      (x : PlayerSession) (s : Q)
      → IsOpen id user expire (rows s)
      → IsOpen id user expire (rows (u.create x s).0)
  create-IsOpen x s o = elim (Written-cases (u.create x s).1) [
    | inl fine ↦
        let (free, put) = k.create_done x s fine in
        let placed =
          ap (find_row (has session_key id)) put ∙ find-put session_key (rows s) x id free in
        elim (Bool-cases (list_beq x.session_id id)) [
          | inl hit ↦
              let keys : x.session_id ≡ id = (list_beq_iff x.session_id id).0 hit in
              absurd (let gone = rw keys at free in let here = o.there in cc)
          | inr miss ↦ same_row s (u.create x s).0 (placed ∙ rw miss refl) o
        ]
    | inr no_row ↦
        same_row s (u.create x s).0
          (ap (find_row (has session_key id)) (k.create_refused x s no_row)) o
  ]

  Opens-IsOpen :
      (lib : Libraries) (random : Option (List ℕ)) (s after : Q)
      → Opens lib u random s after
      → IsOpen id user expire (rows s)
      → IsOpen id user expire (rows after)
  Opens-IsOpen lib random s after (inl e) o = rw e o
  Opens-IsOpen lib random s after (inr (bytes, x, drawn, named, e)) o = rw e (create-IsOpen x s o)

  not_stale :
      (now : ℕ) (x : PlayerSession)
      → x.is_active ≡ true
      → now ≤ x.expire_at
      → is_stale now x ≡ false
  not_stale now x y n = rw (le→ltb x.expire_at now n, y) refl

  cleanup-IsOpen :
      (now : ℕ) (s : Q)
      → now ≤ expire
      → IsOpen id user expire (rows s)
      → IsOpen id user expire (rows (cleanup_expired_sessions u now s).0)
  unfolding cleanup_expired_sessions
  cleanup-IsOpen now s early o = by_affected (u.delete (is_stale now) s).1 refl
    where
      by_affected :
          (a : Affected)
          → (u.delete (is_stale now) s).1 ≡ a
          → IsOpen id user expire (rows (u.delete (is_stale now) s).0)
      by_affected (rows_affected n) e =
          same_row s (u.delete (is_stale now) s).0
            (ap (find_row (has session_key id)) (k.delete_done (is_stale now) n s e)
              ∙ find-select session_key _ id (rows s) (k.unique s)
              ∙ rw (o.there, not_stale now o.row o.still_active (rw o.expires early)) refl)
            o
      by_affected statement_failed e =
          same_row s (u.delete (is_stale now) s).0
            (ap (find_row (has session_key id)) (k.delete_failed (is_stale now) s e)) o

  pub step-IsOpen :
      (lib : Libraries) (c : Call) (s after : Q)
      → SessionStep lib u c s after
      → IsSparing id expire c
      → IsOpen id user expire (rows s)
      → IsOpen id user expire (rows after)
  unfolding invalidate_session
  step-IsOpen lib (register salt random r) s after e spares o = rw e o
  step-IsOpen lib (login clock who r random) s after e spares o =
      Opens-IsOpen lib random s after e o
  step-IsOpen lib (login_by_username clock name password r random) s after e spares o =
      Opens-IsOpen lib random s after e o
  step-IsOpen lib (logout who other) s after e miss o = rw e (
      same_row s (invalidate_session u other s).0
        (updates_other u rows session_key session_conflict k (has session_key other) deactivated
          other id s (λ x y. refl) (λ x n. n) miss)
        o)
  step-IsOpen lib (update who nickname avatar) s after e spares o = rw e o
  step-IsOpen lib (update_stats who experience coins diamonds) s after e spares o = rw e o
  step-IsOpen lib (cleanup now) s after e early o = rw e (cleanup-IsOpen now s early o)
