-- ===== src/Protocol/Connection/Identity.antt =====
-- connection.go: what reading and sending leave as it was: the state, and who is connected.
use data_middleware.Prelude.{ℕ, ◌≡◌, refl, Bool, List, [], ◌∷◌, leb, length, Bool-cases, inl, inr}
use data_middleware.Protocol.Types.{Message}
use data_middleware.Protocol.Binary.{Outcome, decoded, failed, decode, is_insufficient_data_error}
use data_middleware.Protocol.Connection.{
  Connection, is_active, send_message, Attempt, got, broken, more, after_decode, attempt, Read,
  bytes, read_error, ReadResult, receive, round, read_loop, read_message,
}

pub record SameIdentity (c d : Connection) : Type 0 where
  pub state_kept : d.state ≡ c.state
  pub game_id_kept : d.info.game_id ≡ c.info.game_id
  pub user_id_kept : d.info.user_id ≡ c.info.user_id

pub SameIdentity-refl : (c : Connection) → SameIdentity c c
SameIdentity-refl c = record { state_kept = refl; game_id_kept = refl; user_id_kept = refl }

-- Sending changes the counters only.
pub send_message-SameIdentity :
    (now : ℕ) (write : List ℕ → ℕ × Bool) (c : Connection) (m : Message)
    → SameIdentity c (send_message now write c m).0
      × ((send_message now write c m).0.read_buffer ≡ c.read_buffer)
unfolding send_message
send_message-SameIdentity now write c m = elim (Bool-cases (is_active c.state)) [
  | inl y ↦ rw y (record { state_kept = refl; game_id_kept = refl; user_id_kept = refl }, refl)
  | inr n ↦ rw n (SameIdentity-refl c, refl)
]

AttemptKeeps : Connection → Attempt → Type 0
AttemptKeeps c (got m d) = SameIdentity c d
AttemptKeeps c (broken e) = Unit
AttemptKeeps c more = Unit

after_decode-AttemptKeeps :
    (now : ℕ) (c : Connection) (o : Outcome) → AttemptKeeps c (after_decode now c o)
unfolding after_decode AttemptKeeps
after_decode-AttemptKeeps now c (decoded m consumed) = record {
  state_kept = refl;
  game_id_kept = refl;
  user_id_kept = refl;
}
after_decode-AttemptKeeps now c (failed consumed e) =
    elim (Bool-cases (is_insufficient_data_error e)) [ inl y ↦ rw y tt | inr n ↦ rw n tt ]

attempt-AttemptKeeps : (now : ℕ) (c : Connection) → AttemptKeeps c (attempt now c)
unfolding attempt AttemptKeeps
attempt-AttemptKeeps now c = elim (Bool-cases (leb 28 (length c.read_buffer))) [
  | inl y ↦ rw y (after_decode-AttemptKeeps now c (decode c.read_buffer))
  | inr n ↦ rw n tt
]

round-SameIdentity :
    (a : Attempt) (c : Connection) (next : Connection × ReadResult)
    → AttemptKeeps c a
    → SameIdentity c next.0
    → SameIdentity c (round c a next).0
unfolding round AttemptKeeps
round-SameIdentity (got m d) c next h k = h
round-SameIdentity (broken e) c next h k = SameIdentity-refl c
round-SameIdentity more c next h k = k

read_loop-SameIdentity :
    (reads : List Read) (now : ℕ) (c : Connection) → SameIdentity c (read_loop now c reads).0
unfolding read_loop
read_loop-SameIdentity [] now c =
    round-SameIdentity (attempt now c) c _ (attempt-AttemptKeeps now c) (SameIdentity-refl c)
read_loop-SameIdentity (bytes chunk ∷ reads) now c =
    let rest = read_loop-SameIdentity reads now (receive c chunk) in
    round-SameIdentity (attempt now c) c (read_loop now (receive c chunk) reads)
      (attempt-AttemptKeeps now c)
      (record {
        state_kept = rest.state_kept;
        game_id_kept = rest.game_id_kept;
        user_id_kept = rest.user_id_kept;
      })
read_loop-SameIdentity (read_error ∷ reads) now c =
    round-SameIdentity (attempt now c) c _ (attempt-AttemptKeeps now c) (SameIdentity-refl c)

pub read_message-SameIdentity :
    (now : ℕ) (c : Connection) (reads : List Read) → SameIdentity c (read_message now c reads).0
unfolding read_message
read_message-SameIdentity now c reads = elim (Bool-cases (is_active c.state)) [
  | inl y ↦ rw y (read_loop-SameIdentity reads now c)
  | inr n ↦ rw n (SameIdentity-refl c)
]
