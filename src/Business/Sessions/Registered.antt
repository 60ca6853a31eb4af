-- ===== src/Business/Sessions/Registered.antt =====
-- player_service.go: from RegisterPlayer to LoginPlayerByUsername.
use data_middleware.Prelude.{
  ℕ, ◌≡◌, refl, sym, ap, ◌∙◌, inl, inr, true, false, List, Option, none, some, list_beq,
}
use data_middleware.Business.Dao.{Queried, answer, unavailable}
use data_middleware.Business.Players.{Player}
use data_middleware.Data.Rows.{find_row, has}
use data_middleware.Data.Table.{Table, IsTable}
use data_middleware.Data.Players.{
  Account, PlayerSession, player_key, player_conflict, username_of, get_player_by_id,
  get_player_by_username,
}
use data_middleware.Business.Sessions.{
  Libraries, ok, ApiPlayer, LoginRequest, Readings, Registration, active,
}
use data_middleware.Business.Sessions.Register.{register_player}
use data_middleware.Business.Sessions.Login.{login_player_by_username, login_by_username_from}
use data_middleware.Business.Sessions.Credentials.{
  IsLoggedIn, IsWrong, HashesMatch, same_player, IsRegistered, login_from-IsLoggedIn,
  register_from-IsRegistered,
}

module _ (lib : Libraries) {P Q : Type 0} (t : Table (Player Account) P) (u : Table PlayerSession Q)
    (rows : P → List (Player Account)) (h : IsTable t rows player_key player_conflict) where
  known_by_name :
      (salt : List ℕ) (r : Registration) (a : ApiPlayer) (s : P × Q)
      (g : IsRegistered lib t u rows h salt r a s) (o : Option (Player Account))
      → get_player_by_username t r.username s.0 ≡ answer o
      → o ≡ some g.player
  unfolding get_player_by_username
  known_by_name salt r a s g o e =
      sym (h.first_answer (has username_of r.username) s.0 o e) ∙ g.by_name

  login_by_username-IsLoggedIn :
      (salt : List ℕ) (r : Registration) (a : ApiPlayer) (clock : Readings) (l : LoginRequest)
      (random : Option (List ℕ)) (s : P × Q) (o : Queried (Option (Player Account)))
      → HashesMatch lib
      → IsRegistered lib t u rows h salt r a s
      → get_player_by_username t r.username s.0 ≡ o
      → IsLoggedIn a.user_id (login_by_username_from lib t u clock r.password l random s o).1
  unfolding login_by_username_from
  login_by_username-IsLoggedIn salt r a clock l random s unavailable m g e = inl refl
  login_by_username-IsLoggedIn salt r a clock l random s (answer none) m g e =
      absurd (let known = known_by_name salt r a s g none e in cc)
  login_by_username-IsLoggedIn salt r a clock l random s (answer (some q)) m g e =
      by_same q (known_by_name salt r a s g (some q) e)
    where
      by_same :
          (q : Player Account)
          → some q ≡ some g.player
          → IsLoggedIn a.user_id
              (login_by_username_from lib t u clock r.password l random s (answer (some q))).1
      by_same q known =
          let same : q ≡ g.player = cc in
          let fits : lib.compare_hash_and_password q.others.password r.password ≡ true =
            ap (λ (x : Player Account). lib.compare_hash_and_password x.others.password r.password)
              same
            ∙ ap (λ (x : List ℕ). lib.compare_hash_and_password x r.password) g.has_hash
            ∙ m salt r.password g.hashed g.hash in
          let on : list_beq q.others.status active ≡ true =
            ap (λ (x : Player Account). list_beq x.others.status active) same ∙ g.on in
          let there : find_row (has player_key (player_key q)) (rows s.0) ≡ some q =
            ap (λ (x : Player Account). find_row (has player_key (player_key x)) (rows s.0)) same
            ∙ g.by_id
            ∙ ap some (sym same) in
          let keys : player_key q ≡ a.user_id = ap player_key same ∙ g.shown in
          rw (fits, on)
            (same_player _ keys (
              login_from-IsLoggedIn lib t u rows h clock l random s q
                (get_player_by_id t (player_key q) s.0) refl there on))

  login_by_username-IsWrong :
      (salt wrong : List ℕ) (r : Registration) (a : ApiPlayer) (clock : Readings) (l : LoginRequest)
      (random : Option (List ℕ)) (s : P × Q) (o : Queried (Option (Player Account)))
      → ((hashed : List ℕ)
          → lib.generate_from_password salt r.password ≡ some hashed
          → lib.compare_hash_and_password hashed wrong ≡ false)
      → IsRegistered lib t u rows h salt r a s
      → get_player_by_username t r.username s.0 ≡ o
      → IsWrong (login_by_username_from lib t u clock wrong l random s o).1
        × ((login_by_username_from lib t u clock wrong l random s o).0 ≡ s)
  unfolding login_by_username_from
  login_by_username-IsWrong salt wrong r a clock l random s unavailable differs g e =
      (inr refl, refl)
  login_by_username-IsWrong salt wrong r a clock l random s (answer none) differs g e =
      absurd (let known = known_by_name salt r a s g none e in cc)
  login_by_username-IsWrong salt wrong r a clock l random s (answer (some q)) differs g e =
      by_same q (known_by_name salt r a s g (some q) e)
    where
      by_same :
          (q : Player Account)
          → some q ≡ some g.player
          → IsWrong (login_by_username_from lib t u clock wrong l random s (answer (some q))).1
            × ((login_by_username_from lib t u clock wrong l random s (answer (some q))).0 ≡ s)
      by_same q known =
          let same : q ≡ g.player = cc in
          let unfit : lib.compare_hash_and_password q.others.password wrong ≡ false =
            ap (λ (x : Player Account). lib.compare_hash_and_password x.others.password wrong) same
            ∙ ap (λ (x : List ℕ). lib.compare_hash_and_password x wrong) g.has_hash
            ∙ differs g.hashed g.hash in
          rw unfit (inl refl, refl)

  -- A player that has registered logs in with the username and the password of the registration, and is
  -- the player that the registration gave, unless the database or the source of randomness
  -- fails; with a password that bcrypt tells from it the login is refused, and changes nothing.
  pub register_player-login_player_by_username :
      (salt wrong : List ℕ) (random drawn : Option (List ℕ)) (r : Registration) (a : ApiPlayer)
      (clock : Readings) (l : LoginRequest) (s : P × Q)
      → HashesMatch lib
      → ((hashed : List ℕ)
          → lib.generate_from_password salt r.password ≡ some hashed
          → lib.compare_hash_and_password hashed wrong ≡ false)
      → (register_player lib t salt random r s).1 ≡ ok a
      → let s2 = (register_player lib t salt random r s).0 in
        IsLoggedIn a.user_id
          (login_player_by_username lib t u clock r.username r.password l drawn s2).1
        × IsWrong (login_player_by_username lib t u clock r.username wrong l drawn s2).1
        × ((login_player_by_username lib t u clock r.username wrong l drawn s2).0 ≡ s2)
  unfolding register_player
  register_player-login_player_by_username salt wrong random drawn r a clock l s m differs fine =
      let s2 = (register_player lib t salt random r s).0 in
      let g : IsRegistered lib t u rows h salt r a s2 =
        register_from-IsRegistered lib t u rows h salt random r a s
          (get_player_by_username t r.username s.0) fine in
      let o = get_player_by_username t r.username s2.0 in
      let (refused_it, kept) =
        login_by_username-IsWrong salt wrong r a clock l drawn s2 o differs g refl in
      (login_by_username-IsLoggedIn salt r a clock l drawn s2 o m g refl, refused_it, kept)
