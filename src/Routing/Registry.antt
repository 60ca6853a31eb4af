-- ===== src/Routing/Registry.antt =====
-- router.go: which handler a request reaches, over any history of registrations.
use data_middleware.Prelude.{
  ℕ, ◌≡◌, refl, sym, ◌∙◌, ◌⊎◌, true, false, ◌==◌, arith, ap, List, [], ◌∷◌, list_beq, list_beq_iff,
  if◌then◌else◌, Option, none, some, string_eq, Bool-cases, Option-cases, inl, inr,
}
use data_middleware.Prelude.Assoc.{lookup, lookup-insert, lookup-delete}
use data_middleware.Routing.{
  Request, GameHandler, Router, new_router, register_handler, unregister_handler, dispatch, route,
  supports, Routed, answered, refused_with, game_missing, type_unsupported,
}

pub data Call (W D : Type 0) : Type 0 where
  registers : List ℕ → GameHandler W D → Call W D
  unregisters : List ℕ → Call W D

-- The number is one of the list.
pub Lists : ℕ → List ℕ → Type 0
Lists n [] = ⊥
Lists n (m ∷ ms) = (m ≡ n) ⊎ Lists n ms

supports-Lists : (types : List ℕ) (n : ℕ) → supports types n ≡ true → Lists n types
unfolding supports Lists
supports-Lists [] n e = absurd (cc)
supports-Lists (m ∷ ms) n e = elim (Bool-cases (m == n)) [
  | inl y ↦ inl (ground arith)
  | inr d ↦ inr (supports-Lists ms n (rw d at e))
]

supports-not : (types : List ℕ) (n : ℕ) → supports types n ≡ false → Lists n types → ⊥
unfolding supports Lists
supports-not [] n e l = l
supports-not (m ∷ ms) n e (inl same) =
    let y : (m == n) ≡ true = ground arith in absurd (let z : true ≡ false = rw y at e in cc)
supports-not (m ∷ ms) n e (inr l) = elim (Bool-cases (m == n)) [
  | inl y ↦ absurd (let z : true ≡ false = rw y at e in cc)
  | inr d ↦ supports-not ms n (rw d at e) l
]

module _ {W D : Type 0} where
  pub after : Router W D → Call W D → Router W D
  after r (registers game h) = (register_handler game h r).0
  after r (unregisters game) = unregister_handler game r

  pub run : Router W D → List (Call W D) → Router W D
  run r [] = r
  run r (call ∷ calls) = run (after r call) calls

  -- The handler of one game: the first that was registered since it was last unregistered.
  unfoldable pub registered :
      List ℕ → Option (GameHandler W D) → List (Call W D) → Option (GameHandler W D)
  registered game now [] = now
  registered game now (registers other h ∷ calls) =
      registered game
        (if list_beq other game then elim now [ none ↦ some h | some g ↦ some g ] else now) calls
  registered game now (unregisters other ∷ calls) =
      registered game (if list_beq other game then none else now) calls

  lookup-register_handler :
      (game other : List ℕ) (h : GameHandler W D) (r : Router W D)
      → lookup game (register_handler other h r).0.handlers ≡ (
          if list_beq other game
          then elim (lookup game r.handlers) [ none ↦ some h | some g ↦ some g ]
          else lookup game r.handlers)
  unfolding register_handler
  lookup-register_handler game other h r = elim (Option-cases (lookup other r.handlers)) [
    | inl absent ↦
        rw (absent, register_handler)
          (lookup-insert other game h r.handlers ∙ elim (Bool-cases (list_beq other game)) [
            | inl y ↦
                let q : other ≡ game = (list_beq_iff other game).0 y in
                let missing : lookup game r.handlers ≡ none = rw q at absent in rw (y, missing) refl
            | inr n ↦ rw n refl
          ])
    | inr (g, present) ↦
        rw (present, register_handler)
          (elim (Bool-cases (list_beq other game)) [
            | inl y ↦
                let q : other ≡ game = (list_beq_iff other game).0 y in
                let there : lookup game r.handlers ≡ some g = rw q at present in rw (y, there) refl
            | inr n ↦ rw n refl
          ])
  ]

  lookup-unregister_handler :
      (game other : List ℕ) (r : Router W D)
      → lookup game (unregister_handler other r).handlers
        ≡ (if list_beq other game then none else lookup game r.handlers)
  unfolding unregister_handler
  lookup-unregister_handler game other r = elim (Option-cases (lookup other r.handlers)) [
    | inr (g, present) ↦ rw (present, unregister_handler) (lookup-delete other game r.handlers)
    | inl absent ↦
        rw (absent, unregister_handler)
          (elim (Bool-cases (list_beq other game)) [
            | inl y ↦
                let q : other ≡ game = (list_beq_iff other game).0 y in
                let missing : lookup game r.handlers ≡ none = rw q at absent in rw (y, missing) refl
            | inr n ↦ rw n refl
          ])
  ]

  lookup-run :
      (calls : List (Call W D)) (game : List ℕ) (r : Router W D)
      → lookup game (run r calls).handlers ≡ registered game (lookup game r.handlers) calls
  unfolding run after registered
  lookup-run [] game r = refl
  lookup-run (registers other h ∷ calls) game r =
      lookup-run calls game _
      ∙ ap (λ o. registered game o calls) (lookup-register_handler game other h r)
  lookup-run (unregisters other ∷ calls) game r =
      lookup-run calls game _
      ∙ ap (λ o. registered game o calls) (lookup-unregister_handler game other r)

  -- What Route gives for a request, by the handler of its game.
  pub Decided : Request → W → Option (GameHandler W D) → W × Routed D → Type 0
  Decided req world none r = r ≡ (world, answered (refused_with game_missing req))
  Decided req world (some h) r =
      (Lists req.type h.supported × (r ≡ h.handle req.game_id req world))
      ⊎ ((¬ Lists req.type h.supported)
          × (r ≡ (world, answered (refused_with type_unsupported req))))

  dispatch-Decided :
      (req : Request) (world : W) (o : Option (GameHandler W D))
      → Decided req world o (dispatch req world o)
  unfolding dispatch Decided
  dispatch-Decided req world none = refl
  dispatch-Decided req world (some h) = elim (Bool-cases (supports h.supported req.type)) [
    | inl y ↦ rw y (inl (supports-Lists h.supported req.type y, refl))
    | inr n ↦ rw n (inr (supports-not h.supported req.type n, refl))
  ]

  -- After any history of registrations and unregistrations on a new router, Route decides a request
  -- by the handler that was registered first for its game since the game was last unregistered:
  -- without one the game is reported missing, and with one that does not list the request's type
  -- the type is, both without an effect; else the handler decides.
  pub route-run :
      (calls : List (Call W D)) (req : Request) (world : W)
      → Decided req world
          (registered req.game_id none calls)
          (route req (run new_router calls) world)
  unfolding new_router
  route-run calls req world =
      let same : registered req.game_id none calls
          ≡ lookup req.game_id (run new_router calls).handlers =
        sym (lookup-run calls req.game_id new_router) in
      rw same (dispatch-Decided req world (lookup req.game_id (run new_router calls).handlers))
