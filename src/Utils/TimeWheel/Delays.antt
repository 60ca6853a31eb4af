-- ===== src/Utils/TimeWheel/Delays.antt =====
-- datastruct.go: when the tasks of a TimeWheel are started.
use native.Mathlib.Nat.{
  mod-lt, mod-eq_of_lt, mod-add-mod, add-mod-mod, div-eq_of_lt, div-lt_iff_lt-mul,
  le-div_iff_mul-le,
}
use data_middleware.Prelude.{
  ℕ, zero, suc, ◌+◌, ◌%◌, ◌*◌, ◌/◌, ◌⊎◌, ◌<◌, ◌≤◌, ◌≡◌, ◌≢◌, refl, sym, ap, ◌∙◌, ℤ, pos, negsuc,
  List, [], ◌∷◌, ◌++◌, get_or, set, length, length-set, length-replicate, if◌then◌else◌, ◌==◌, ltb,
  ◌-◌, arith, Bool-cases, inl, inr,
}
use data_middleware.Utils.RingBuffer.Positions.{mod_wrap}
use data_middleware.Utils.TimeWheel.{
  TimeWheel, positive_or, new_time_wheel, ticks_of, append_at, add_task, tick,
}

positive_or-positive : (n : ℕ) (z : ℤ) → 0 < n → 0 < positive_or n z
positive_or-positive n (pos zero) h = h
positive_or-positive n (pos (suc m)) h = omega arith
positive_or-positive n (negsuc m) h = h

other_slot : (c r n : ℕ) → c < n → suc r < n → (c + suc r) % n ≢ c
other_slot c r n h k e = elim (Bool-cases (ltb (c + suc r) n)) [
  | inl y ↦ let f : (c + suc r) % n ≡ c + suc r = mod-eq_of_lt (ground arith) in omega arith
  | inr m ↦
      let above : n ≤ c + suc r = ground arith in
      let f : (c + suc r) % n ≡ c + suc r - n = mod_wrap (c + suc r) n above (omega arith) in
      omega arith
]

-- A delay holds `k` whole ticks and not one more, or is below one tick and `k` is 1.
abbrev pub Spans : ℕ → ℕ → ℕ → Type 0
Spans tick_ms delay k =
    ((1 ≤ k) × (k * tick_ms ≤ delay) × (delay < (k + 1) * tick_ms)) ⊎ ((k ≡ 1) × (delay < tick_ms))

above_zero : (tick k delay : ℕ) → delay < (k + 1) * tick → 0 < tick
above_zero zero k delay h = let e : (k + 1) * 0 ≡ 0 = omega arith in absurd (omega (arith, h, e))
above_zero (suc tick) k delay h = omega arith

div-Spans : (tick delay k : ℕ) → k * tick ≤ delay → delay < (k + 1) * tick → delay / tick ≡ k
div-Spans tick delay k low high =
    let positive : 0 < tick = above_zero tick k delay high in
    let below = (div-lt_iff_lt-mul {x = delay} {y = k + 1} positive).1 high in
    let above = (le-div_iff_mul-le {x = k} {y = delay} positive).1 low in
    omega (arith, below, above)

module _ {A : Type 0} where
  -- A wheel that a history of calls and ticks leads to.
  pub data Reached : TimeWheel A → Type 0 where
    new_wheel : (tick_ms wheel_size : ℤ) → Reached (new_time_wheel tick_ms wheel_size)
    after_add_task :
        (delay_ms : ℤ) (task : A) (w : TimeWheel A)
        → Reached w
        → Reached (add_task delay_ms task w).0
    after_tick : (w : TimeWheel A) → Reached w → Reached (tick w).0

  -- The tasks that the tick number `n` from now on starts, the next one being number 0, if no task
  -- is added on the way.
  unfoldable pub fired : ℕ → TimeWheel A → List A
  fired zero w = (tick w).1
  fired (suc n) w = fired n (tick w).0

  pub record IsWheel (w : TimeWheel A) : Type 0 where
    pub has_slots : 0 < w.wheel_size
    pub sized : length w.wheel ≡ w.wheel_size
    pub in_range : w.current < w.wheel_size

  add_task-IsWheel : (d : ℤ) (t : A) (w : TimeWheel A) → IsWheel w → IsWheel (add_task d t w).0
  unfolding add_task append_at
  add_task-IsWheel (negsuc n) t w h = h
  add_task-IsWheel (pos zero) t w h = h
  add_task-IsWheel (pos (suc n)) t w h = record {
    has_slots = h.has_slots;
    sized = length-set w.wheel _ _ ∙ h.sized;
    in_range = h.in_range;
  }

  tick-IsWheel : (w : TimeWheel A) → IsWheel w → IsWheel (tick w).0
  unfolding tick
  tick-IsWheel w h = record {
    has_slots = h.has_slots;
    sized = length-set w.wheel _ _ ∙ h.sized;
    in_range = mod-lt (w.current + 1) h.has_slots;
  }

  Reached-IsWheel : (w : TimeWheel A) → Reached w → IsWheel w
  unfolding new_time_wheel
  Reached-IsWheel _ (new_wheel t s) = record {
    has_slots = positive_or-positive 60 s (omega arith);
    sized = length-replicate _ _;
    in_range = positive_or-positive 60 s (omega arith);
  }
  Reached-IsWheel _ (after_add_task d t w r) = add_task-IsWheel d t w (Reached-IsWheel w r)
  Reached-IsWheel _ (after_tick w r) = tick-IsWheel w (Reached-IsWheel w r)

  get_or-set :
      (xs : List (List A)) (i : ℕ) (v : List A) → i < length xs → get_or (set xs i v) i [] ≡ v
  get_or-set [] i v h = absurd (omega arith)
  get_or-set (x ∷ xs) zero v h = refl
  get_or-set (x ∷ xs) (suc i) v h = get_or-set xs i v (omega arith)

  get_or-set_other :
      (xs : List (List A)) (i j : ℕ) (v : List A)
      → i ≢ j
      → get_or (set xs i v) j [] ≡ get_or xs j []
  get_or-set_other [] i j v n = refl
  get_or-set_other (x ∷ xs) zero zero v n = absurd (n refl)
  get_or-set_other (x ∷ xs) zero (suc j) v n = refl
  get_or-set_other (x ∷ xs) (suc i) zero v n = refl
  get_or-set_other (x ∷ xs) (suc i) (suc j) v n = get_or-set_other xs i j v (λ e. n (ap suc e))

  set-set : (xs : List (List A)) (i : ℕ) (v w : List A) → set (set xs i v) i w ≡ set xs i w
  set-set [] i v w = refl
  set-set (x ∷ xs) zero v w = refl
  set-set (x ∷ xs) (suc i) v w = ap (◌∷◌ x) (set-set xs i v w)

  set-set_other :
      (xs : List (List A)) (i j : ℕ) (v w : List A)
      → i ≢ j
      → set (set xs i v) j w ≡ set (set xs j w) i v
  set-set_other [] i j v w n = refl
  set-set_other (x ∷ xs) zero zero v w n = absurd (n refl)
  set-set_other (x ∷ xs) zero (suc j) v w n = refl
  set-set_other (x ∷ xs) (suc i) zero v w n = refl
  set-set_other (x ∷ xs) (suc i) (suc j) v w n =
      ap (◌∷◌ x) (set-set_other xs i j v w (λ e. n (ap suc e)))

  tick_keeps : (r : ℕ) (w : TimeWheel A) → suc r < w.wheel_size → r < (tick w).0.wheel_size
  unfolding tick
  tick_keeps r w l = omega arith

  -- A task in the slot that is `r` ahead.
  put_ahead : ℕ → A → TimeWheel A → TimeWheel A
  put_ahead r t w = record w { wheel = append_at ((w.current + r) % w.wheel_size) t w.wheel }

  put_ahead_now :
      (t : A) (w : TimeWheel A)
      → IsWheel w
      → ((tick (put_ahead 0 t w)).0 ≡ (tick w).0)
        × ((tick (put_ahead 0 t w)).1 ≡ (tick w).1 ++ (t ∷ []))
  unfolding put_ahead tick append_at
  put_ahead_now t w h =
      let here : (w.current + 0) % w.wheel_size ≡ w.current =
        ap (λ i. i % w.wheel_size) (omega arith) ∙ mod-eq_of_lt h.in_range in
      let added = get_or w.wheel w.current [] ++ (t ∷ []) in
      rw here (
        ap (λ u. record w { wheel = u; current = (w.current + 1) % w.wheel_size })
            (set-set w.wheel w.current added []),
        get_or-set w.wheel w.current added (rw (h.sized) (h.in_range)),
      )

  put_ahead_later :
      (r : ℕ) (t : A) (w : TimeWheel A)
      → IsWheel w
      → suc r < w.wheel_size
      → ((tick (put_ahead (suc r) t w)).0 ≡ put_ahead r t (tick w).0)
        × ((tick (put_ahead (suc r) t w)).1 ≡ (tick w).1)
  unfolding put_ahead tick append_at
  put_ahead_later r t w h l =
      let i = (w.current + suc r) % w.wheel_size in
      let apart : i ≢ w.current = other_slot w.current r w.wheel_size h.in_range l in
      let apart_ : w.current ≢ i = λ e. apart (sym e) in
      let next : ((w.current + 1) % w.wheel_size + r) % w.wheel_size ≡ i =
        mod-add-mod (w.current + 1) w.wheel_size r ∙ ap (λ j. j % w.wheel_size) (omega arith) in
      let added = get_or w.wheel i [] ++ (t ∷ []) in
      (
        rw (next, get_or-set_other w.wheel w.current i [] apart_)
            (ap (λ u. record w { wheel = u; current = (w.current + 1) % w.wheel_size })
              (set-set_other w.wheel i w.current added [] apart)),
        get_or-set_other w.wheel i w.current added apart,
      )

  without_end : (ys : List A) → ys ++ [] ≡ ys
  without_end [] = refl
  without_end (y ∷ ys) = ap (◌∷◌ y) (without_end ys)

  fired-put_ahead :
      (n r : ℕ) (t : A) (w : TimeWheel A)
      → IsWheel w
      → r < w.wheel_size
      → fired n (put_ahead r t w) ≡ fired n w ++ (if n == r then t ∷ [] else [])
  unfolding fired
  fired-put_ahead zero zero t w h l = (put_ahead_now t w h).1
  fired-put_ahead zero (suc r) t w h l =
      (put_ahead_later r t w h l).1
      ∙ sym (without_end (tick w).1)
      ∙ ap (◌++◌ (tick w).1) (ground arith)
  fired-put_ahead (suc n) zero t w h l =
      ap (fired n) (put_ahead_now t w h).0
      ∙ sym (without_end (fired n (tick w).0))
      ∙ ap (◌++◌ (fired n (tick w).0)) (ground arith)
  fired-put_ahead (suc n) (suc r) t w h l =
      ap (fired n) (put_ahead_later r t w h l).0
      ∙ fired-put_ahead n r t (tick w).0 (tick-IsWheel w h) (tick_keeps r w l)
      ∙ ap (◌++◌ (fired n (tick w).0)) (ground arith)

  ticks_of-Spans : (delay k : ℕ) (w : TimeWheel A) → Spans w.tick_ms delay k → ticks_of delay w ≡ k
  unfolding ticks_of
  ticks_of-Spans delay k w (inl (positive, low, high)) =
      rw (div-Spans w.tick_ms delay k low high) (ground (arith, positive))
  ticks_of-Spans delay k w (inr (one, short)) = rw (div-eq_of_lt short) (sym one)

  -- In a wheel of any history, a task whose delay is above 0 and holds `k` whole ticks and not one
  -- more, or is below one tick with `k` being 1, is started once, after the tasks of its slot, by the
  -- tick whose number is `k` modulo the size of the wheel (the next tick being number 0), and the
  -- other ticks start what they would have.
  pub fired-add_task :
      (n d k : ℕ) (task : A) (w : TimeWheel A)
      → Reached w
      → Spans w.tick_ms (suc d) k
      → fired n (add_task (pos (suc d)) task w).0
        ≡ fired n w ++ (if n == k % w.wheel_size then task ∷ [] else [])
  unfolding add_task put_ahead
  fired-add_task n d k task w r spans =
      let h = Reached-IsWheel w r in
      let t = ticks_of (suc d) w in
      let counted : t ≡ k = ticks_of-Spans (suc d) k w spans in
      rw (← counted, sym (add-mod-mod w.current t w.wheel_size))
        (fired-put_ahead n (t % w.wheel_size) task w h (mod-lt t h.has_slots))
