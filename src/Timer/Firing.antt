-- ===== src/Timer/Firing.antt =====
-- nexttimer: which timers are called, and that it comes to an end.
use libixp.Base.{
  ℕ, zero, suc, ◌+◌, ◌-◌, ◌%◌, ◌^◌, ◌<◌, ◌≡◌, refl, inl, inr, List, [], ◌∷◌, All, arith, ltb,
  if◌then◌else◌, Option, none, some, lt-cases, lt→ltb, le→ltb_false, length,
}
use libixp.Timer.{Timer, Server, settimer, call_timer, nexttimer, insert_timer}

-- The timers before the first that is not due at the given time, and the rest.
abbrev pub due : ℕ → List Timer → List Timer
due now [] = []
due now (t ∷ ts) = if ltb now t.msec then [] else t ∷ due now ts

abbrev pub pending : ℕ → List Timer → List Timer
pending now [] = []
pending now (t ∷ ts) = if ltb now t.msec then t ∷ ts else pending now ts

-- The time that is left for the first timer.
abbrev pub wait_for : ℕ → List Timer → ℕ
wait_for now [] = 0
wait_for now (t ∷ ts) = t.msec - now

-- A timer that is later than all others stands in front of them.
insert_timer-first :
    (t : Timer) (ts : List Timer) → All (λ u. u.msec < t.msec) ts → insert_timer t ts ≡ t ∷ ts
unfolding insert_timer
insert_timer-first t [] a = refl
insert_timer-first t (u ∷ us) (lt, a) = rw (lt→ltb _ _ lt) refl

module _ {W : Type 0} (clock : ℕ → ℕ) (callback : ℕ → ℕ → ℕ → Server W → Server W) where
  module _ (work : ℕ → ℕ → ℕ → W → W)
      (quiet : (f id aux : ℕ) (s : Server W)
        → callback f id aux s ≡ record s { world = work f id aux s.world }) where
    -- What the calls of some timers, one after the other, do to the world.
    abbrev pub ran : Timer → W → W
    ran t w = elim t.fn [ none ↦ w | some f ↦ work f t.id t.aux w ]

    abbrev pub ran_all : List Timer → W → W
    ran_all [] w = w
    ran_all (t ∷ ts) w = ran_all ts (ran t w)

    call_timer-quiet :
        (t : Timer) (s : Server W)
        → call_timer clock callback t s ≡ record s { world = ran t s.world }
    unfolding call_timer
    call_timer-quiet t s =
        elim t.fn
          as (λ fn. elim fn [ none ↦ s | some f ↦ callback f t.id t.aux s ] ≡ record s {
            world = elim fn [ none ↦ s.world | some f ↦ work f t.id t.aux s.world ];
          }) [ none ↦ refl | some f ↦ quiet f t.id t.aux s ]

    fires :
        (now : ℕ) (ts : List Timer) (fuel : ℕ) (s : Server W)
        → ((k : ℕ) → clock k ≡ now)
        → length ts < fuel
        → (k : ℕ) × (nexttimer clock callback fuel (record s { timers = ts })
            ≡ some (
              wait_for now (pending now ts),
              record s {
                timers = pending now ts;
                readings = k;
                world = ran_all (due now ts) s.world;
              },
            ))
    unfolding nexttimer
    fires now ts zero s still enough = absurd (omega (arith, enough))
    fires now [] (suc fuel) s still enough = (s.readings, refl)
    fires now (t ∷ ts) (suc fuel) s still enough = elim (lt-cases now t.msec) [
      | inl lt ↦ (suc s.readings, rw (still s.readings, lt→ltb _ _ lt) refl)
      | inr ge ↦
          let (k, e) =
            fires now ts fuel (record s { readings = suc s.readings; world = ran t s.world }) still
              (omega arith) in
          (k, rw (still s.readings, le→ltb_false _ _ ge, call_timer-quiet) e)
    ]

    -- nexttimer returns, with fuel for a round per timer and one more, when the callbacks leave the
    -- timers alone and the clock does not move. It calls the timers at the head of the list that
    -- are due, in their order, up to the first that is not; these and no others are gone. The
    -- result is the time that is left for that first one, or 0 if none is left.
    pub nexttimer-fires :
        (now fuel : ℕ) (s : Server W)
        → ((k : ℕ) → clock k ≡ now)
        → length s.timers < fuel
        → (k : ℕ) × (nexttimer clock callback fuel s
            ≡ some (
              wait_for now (pending now s.timers),
              record s {
                timers = pending now s.timers;
                readings = k;
                world = ran_all (due now s.timers) s.world;
              },
            ))
    nexttimer-fires now fuel s still enough = fires now s.timers fuel s still enough

  -- A timer that is set later than all others holds them back: until its own time, nexttimer calls
  -- none of them, however long they have been due, and returns the time left for the new one.
  pub nexttimer-held_back :
      (msecs aux : ℕ) (fn : Option ℕ) (fuel : ℕ) (s : Server W)
      → All (λ u. u.msec < (clock s.readings + msecs) % 2 ^ 64) s.timers
      → clock (suc s.readings) < (clock s.readings + msecs) % 2 ^ 64
      → (let set = (settimer clock callback msecs fn aux s).1 in
          nexttimer clock callback (suc fuel) set
          ≡ some (
            (clock s.readings + msecs) % 2 ^ 64 - clock (suc s.readings),
            record set { readings = suc (suc s.readings) },
          ))
  unfolding nexttimer settimer
  nexttimer-held_back msecs aux fn fuel s later now =
      let t : Timer = record {
        msec = (clock s.readings + msecs) % 2 ^ 64;
        id = s.lastid;
        fn = fn;
        aux = aux;
      } in
      rw (insert_timer-first t s.timers later, lt→ltb _ _ now) refl
