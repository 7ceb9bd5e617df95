-- ===== src/Tests/Timers.antt =====
-- Two timers, of which one is due, and a callback that notes which were called.
use libixp.Base.{ℕ, ◌≡◌, refl, true, List, [], ◌∷◌, some, arith}
use libixp.Timer.{Timer, Server, settimer, unsettimer, nexttimer}
use libixp.Timer.Order.{HasTimers}
use libixp.Timer.Removal.{unsettimer-settimer}
use libixp.Timer.Firing.{nexttimer-fires, nexttimer-held_back}

abbrev late : Timer
late = record { msec = 200; id = 2; fn = some 5; aux = 0 }

abbrev early : Timer
early = record { msec = 50; id = 1; fn = some 4; aux = 0 }

abbrev server : Server (List ℕ)
server = record { timers = late ∷ early ∷ []; lastid = 3; readings = 0; world = [] }

abbrev due_server : Server (List ℕ)
due_server = record { timers = early ∷ []; lastid = 3; readings = 0; world = [] }

abbrev clock : ℕ → ℕ
clock k = 100

abbrev note : ℕ → ℕ → ℕ → List ℕ → List ℕ
note f id aux w = f ∷ w

abbrev callback : ℕ → ℕ → ℕ → Server (List ℕ) → Server (List ℕ)
callback f id aux s = record s { world = note f id aux s.world }

server-HasTimers : HasTimers server
server-HasTimers = record {
  descending = ((omega arith, tt), (tt, tt));
  distinct = ((λ e. omega (arith, e), tt), (tt, tt));
  below = (omega arith, (omega arith, tt));
}

unsettimer-settimer_example :
    (let set = settimer clock callback 30 (some 6) 0 server in
      unsettimer clock callback set.0 set.1 ≡ (true, record (set.1) { timers = server.timers }))
unsettimer-settimer_example =
    unsettimer-settimer clock callback 30 0 (some 6) server server-HasTimers

nexttimer-fires_example :
    (k : ℕ) × (nexttimer clock callback 2 due_server
      ≡ some (0, record due_server { timers = []; readings = k; world = 4 ∷ [] }))
nexttimer-fires_example =
    nexttimer-fires clock callback note (λ f id aux s. refl) 100 2 due_server (λ k. refl)
      (omega arith)

nexttimer-held_back_example :
    (let set = (settimer clock callback 30 (some 6) 0 due_server).1 in
      nexttimer clock callback 1 set ≡ some (30, record set { readings = 2 }))
nexttimer-held_back_example =
    nexttimer-held_back clock callback 30 0 (some 6) 0 due_server (omega arith, tt) (omega arith)
