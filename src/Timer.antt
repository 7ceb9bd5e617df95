-- ===== src/Timer.antt =====
-- timer.cc and timer.h: the timers of a Server. The clock (the k-th result of msec()) and what a
-- callback does to the server are parameters, since both come from outside of the library.
pub mod Order
pub mod Removal
pub mod Firing
use libixp.Base.{
  ℕ, zero, suc, ◌+◌, ◌-◌, ◌%◌, ◌^◌, Bool, true, false, List, [], ◌∷◌, ltb, ◌==◌, if◌then◌else◌,
  Option, none, some,
}

-- The function and its argument are numbers by which a callback knows them; _fn may be empty.
pub record Timer : Type 0 where
  pub msec : ℕ
  pub id : ℕ
  pub fn : Option ℕ
  pub aux : ℕ

-- The list at _timer, the static lastid, the number of times that msec() was called, and what the
-- callbacks work on.
pub record Server (W : Type 0) : Type 0 where
  pub timers : List Timer
  pub lastid : ℕ
  pub readings : ℕ
  pub world : W

-- The loop over the links that finds the place of a new timer.
pub insert_timer : Timer → List Timer → List Timer
insert_timer t [] = t ∷ []
insert_timer t (u ∷ us) = if ltb u.msec t.msec then t ∷ u ∷ us else u ∷ insert_timer t us

-- The loop that finds a timer by its id, and the unlinking.
pub remove_timer : ℕ → List Timer → Bool × List Timer
remove_timer id [] = (false, [])
remove_timer id (u ∷ us) =
    let rest = remove_timer id us in if u.id == id then (true, us) else (rest.0, u ∷ rest.1)

module _ {W : Type 0} (clock : ℕ → ℕ) (callback : ℕ → ℕ → ℕ → Server W → Server W) where
  -- settimer: the timeout is given as the uint64_t that it is converted to.
  pub settimer : ℕ → Option ℕ → ℕ → Server W → ℕ × Server W
  settimer msecs fn aux s =
      let time = (clock s.readings + msecs) % 2 ^ 64 in
      let t : Timer = record { msec = time; id = s.lastid; fn = fn; aux = aux } in
      (
        s.lastid,
        record s {
          timers = insert_timer t s.timers;
          lastid = suc s.lastid;
          readings = suc s.readings;
        },
      )

  pub unsettimer : ℕ → Server W → Bool × Server W
  unsettimer id s = let found = remove_timer id s.timers in (found.0, record s { timers = found.1 })

  -- Timer::call.
  pub call_timer : Timer → Server W → Server W
  call_timer t s = elim t.fn [ none ↦ s | some f ↦ callback f t.id t.aux s ]

  -- nexttimer, with its result as the uint64_t that it casts to long: the loop as long as a timer is due, and nothing if the fuel does not last. The
  -- callbacks may set new timers, so that no number of rounds is enough for all of them.
  pub nexttimer : ℕ → Server W → Option (ℕ × Server W)
  nexttimer zero s = none
  nexttimer (suc fuel) s = elim s.timers [
    | [] ↦ some (0, s)
    | t ∷ ts ↦
        let now = clock s.readings in
        let s' = record s { readings = suc s.readings } in
        let rest = nexttimer fuel (call_timer t (record s' { timers = ts })) in
        if ltb now t.msec then some (t.msec - now, s') else rest
  ]
