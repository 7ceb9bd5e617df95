-- ===== src/Timer/Removal.antt =====
-- unsettimer against settimer.
use libixp.Base.{
  ℕ, ◌+◌, ◌%◌, ◌^◌, ◌≡◌, ◌≢◌, refl, inl, inr, true, false, Bool-cases, List, [], ◌∷◌, All, arith,
  ◌==◌, Option, lt-cases, lt→ltb, le→ltb_false, ==_iff,
}
use libixp.Timer.{Timer, Server, insert_timer, remove_timer, settimer, unsettimer}
use libixp.Timer.Order.{HasTimers, fresh}

==-refl : (a : ℕ) → (a == a) ≡ true
==-refl a = ground arith

==-ne : (a b : ℕ) → a ≢ b → (a == b) ≡ false
==-ne a b h = ground arith

remove_timer-insert_timer :
    (t : Timer) (ts : List Timer)
    → All (λ u. u.id ≢ t.id) ts
    → remove_timer t.id (insert_timer t ts) ≡ (true, ts)
unfolding remove_timer insert_timer
remove_timer-insert_timer t [] a = rw (==-refl t.id) refl
remove_timer-insert_timer t (u ∷ us) (n, a) = elim (lt-cases u.msec t.msec) [
  | inl lt ↦ rw (lt→ltb _ _ lt, ==-refl t.id) refl
  | inr ge ↦ rw (le→ltb_false _ _ ge, ==-ne u.id t.id n, remove_timer-insert_timer t us a) refl
]

-- An id that no timer has.
remove_timer-missing :
    (id : ℕ) (ts : List Timer) → All (λ u. u.id ≢ id) ts → remove_timer id ts ≡ (false, ts)
unfolding remove_timer
remove_timer-missing id [] a = refl
remove_timer-missing id (u ∷ us) (n, a) = rw (==-ne u.id id n, remove_timer-missing id us a) refl

-- After the removal no timer has the id.
remove_timer-gone :
    (id : ℕ) (ts : List Timer)
    → libixp.Timer.Order.Distinct ts
    → All (λ u. u.id ≢ id) (remove_timer id ts).1
unfolding remove_timer
remove_timer-gone id [] d = tt
remove_timer-gone id (u ∷ us) (a, d) = elim (Bool-cases (u.id == id)) [
  | inl e ↦ rw (e, ← (==_iff u.id id).0 e) a
  | inr e ↦ rw e (λ same. ground arith, remove_timer-gone id us d)
]

module _ {W : Type 0} (clock : ℕ → ℕ) (callback : ℕ → ℕ → ℕ → Server W → Server W) where
  -- The id that settimer returned stops that timer and no other: unsettimer returns true and leaves
  -- the timers that there were before, in their order.
  pub unsettimer-settimer :
      (msecs aux : ℕ) (fn : Option ℕ) (s : Server W)
      → HasTimers s
      → (let set = settimer clock callback msecs fn aux s in
          unsettimer clock callback set.0 set.1 ≡ (true, record (set.1) { timers = s.timers }))
  unfolding unsettimer settimer
  unsettimer-settimer msecs aux fn s v =
      let t : Timer = record {
        msec = (clock s.readings + msecs) % 2 ^ 64;
        id = s.lastid;
        fn = fn;
        aux = aux;
      } in
      rw (remove_timer-insert_timer t s.timers (fresh s.timers s.lastid v.below)) refl

  -- A timer is stopped once: unsettimer of the same id again returns false and changes nothing.
  pub unsettimer-twice :
      (id : ℕ) (s : Server W)
      → HasTimers s
      → (let once = (unsettimer clock callback id s).1 in
          unsettimer clock callback id once ≡ (false, once))
  unfolding unsettimer
  unsettimer-twice id s v =
      rw
        (remove_timer-missing id (remove_timer id s.timers).1
          (remove_timer-gone id s.timers v.distinct))
        refl
