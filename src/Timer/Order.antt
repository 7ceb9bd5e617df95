-- ===== src/Timer/Order.antt =====
-- The list of timers is kept in the order of the timeouts, the latest first, with ids of its own.
use libixp.Base.{
  All-map, ℕ, suc, ◌≤◌, ◌<◌, ◌≢◌, sym, inl, inr, Bool-cases, List, [], ◌∷◌, All, arith, ◌==◌,
  Option, lt-cases, lt→ltb, le→ltb_false,
}
use libixp.Timer.{Timer, Server, insert_timer, remove_timer, settimer, unsettimer}

abbrev pub Descending : List Timer → Type 0
Descending [] = Unit {0}
Descending (t ∷ ts) = All (λ u. u.msec ≤ t.msec) ts × Descending ts

abbrev pub Distinct : List Timer → Type 0
Distinct [] = Unit {0}
Distinct (t ∷ ts) = All (λ u. u.id ≢ t.id) ts × Distinct ts

-- What the list and lastid of a server keep.
pub record IsTimers (ts : List Timer) (lastid : ℕ) : Type 0 where
  pub descending : Descending ts
  pub distinct : Distinct ts
  pub below : All (λ t. t.id < lastid) ts

All-insert :
    (P : Timer → Type 0) (t : Timer) (ts : List Timer) → P t → All P ts → All P (insert_timer t ts)
unfolding insert_timer
All-insert P t [] p a = (p, tt)
All-insert P t (u ∷ us) p (q, a) = elim (lt-cases u.msec t.msec) [
  | inl lt ↦ rw (lt→ltb _ _ lt) (p, (q, a))
  | inr ge ↦ rw (le→ltb_false _ _ ge) (q, All-insert P t us p a)
]

Descending-insert : (t : Timer) (ts : List Timer) → Descending ts → Descending (insert_timer t ts)
unfolding insert_timer
Descending-insert t [] d = (tt, tt)
Descending-insert t (u ∷ us) (a, d) = elim (lt-cases u.msec t.msec) [
  | inl lt ↦ rw (lt→ltb _ _ lt) ((omega arith, All-map us (λ v h. omega (arith, h, lt)) a), (a, d))
  | inr ge ↦
      rw (le→ltb_false _ _ ge)
        (All-insert (λ v. v.msec ≤ u.msec) t us ge a, Descending-insert t us d)
]

Distinct-insert :
    (t : Timer) (ts : List Timer)
    → All (λ u. u.id ≢ t.id) ts
    → Distinct ts
    → Distinct (insert_timer t ts)
unfolding insert_timer
Distinct-insert t [] n d = (tt, tt)
Distinct-insert t (u ∷ us) (n, ns) (a, d) = elim (lt-cases u.msec t.msec) [
  | inl lt ↦ rw (lt→ltb _ _ lt) ((n, ns), (a, d))
  | inr ge ↦
      rw (le→ltb_false _ _ ge)
        (All-insert (λ v. v.id ≢ u.id) t us (λ e. n (sym e)) a, Distinct-insert t us ns d)
]

pub fresh :
    (ts : List Timer) (lastid : ℕ) → All (λ t. t.id < lastid) ts → All (λ t. t.id ≢ lastid) ts
fresh ts lastid a = All-map ts (λ t h e. omega (arith, h, e)) a

All-remove :
    (P : Timer → Type 0) (id : ℕ) (ts : List Timer) → All P ts → All P (remove_timer id ts).1
unfolding remove_timer
All-remove P id [] a = tt
All-remove P id (u ∷ us) (p, a) = elim (Bool-cases (u.id == id)) [
  | inl e ↦ rw e a
  | inr e ↦ rw e (p, All-remove P id us a)
]

remove_timer-IsTimers :
    (id lastid : ℕ) (ts : List Timer) → IsTimers ts lastid → IsTimers (remove_timer id ts).1 lastid
unfolding remove_timer
remove_timer-IsTimers id lastid [] v = v
remove_timer-IsTimers id lastid (u ∷ us) v =
    let tail : IsTimers us lastid = record {
      descending = v.descending.1;
      distinct = v.distinct.1;
      below = v.below.1;
    } in
    elim (Bool-cases (u.id == id)) [
      | inl e ↦ rw e tail
      | inr e ↦
          let w = remove_timer-IsTimers id lastid us tail in
          rw e (record {
            descending = (All-remove (λ v. v.msec ≤ u.msec) id us v.descending.0, w.descending);
            distinct = (All-remove (λ v. v.id ≢ u.id) id us v.distinct.0, w.distinct);
            below = (v.below.0, w.below);
          })
    ]

abbrev pub HasTimers : {W : Type 0} → Server W → Type 0
HasTimers s = IsTimers s.timers s.lastid

module _ {W : Type 0} (clock : ℕ → ℕ) (callback : ℕ → ℕ → ℕ → Server W → Server W) where
  -- settimer keeps the order of the list and gives an id that no other timer has.
  pub settimer-HasTimers :
      (msecs aux : ℕ) (fn : Option ℕ) (s : Server W)
      → HasTimers s
      → HasTimers (settimer clock callback msecs fn aux s).1
  unfolding settimer
  settimer-HasTimers msecs aux fn s v = record {
    descending = Descending-insert _ s.timers v.descending;
    distinct = Distinct-insert _ s.timers (fresh s.timers s.lastid v.below) v.distinct;
    below =
        All-insert (λ t. t.id < suc s.lastid) _ s.timers (omega arith)
          (All-map s.timers (λ t h. omega (arith, h)) v.below);
  }

  -- unsettimer keeps the order and the ids.
  pub unsettimer-HasTimers :
      (id : ℕ) (s : Server W) → HasTimers s → HasTimers (unsettimer clock callback id s).1
  unfolding unsettimer
  unsettimer-HasTimers id s v = remove_timer-IsTimers id s.lastid s.timers v
