-- ===== src/Rpc/Mux/Electing.antt =====
-- electmuxer on a ring of sleepers.
use libixp.Base.{
  ℕ, zero, suc, ◌≤◌, ◌≡◌, ◌≢◌, refl, ◌∙◌, Bool, true, false, not, List, [], ◌∷◌, ◌==◌, IsApart,
  if◌then◌else◌, Option, none, some, length, arith, Bool-cases, inl, inr, ==_iff, sym,
}
use libixp.Rpc.Queue.{Linked, IsRing}
use libixp.Rpc.Mux.{Mux, set_muxer, elect, electmuxer}

-- The first of a list that is not asynchronous.
abbrev pub first_awake : (ℕ → Bool) → List ℕ → Option ℕ
first_awake async [] = none
first_awake async (x ∷ xs) =
    let rest = first_awake async xs in if not (async x) then some x else rest

module _ {N : Type 0} where
  elect-ring :
      (fuel : ℕ) (at : Option ℕ) (m : Mux N) (a : ℕ) (xs : List ℕ)
      → Linked m.client.next m.client.previous a xs m.client.sleep
      → IsApart m.client.sleep xs
      → m.client.next a ≡ at
      → suc (length xs) ≤ fuel
      → elect fuel at m ≡ set_muxer (first_awake m.async xs) m
  unfolding elect
  elect-ring zero at m a xs v apart e enough = absurd (omega (arith, enough))
  elect-ring (suc fuel) none m a [] v apart e enough = cc
  elect-ring (suc fuel) none m a (x ∷ xs) v apart e enough = cc
  elect-ring (suc fuel) (some n) m a [] v apart e enough =
      let same : n ≡ m.client.sleep = cc (e, v.0) in
      let here : (n == m.client.sleep) ≡ true = (==_iff n m.client.sleep).1 same in rw here refl
  elect-ring (suc fuel) (some n) m a (x ∷ xs) v apart e enough =
      let same : n ≡ x = cc (e, v.0) in
      let away : (n == m.client.sleep) ≡ false =
        let differ : n ≢ m.client.sleep = λ s. apart.0 (sym same ∙ s) in ground arith in
      let rest =
        elect-ring fuel (m.client.next x) m x xs v.2 apart.1 refl (omega (arith, enough)) in
      rw (away, same)
        (elim (Bool-cases (m.async x)) [ inl skip ↦ rw skip rest | inr awake ↦ rw awake refl ])

  -- On a ring of sleepers electmuxer hands the reading to the first of them that is not
  -- asynchronous, and to nobody if there is none.
  pub electmuxer-ring :
      (fuel : ℕ) (m : Mux N) (xs : List ℕ)
      → IsRing m.client xs
      → suc (length xs) ≤ fuel
      → electmuxer fuel m ≡ set_muxer (first_awake m.async xs) m
  unfolding electmuxer
  electmuxer-ring fuel m xs ring enough =
      elect-ring fuel (m.client.next m.client.sleep) m m.client.sleep xs ring.linked ring.head_apart
        refl enough
