-- ===== src/Client/Fids.antt =====
-- getFid and putfid: a fid is never given to two files at a time, and none gets lost.
use libixp.Base.{
  IsApart, AllApart, IsApart-others, AllApart-without, All-map, All-here, All-without, subst,
  ==_iff, ℕ, ◌+◌, ◌-◌, ◌%◌, ◌^◌, ◌≤◌, ◌<◌, ◌≡◌, sym, inl, inr, true, false, List, [], ◌∷◌, ◌++◌,
  All, ◌==◌, arith, eq-cases, length,
}
use libixp.Client.{FidPool, get_fid, putfid}

abbrev pub IsFid : ℕ → ℕ → Type 0
IsFid lastfid f = (1 ≤ f) × (f ≤ lastfid)

-- The fids in use and the free ones are all different, they lie between RootFid, which is 1, and
-- _lastfid, and there are _lastfid of them: each number up to _lastfid is in use or free.
pub record IsPool (used : List ℕ) (p : FidPool) : Type 0 where
  pub used_apart : AllApart used
  pub free_apart : AllApart p.freefid
  pub apart : All (λ f. IsApart f p.freefid) used
  pub used_below : All (IsFid p.lastfid) used
  pub free_below : All (IsFid p.lastfid) p.freefid
  pub counted : length used + length p.freefid ≡ p.lastfid

first_cases :
    (used : List ℕ) (lastfid : ℕ) (free : List ℕ)
    → (let q : FidPool = record { lastfid = lastfid; freefid = free } in
        IsPool used q
        → lastfid + 1 < 2 ^ 32
        → IsApart (get_fid q).0 used × IsPool ((get_fid q).0 ∷ used) (get_fid q).1)
unfolding get_fid
first_cases used lastfid [] v room =
    let e : (lastfid + 1) % 2 ^ 32 ≡ lastfid + 1 = omega arith in
    let new : IsApart (lastfid + 1) used =
      All-map used (λ g le eq. omega (arith, le.1, eq)) v.used_below in
    rw e (
      new,
      record {
        used_apart = (new, v.used_apart);
        free_apart = tt;
        apart = (tt, v.apart);
        used_below = (
          (omega arith, omega arith),
          All-map used (λ g le. (le.0, omega (arith, le.1))) v.used_below,
        );
        free_below = tt;
        counted = omega (arith, v.counted);
      },
    )
first_cases used lastfid (f ∷ fs) v room =
    let new : IsApart f used = All-map used (λ g h e. h.0 (sym e)) v.apart in
    (
      new,
      record {
        used_apart = (new, v.used_apart);
        free_apart = v.free_apart.1;
        apart = (v.free_apart.0, All-map used (λ g h. h.1) v.apart);
        used_below = (v.free_below.0, v.used_below);
        free_below = v.free_below.1;
        counted = omega (arith, v.counted);
      },
    )

-- getFid gives a fid that is not in use, and with it in use the pool is well-formed again.
pub get_fid-IsPool :
    (used : List ℕ) (p : FidPool)
    → IsPool used p
    → p.lastfid + 1 < 2 ^ 32
    → IsApart (get_fid p).0 used × IsPool ((get_fid p).0 ∷ used) (get_fid p).1
get_fid-IsPool used p v room = first_cases used p.lastfid p.freefid v room

below_without : (n : ℕ) (xs : List ℕ) → All (IsFid n) xs → IsApart n xs → All (IsFid (n - 1)) xs
below_without n [] h a = tt
below_without n (x ∷ xs) (le, h) (ne, a) = ((le.0, omega (arith, le.1, ne)), below_without n xs h a)

pushed-IsApart :
    (f : ℕ) (free : List ℕ) (xs : List ℕ)
    → IsApart f xs
    → All (λ g. IsApart g free) xs
    → All (λ g. IsApart g (f ∷ free)) xs
pushed-IsApart f free [] a h = tt
pushed-IsApart f free (x ∷ xs) (ne, a) (p, h) = ((λ e. ne (sym e), p), pushed-IsApart f free xs a h)

one_less : (xs : List ℕ) (f : ℕ) (ys : List ℕ) → length (xs ++ f ∷ ys) ≡ length (xs ++ ys) + 1
one_less [] f ys = omega arith
one_less (x ∷ xs) f ys = omega (arith, one_less xs f ys)

-- putfid of a fid in use takes it out of use. The pool that it leaves is well-formed with the
-- others in use: each number from 1 to _lastfid is one of those or is free, and so the fid is
-- free, or it is above _lastfid; either way getFid can give it again.
pub putfid-IsPool :
    (f : ℕ) (xs ys : List ℕ) (p : FidPool)
    → IsPool (xs ++ f ∷ ys) p
    → IsPool (xs ++ ys) (putfid f p)
unfolding putfid
putfid-IsPool f xs ys p v =
    let others : IsApart f (xs ++ ys) = IsApart-others f xs ys v.used_apart in
    let not_free : IsApart f p.freefid = All-here (λ g. IsApart g p.freefid) xs f ys v.apart in
    let rest = AllApart-without f xs ys v.used_apart in
    let apart = All-without (λ g. IsApart g p.freefid) xs f ys v.apart in
    let below = All-without (IsFid p.lastfid) xs f ys v.used_below in
    let fewer = one_less xs f ys in
    elim (eq-cases f p.lastfid) [
      | inl last ↦
          let yes : (f == p.lastfid) ≡ true = (==_iff f p.lastfid).1 last in
          rw yes (record {
            used_apart = rest;
            free_apart = v.free_apart;
            apart = apart;
            used_below =
                below_without p.lastfid (xs ++ ys) below
                  (subst (λ k. IsApart k (xs ++ ys)) last others);
            free_below =
                below_without p.lastfid p.freefid v.free_below
                  (subst (λ k. IsApart k p.freefid) last not_free);
            counted = omega (arith, v.counted, fewer);
          })
      | inr inner ↦
          let no : (f == p.lastfid) ≡ false = ground arith in
          rw no (record {
            used_apart = rest;
            free_apart = (not_free, v.free_apart);
            apart = pushed-IsApart f p.freefid (xs ++ ys) others apart;
            used_below = below;
            free_below = (All-here (IsFid p.lastfid) xs f ys v.used_below, v.free_below);
            counted = omega (arith, v.counted, fewer);
          })
    ]
