-- ===== src/Msg/Packs.antt =====
-- What a function does in Mode::Pack, as one predicate with a rule for each way to combine: the
-- position moves on by the packed bytes, nothing at or past the end is touched, and if the bytes
-- end before _end they stand in the buffer.
use mathlib.Core.List.{append-nil}
use libixp.Base.{
  ℕ, ◌+◌, ◌%◌, ◌^◌, ◌≤◌, ◌<◌, ◌≡◌, refl, subst, ◌∙◌, inl, inr, Bool, true, false, List, [], ◌++◌,
  arith, leb, if◌then◌else◌, Bool-cases, length, length-append, get_elem?, leb→le, leb_false→lt,
}
use libixp.Msg.{
  Mode, Msg, ok, M, pure, ◌>>=◌, bind-ok, ◌>>◌, pack_requested, uninitialised, advance, fits,
}
use libixp.Msg.Steps.{
  fits-ok, fits-no, packing-ok, pack_requested_total, uninitialised-ok, advance-ok,
}
use libixp.Msg.Splice.{splice, length-splice, splice-append, get_elem?-splice_above}

-- The invariant of a message: its end lies within its buffer.
abbrev pub IsWithin : Msg → Type 0
IsWithin m = m.end ≤ length m.buffer

-- b is the buffer of m after the bytes were packed at its position.
pub record Written (m : Msg) (bs : List ℕ) (b : List ℕ) : Type 0 where
  pub same_length : length b ≡ length m.buffer
  pub same_beyond : (i : ℕ) → m.end ≤ i → get_elem? b i ≡ get_elem? m.buffer i
  pub spliced : m.pos + length bs ≤ m.end → b ≡ splice m.buffer m.pos bs

-- On a message in Mode::Pack with the given junk in its locals, op returns a and packs bs.
pub record Packs {A : Type 0} (junk : ℕ) (op : M A) (a : A) (bs : List ℕ) : Type 0 where
  pub run :
      (m : Msg)
      → IsWithin m
      → m.mode ≡ Mode.pack
      → m.uninit ≡ junk
      → (b : List ℕ) × (op m ≡ ok (a, record m { pos = m.pos + length bs; buffer = b }))
        × Written m bs b

pub Packs-pure : {A : Type 0} (junk : ℕ) (a : A) → Packs junk (pure a) a []
unfolding splice pure
Packs-pure junk a = record {
  run = λ m w p u.
      let e : m.pos + 0 ≡ m.pos = omega arith in
      (
        m.buffer,
        rw e refl,
        record { same_length = refl; same_beyond = λ i h. refl; spliced = λ h. refl },
      );
}

pub Packs-bind :
    {A B : Type 0} {junk : ℕ} (op : M A) (f : A → M B) {a : A} {b : B} {xs ys : List ℕ}
    → Packs junk op a xs
    → Packs junk (f a) b ys
    → Packs junk (op >>= f) b (xs ++ ys)
Packs-bind op f {xs} {ys} h k = record {
  run = λ m w p u.
      let (b1, e1, w1) = h.run m w p u in
      let m1 : Msg = record m { pos = m.pos + length xs; buffer = b1 } in
      let (b2, e2, w2) = k.run m1 (omega (arith, w1.same_length)) p u in
      let at : m.pos + length xs + length ys ≡ m.pos + length (xs ++ ys) =
        omega (arith, length-append {0} xs ys) in
      (
        b2,
        bind-ok op f m e1 ∙ e2 ∙ rw at refl,
        record {
          same_length = w2.same_length ∙ w1.same_length;
          same_beyond = λ i le. w2.same_beyond i le ∙ w1.same_beyond i le;
          spliced = λ le.
              w2.spliced (omega arith)
              ∙ rw (w1.spliced (omega arith))
                  (splice-append m.buffer m.pos (m.pos + length xs) xs ys refl);
        },
      );
}

-- A block that ends by `pure`.
pub Packs-map :
    {A B : Type 0} {junk : ℕ} (op : M A) (f : A → B) {a : A} {xs : List ℕ}
    → Packs junk op a xs
    → Packs junk (op >>= λ x. pure (f x)) (f a) xs
Packs-map op f {a} {xs} h =
    subst (Packs _ (op >>= λ x. pure (f x)) (f a)) (append-nil xs)
      (Packs-bind op (λ x. pure (f x)) h (Packs-pure _ (f a)))

pub Packs-if :
    {A : Type 0} {junk : ℕ} (b : Bool) {x y : M A} {a : A} {xs ys : List ℕ}
    → (b ≡ true → Packs junk x a xs)
    → (b ≡ false → Packs junk y a ys)
    → Packs junk (if b then x else y) a (if b then xs else ys)
Packs-if true h k = h refl
Packs-if false h k = k refl

pub Packs-requested : (junk : ℕ) → Packs junk pack_requested true []
unfolding splice
Packs-requested junk = record {
  run = λ m w p u.
      let e : m.pos + 0 ≡ m.pos = omega arith in
      (
        m.buffer,
        rw e (packing-ok m p),
        record { same_length = refl; same_beyond = λ i h. refl; spliced = λ h. refl },
      );
}

pub Packs-uninitialised : (junk : ℕ) → Packs junk uninitialised (junk % 2 ^ 16) []
unfolding splice
Packs-uninitialised junk = record {
  run = λ m w p u.
      let e : m.pos + 0 ≡ m.pos = omega arith in
      (
        m.buffer,
        uninitialised-ok m ∙ rw (e, u) refl,
        record { same_length = refl; same_beyond = λ i h. refl; spliced = λ h. refl },
      );
}

-- The shape that the packing functions share: test for room, act by the mode, and move on.
module _ {A : Type 0} (c u : M A) (a : A) (n : ℕ) where
  abbrev pub guarded : M A
  guarded = do
    room ← fits n
    packing ← pack_requested
    a' ← if room then (if packing then c else u) else pure a
    advance n
    pure a'

  -- Without room the position moves on and nothing else happens, in either mode.
  pub guarded_past :
      (m : Msg) → m.end < m.pos + n → guarded m ≡ ok (a, record m { pos = m.pos + n })
  unfolding pure
  guarded_past m h =
      bind-ok _ _ m (fits-no n m h)
      ∙ bind-ok _ _ m (pack_requested_total m).1
      ∙ bind-ok _ _ m refl
      ∙ bind-ok _ _ m (advance-ok n m)

  pub Packs-guarded :
      (junk : ℕ) (bs : List ℕ)
      → length bs ≡ n
      → ((m : Msg)
          → IsWithin m
          → m.pos + n ≤ m.end
          → c m ≡ ok (a, record m { buffer = splice m.buffer m.pos bs }))
      → Packs junk guarded a bs
  unfolding pure
  Packs-guarded junk bs e body = record {
    run = λ m w p _. elim (Bool-cases (leb (m.pos + n) m.end)) [
      | inl room ↦ (
        splice m.buffer m.pos bs,
        bind-ok _ _ m (fits-ok n m (leb→le _ _ room))
            ∙ bind-ok _ _ m (packing-ok m p)
            ∙ bind-ok _ _ m (body m w (leb→le _ _ room))
            ∙ bind-ok _ _ _ (advance-ok n _)
            ∙ rw e refl,
        record {
          same_length = length-splice m.buffer m.pos bs;
          same_beyond =
              λ i le. get_elem?-splice_above m.buffer m.pos i bs (omega (arith, leb→le _ _ room));
          spliced = λ h. refl;
        },
      )
      | inr full ↦ (
        m.buffer,
        guarded_past m (leb_false→lt _ _ full) ∙ rw e refl,
        record {
          same_length = refl;
          same_beyond = λ i le. refl;
          spliced = λ h. absurd (omega (arith, leb_false→lt _ _ full));
        },
      )
    ];
  }
