-- ===== src/Transport/Chunks.antt =====
-- readn over a stream that comes in pieces, and over a connection that is lost.
use libixp.Base.{
  ℕ, zero, suc, ◌+◌, ◌-◌, ◌%◌, ◌^◌, ◌≤◌, ◌<◌, ◌≡◌, refl, ◌∙◌, ap, false, List, [], ◌∷◌, ◌==◌,
  Option, none, some, length, take, drop, arith, lt→leb_false, lt→ltb, le→ltb_false, lt-cases, inl,
  inr, sym, subst, take-split, drop-add,
}
use libixp.Types.{min}
use libixp.Msg.{Msg, ok}
use libixp.Msg.Fields.{Str}
use libixp.Msg.Fields.Packing.{store_bytes-ok, length-take}
use libixp.Msg.Splice.{splice, splice-append, length-splice}
use libixp.Transport.{Input, got, interrupted, failed, readn}

eqb_false : (n : ℕ) → 0 < n → (n == 0) ≡ false
eqb_false n h = ground arith

module _ {N : Type 0} (read : ℕ → N → Input × N) where
  -- A round whose read gives bytes.
  pub readn-got :
      (fuel num : ℕ) (m : Msg) (s s' : N) (b : ℕ) (bs : Str)
      → 0 < num
      → m.pos < m.end
      → m.pos + length (b ∷ bs) ≤ length m.buffer
      → read (min (m.end - m.pos) num) s ≡ (got (b ∷ bs), s')
      → readn read (suc fuel) num m s
        ≡ readn read fuel
            (num - length (b ∷ bs))
            (record m { buffer = splice m.buffer m.pos (b ∷ bs); pos = m.pos + length (b ∷ bs) })
            s'
  unfolding readn
  readn-got fuel num m s s' b bs pos room fits e =
      rw (eqb_false num pos, readn)
        (rw (lt→leb_false _ _ room) (
          rw e (
            rw (store_bytes-ok 0 m.pos (b ∷ bs) m (omega arith) fits) (
              ap
                (λ r.
                  readn read fuel (num - length (b ∷ bs))
                    (record m {
                      buffer = splice m.buffer m.pos (b ∷ bs);
                      pos = m.pos + length (b ∷ bs);
                    })
                    r.1)
                e))))

  pub readn-interrupted :
      (fuel num : ℕ) (m : Msg) (s s' : N)
      → 0 < num
      → m.pos < m.end
      → read (min (m.end - m.pos) num) s ≡ (interrupted, s')
      → readn read (suc fuel) num m s ≡ readn read fuel num m s'
  unfolding readn
  readn-interrupted fuel num m s s' pos room e =
      rw (eqb_false num pos, readn)
        (rw (lt→leb_false _ _ room) (rw e (ap (λ r. readn read fuel num m r.1) e)))

  pub readn-failed :
      (fuel num : ℕ) (m : Msg) (s s' : N)
      → 0 < num
      → m.pos < m.end
      → read (min (m.end - m.pos) num) s ≡ (failed, s')
      → readn read (suc fuel) num m s ≡ readn read fuel ((num + 1) % 2 ^ 64) m s'
  unfolding readn
  readn-failed fuel num m s s' pos room e =
      rw (eqb_false num pos, readn)
        (rw (lt→leb_false _ _ room) (rw e (ap (λ r. readn read fuel ((num + 1) % 2 ^ 64) m r.1) e)))

  -- With bytes still to read and room for them, on a connection where every read fails with an
  -- errno that is not EINTR, readn does not come to an end: there is no result within any number
  -- of rounds for which the count, which grows by one in each, stays below 2 ^ 64.
  pub readn-lost :
      (fuel num : ℕ) (m : Msg) (s : N)
      → 0 < num
      → num + fuel < 2 ^ 64
      → m.pos < m.end
      → ((n : ℕ) (s' : N) → (read n s').0 ≡ failed)
      → readn read fuel num m s ≡ none
  unfolding readn
  readn-lost zero num m s pos bound room lost = refl
  readn-lost (suc fuel) num m s pos bound room lost =
      let answer = read (min (m.end - m.pos) num) s in
      let more : (num + 1) % 2 ^ 64 ≡ num + 1 = omega arith in
      readn-failed fuel num m s answer.1 pos room
        (λ i. (lost (min (m.end - m.pos) num) s i, answer.1))
      ∙ rw more (readn-lost fuel (num + 1) m answer.1 (omega arith) (omega arith) room lost)

-- What is to come on a stream: its bytes, and for each of the next reads the most that it gives
-- less one, or none where a signal interrupts it. After these a read gives all it can.
abbrev pub Stream : Type 0
Stream = List (Option ℕ) × Str

abbrev pub read_stream : ℕ → Stream → Input × Stream
read_stream n ([], bs) = (got (take n bs), ([], drop n bs))
read_stream n (none ∷ cs, bs) = (interrupted, (cs, bs))
read_stream n (some k ∷ cs, bs) = (got (take (min n (suc k)) bs), (cs, drop (min n (suc k)) bs))

-- The message after n of the bytes were read.
abbrev pub delivered : ℕ → Msg → Str → Msg
delivered n m bs = record m { buffer = splice m.buffer m.pos (take n bs); pos = m.pos + n }

min-right : (a b : ℕ) → b ≤ a → min a b ≡ b
min-right a b h = rw (le→ltb_false a b h) refl

min-within : (a b : ℕ) → 0 < a → (min a (suc b) ≤ a) × (0 < min a (suc b))
min-within a b h = elim (lt-cases a (suc b)) [
  | inl lt ↦ rw (lt→ltb _ _ lt) (omega arith, h)
  | inr le ↦ rw (le→ltb_false _ _ le) (le, omega arith)
]

pub length-drop : (n : ℕ) (xs : Str) → length (drop n xs) ≡ length xs - n
length-drop zero xs = omega arith
length-drop (suc n) [] = omega arith
length-drop (suc n) (x ∷ xs) = omega (arith, length-drop n xs)

delivered-add :
    (num j : ℕ) (m : Msg) (bs : Str)
    → j ≤ num
    → j ≤ length bs
    → delivered (num - j) (delivered j m bs) (drop j bs) ≡ delivered num m bs
delivered-add num j m bs le fits =
    let p : m.pos + j + (num - j) ≡ m.pos + num = omega arith in
    rw
      (
        splice-append m.buffer m.pos (m.pos + j) (take j bs) (take (num - j) (drop j bs))
            (ap (λ n. m.pos + n) (sym (length-take j bs fits))),
        take-split j num bs le,
        p,
      )
      refl

drop-rest : (num j : ℕ) (bs : Str) → j ≤ num → drop (num - j) (drop j bs) ≡ drop num bs
drop-rest num j bs le =
    let e : j + (num - j) ≡ num = omega arith in sym (drop-add j (num - j) bs) ∙ rw e refl

-- A round of readn over a stream that gives j bytes.
round :
    (fuel num j : ℕ) (m : Msg) (cs cs' : List (Option ℕ)) (bs : Str)
    → 0 < j
    → j ≤ num
    → num ≤ length bs
    → m.pos + num ≤ m.end
    → m.end ≤ length m.buffer
    → read_stream num (cs, bs) ≡ (got (take j bs), (cs', drop j bs))
    → readn read_stream (suc fuel) num m (cs, bs)
      ≡ readn read_stream fuel (num - j) (delivered j m bs) (cs', drop j bs)
round fuel num zero m cs cs' bs pos le enough room fits e = absurd (omega (arith, pos))
round fuel num (suc j) m cs cs' [] pos le enough room fits e = absurd (omega (arith, le, enough))
round fuel num (suc j) m cs cs' (b ∷ bs) pos le enough room fits e =
    let h : min (m.end - m.pos) num ≡ num = min-right (m.end - m.pos) num (omega arith) in
    let len : length (b ∷ take j bs) ≡ suc j = length-take (suc j) (b ∷ bs) (omega arith) in
    readn-got read_stream fuel num m (cs, b ∷ bs) (cs', drop j bs) b (take j bs) (omega arith)
      (omega arith) (omega (arith, len))
      (subst (λ n. read_stream n (cs, b ∷ bs) ≡ (got (b ∷ take j bs), (cs', drop j bs))) (sym h) e)
    ∙ rw len refl

-- readn with nothing left to read.
readn-done :
    (fuel : ℕ) (m : Msg) (s : Stream) → readn read_stream (suc fuel) 0 m s ≡ some (ok (m, s))
unfolding readn
readn-done fuel m s = refl

delivered-none : (m : Msg) (bs : Str) → delivered 0 m bs ≡ m
unfolding splice
delivered-none m bs = let e : m.pos + 0 ≡ m.pos = omega arith in rw e refl

-- From a stream that holds the bytes asked for, and into a buffer with room for them, readn reads
-- exactly these: they stand in the buffer from the position on, which is behind them then, and the
-- stream is left with the rest, however the reads cut it up and wherever signals interrupt them,
-- with no more cuts and signals to come than before.
-- A round for each of the reads that are cut or interrupted and two more are enough.
pub readn-delivers :
    (cs : List (Option ℕ)) (fuel num : ℕ) (m : Msg) (bs : Str)
    → num ≤ length bs
    → m.pos + num ≤ m.end
    → m.end ≤ length m.buffer
    → length cs + 2 ≤ fuel
    → (cs' : List (Option ℕ)) × (readn read_stream fuel num m (cs, bs)
        ≡ some (ok (delivered num m bs, (cs', drop num bs))))
      × (length cs' ≤ length cs)
readn-delivers cs zero num m bs enough room fits rounds = absurd (omega (arith, rounds))
readn-delivers cs (suc fuel) zero m bs enough room fits rounds =
    (cs, readn-done fuel m (cs, bs) ∙ rw (delivered-none m bs) refl, omega arith)
readn-delivers [] (suc zero) (suc n) m bs enough room fits rounds = absurd (omega (arith, rounds))
readn-delivers [] (suc (suc fuel)) (suc n) m bs enough room fits rounds = (
  [],
  round (suc fuel) (suc n) (suc n) m [] [] bs (omega arith) (omega arith) enough room fits refl
      ∙ (let e : suc n - suc n ≡ 0 = omega arith in
          subst
            (λ k.
              readn read_stream (suc fuel) k (delivered (suc n) m bs) ([], drop (suc n) bs)
              ≡ some (ok (delivered (suc n) m bs, ([], drop (suc n) bs))))
            (sym e) (readn-done fuel (delivered (suc n) m bs) ([], drop (suc n) bs))),
  omega arith,
)
readn-delivers (none ∷ cs) (suc fuel) (suc n) m bs enough room fits rounds =
    let (cs', e, le) = readn-delivers cs fuel (suc n) m bs enough room fits (omega arith) in
    (
      cs',
      readn-interrupted read_stream fuel (suc n) m (none ∷ cs, bs) (cs, bs) (omega arith)
            (omega arith) refl
          ∙ e,
      omega (arith, le),
    )
readn-delivers (some k ∷ cs) (suc fuel) (suc n) m bs enough room fits rounds =
    let j = min (suc n) (suc k) in
    let (le, pos) = min-within (suc n) k (omega arith) in
    let (cs', e, fewer) =
      readn-delivers cs fuel (suc n - j) (delivered j m bs) (drop j bs)
        (omega (arith, length-drop j bs, le, enough)) (omega (arith, le, room))
        (rw (length-splice m.buffer m.pos (take j bs)) fits) (omega arith) in
    (
      cs',
      round fuel (suc n) j m (some k ∷ cs) cs bs pos le enough room fits refl
          ∙ e
          ∙ rw
              (
                delivered-add (suc n) j m bs le (omega (arith, le, enough)),
                drop-rest (suc n) j bs le,
              )
              refl,
      omega (arith, fewer),
    )
