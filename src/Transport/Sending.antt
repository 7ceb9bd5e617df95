-- ===== src/Transport/Sending.antt =====
-- sendmsg over a stream that takes bytes in pieces.
use libixp.Base.{
  ℕ, zero, suc, ◌+◌, ◌-◌, ◌%◌, ◌^◌, ◌≤◌, ◌<◌, ◌≡◌, refl, ◌∙◌, ap, List, [], ◌∷◌, ◌++◌, Option, none,
  some, length, take, drop, arith, lt→leb_false, le→leb, le→ltb_false, take-split, drop-add,
  lt-cases, inl, inr, lt→ltb,
}
use mathlib.Core.List.{append_assoc, append-nil}
use libixp.Types.{min}
use libixp.Msg.{Msg, ok}
use libixp.Msg.Fields.{Str}
use libixp.Msg.Fields.Packing.{length-take}
use libixp.Transport.{Output, wrote, again, send_loop, sendmsg}
use libixp.Transport.Chunks.{length-drop}

-- The other end of a stream: what it has, and for each of the next writes the most that it takes
-- less one, or none where a signal interrupts it. After these a write takes all.
abbrev pub Sink : Type 0
Sink = List (Option ℕ) × Str

abbrev pub write_sink : Str → Sink → Output × Sink
write_sink bs ([], out) = (wrote (length bs - 1), ([], out ++ bs))
write_sink bs (none ∷ cs, out) = (again, (cs, out))
write_sink bs (some k ∷ cs, out) =
    let j = min (length bs - 1) k in (wrote j, (cs, out ++ take (suc j) bs))

-- What of a message is still to be sent.
abbrev pub unsent : Msg → Str
unsent m = take (m.end - m.pos) (drop m.pos m.buffer)

length-unsent : (m : Msg) → m.end ≤ length m.buffer → length (unsent m) ≡ m.end - m.pos
length-unsent m fits =
    length-take (m.end - m.pos) (drop m.pos m.buffer) (omega (arith, length-drop m.pos m.buffer))

-- A round that sends.
send-wrote :
    (fuel k : ℕ) (m : Msg) (s s' : Sink)
    → m.pos < m.end
    → m.end ≤ length m.buffer
    → write_sink (unsent m) s ≡ (wrote k, s')
    → send_loop write_sink (suc fuel) m s
      ≡ send_loop write_sink fuel (record m { pos = m.pos + suc k }) s'
unfolding send_loop
send-wrote fuel k m s s' more fits e =
    rw (lt→leb_false _ _ more, send_loop)
      (rw (le→ltb_false _ _ fits)
        (rw e (ap (λ r. send_loop write_sink fuel (record m { pos = m.pos + suc k }) r.1) e)))

send-again :
    (fuel : ℕ) (m : Msg) (cs : List (Option ℕ)) (out : Str)
    → m.pos < m.end
    → m.end ≤ length m.buffer
    → send_loop write_sink (suc fuel) m (none ∷ cs, out) ≡ send_loop write_sink fuel m (cs, out)
unfolding send_loop
send-again fuel m cs out more fits =
    rw (lt→leb_false _ _ more, send_loop) (rw (le→ltb_false _ _ fits) refl)

send-done :
    (fuel : ℕ) (m : Msg) (s : Sink)
    → m.end ≤ m.pos
    → send_loop write_sink (suc fuel) m s ≡ some (ok (m, s))
unfolding send_loop
send-done fuel m s h = rw (le→leb _ _ h, send_loop) refl

take-take : (j k : ℕ) (xs : Str) → j ≤ k → take j (take k xs) ≡ take j xs
take-take zero k xs h = refl
take-take (suc j) zero xs h = absurd (omega (arith, h))
take-take (suc j) (suc k) [] h = refl
take-take (suc j) (suc k) (x ∷ xs) h = ap (◌∷◌ x) (take-take j k xs (omega arith))

-- What is sent in a round and what is sent after it.
unsent-split :
    (m : Msg) (j : ℕ)
    → m.pos + j ≤ m.end
    → take j (unsent m) ++ unsent (record m { pos = m.pos + j }) ≡ unsent m
unsent-split m j h =
    let e : m.end - (m.pos + j) ≡ m.end - m.pos - j = omega arith in
    rw
      (
        take-take j (m.end - m.pos) (drop m.pos m.buffer) (omega arith),
        e,
        drop-add m.pos j m.buffer,
      )
      (take-split j (m.end - m.pos) (drop m.pos m.buffer) (omega arith))

-- After j bytes were sent, what is sent of the rest follows them.
after :
    (m : Msg) (j : ℕ) (out : Str)
    → m.pos + j ≤ m.end
    → (out ++ take j (unsent m)) ++ unsent (record m { pos = m.pos + j }) ≡ out ++ unsent m
after m j out h =
    append_assoc out (take j (unsent m)) (unsent (record m { pos = m.pos + j }))
    ∙ ap (◌++◌ out) (unsent-split m j h)

min-below : (a b : ℕ) → min a b ≤ a
min-below a b = elim (lt-cases a b) [
  | inl lt ↦ rw (lt→ltb _ _ lt) (omega arith)
  | inr le ↦ rw (le→ltb_false _ _ le) (omega arith)
]

nothing-left :
    (fuel : ℕ) (m : Msg) (cs : List (Option ℕ)) (out : Str)
    → m.pos ≤ m.end
    → m.end ≤ m.pos
    → send_loop write_sink (suc fuel) m (cs, out)
      ≡ some (ok (record m { pos = m.end }, (cs, out ++ unsent m)))
nothing-left fuel m cs out le done =
    let at : m.end ≡ m.pos = omega arith in
    let e : m.end - m.pos ≡ 0 = omega arith in
    send-done fuel m (cs, out) done ∙ rw (e, at, append-nil out) refl

-- From a position before the end, the loop of sendmsg sends what stands in between, in order,
-- however the writes cut it up.
pub send_loop-sends :
    (cs : List (Option ℕ)) (fuel : ℕ) (m : Msg) (out : Str)
    → m.pos ≤ m.end
    → m.end ≤ length m.buffer
    → length cs + 2 ≤ fuel
    → (cs' : List (Option ℕ)) × (send_loop write_sink fuel m (cs, out)
        ≡ some (ok (record m { pos = m.end }, (cs', out ++ unsent m))))
send_loop-sends cs zero m out le fits rounds = absurd (omega (arith, rounds))
send_loop-sends [] (suc zero) m out le fits rounds = absurd (omega (arith, rounds))
send_loop-sends [] (suc (suc fuel)) m out le fits rounds = elim (lt-cases m.pos m.end) [
  | inr done ↦ ([], nothing-left (suc fuel) m [] out le done)
  | inl more ↦
      let k = length (unsent m) - 1 in
      let e : m.pos + suc k ≡ m.end = omega (arith, length-unsent m fits) in
      (
        [],
        send-wrote (suc fuel) k m ([], out) ([], out ++ unsent m) more fits refl
            ∙ rw e (send-done fuel (record m { pos = m.end }) ([], out ++ unsent m) (omega arith)),
      )
]
send_loop-sends (none ∷ cs) (suc fuel) m out le fits rounds = elim (lt-cases m.pos m.end) [
  | inr done ↦ (none ∷ cs, nothing-left fuel m (none ∷ cs) out le done)
  | inl more ↦
      let (cs', e) = send_loop-sends cs fuel m out le fits (omega arith) in
      (cs', send-again fuel m cs out more fits ∙ e)
]
send_loop-sends (some k ∷ cs) (suc fuel) m out le fits rounds = elim (lt-cases m.pos m.end) [
  | inr done ↦ (some k ∷ cs, nothing-left fuel m (some k ∷ cs) out le done)
  | inl more ↦
      let j = min (length (unsent m) - 1) k in
      let within : m.pos + suc j ≤ m.end =
        omega (arith, length-unsent m fits, min-below (length (unsent m) - 1) k, more) in
      let sent = out ++ take (suc j) (unsent m) in
      let (cs', e) =
        send_loop-sends cs fuel (record m { pos = m.pos + suc j }) sent within fits (omega arith) in
      (
        cs',
        send-wrote fuel j m (some k ∷ cs, out) (cs, sent) more fits refl
            ∙ e
            ∙ rw (after m (suc j) out within) refl,
      )
]

-- sendmsg sends the bytes of the message up to its end, wherever the position was, and returns
-- their number.
pub sendmsg-sends :
    (cs : List (Option ℕ)) (fuel : ℕ) (m : Msg) (out : Str)
    → m.end ≤ length m.buffer
    → m.end < 2 ^ 32
    → length cs + 2 ≤ fuel
    → (cs' : List (Option ℕ)) × (sendmsg write_sink fuel m (cs, out)
        ≡ some (ok (m.end, record m { pos = m.end }, (cs', out ++ take m.end m.buffer))))
unfolding sendmsg
sendmsg-sends cs fuel m out fits small rounds =
    let (cs', e) = send_loop-sends cs fuel (record m { pos = 0 }) out (omega arith) fits rounds in
    let size : m.end % 2 ^ 32 ≡ m.end = omega arith in
    let whole : m.end - 0 ≡ m.end = omega arith in (cs', rw (e, sendmsg, size, whole) refl)
