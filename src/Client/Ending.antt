-- ===== src/Client/Ending.antt =====
-- The loop of _pread comes to an end.
use libixp.Base.{
  ℕ, zero, suc, ◌+◌, ◌-◌, ◌≤◌, ◌<◌, ◌≡◌, refl, inl, inr, [], ◌++◌, Option, some, arith, length,
  length-append, take, lt-cases, lt→ltb, le→ltb_false,
}
use libixp.Types.{min}
use libixp.Msg.{Result}
use libixp.Msg.Fields.{Str}
use libixp.Client.{ReadReply, Copied, read_reply, pread_loop, pread}
use libixp.Client.Reading.{answer-cases}
use libixp.Msg.Fields.Packing.{length-take}

module _ {S : Type 0} where
  abbrev Ends : Option (Copied × S) → Type 0
  Ends o = (r : Copied × S) × (o ≡ some r)

  -- Only a full reply goes on to the next round.
  read_reply-Ends :
      (n : ℕ) (buf buf' : Str) (rread : ReadReply) (s : S) (rest : Option (Copied × S))
      → (n ≡ rread.size → n ≤ length rread.contents → Ends rest)
      → Ends (read_reply n buf buf' rread s rest)
  read_reply-Ends n buf buf' rread s rest next = elim (lt-cases n rread.size) [
    | inl more ↦ rw (lt→ltb _ _ more) (_, refl)
    | inr le ↦ elim (lt-cases (length rread.contents) rread.size) [
      | inl cut ↦ rw (le→ltb_false _ _ le, lt→ltb _ _ cut) (_, refl)
      | inr whole ↦ elim (lt-cases rread.size n) [
        | inl short ↦ rw (le→ltb_false _ _ le, le→ltb_false _ _ whole, lt→ltb _ _ short) (_, refl)
        | inr full ↦
            rw (le→ltb_false _ _ le, le→ltb_false _ _ whole, le→ltb_false _ _ full)
              (next (omega (arith, le, full)) (omega (arith, whole, full)))
      ]
    ]
  ]

  module _ (read_at : ℕ → ℕ → S → Result (Option ReadReply) × S) where
    pread_loop-Ends :
        (fuel iounit count offset : ℕ) (buf : Str) (s : S)
        → 0 < iounit
        → count - length buf < fuel
        → Ends (pread_loop read_at fuel iounit count offset buf s)
    unfolding pread_loop
    pread_loop-Ends zero iounit count offset buf s unit enough = absurd (omega (arith, enough))
    pread_loop-Ends (suc fuel) iounit count offset buf s unit enough =
        let n = min (count - length buf) iounit in
        let answer = read_at offset n s in
        elim (lt-cases (length buf) count) [
          | inr full ↦ rw (le→ltb_false _ _ full) (_, refl)
          | inl room ↦ elim (answer-cases answer.0) [
            | inl (e, broken) ↦ rw (lt→ltb _ _ room, broken) (_, refl)
            | inr (inl lost) ↦ rw (lt→ltb _ _ room, lost) (_, refl)
            | inr (inr (rread, came)) ↦
                let some_left : 0 < n = ground arith in
                let buf' : Str = buf ++ take rread.size rread.contents in
                rw (lt→ltb _ _ room, came)
                  (read_reply-Ends n buf buf' rread answer.1
                    (pread_loop read_at fuel iounit count (offset + rread.size) buf' answer.1)
                    (λ full whole.
                      pread_loop-Ends fuel iounit count (offset + rread.size) buf' answer.1 unit (
                        omega (
                          arith,
                          length-append {0} buf (take rread.size rread.contents),
                          length-take rread.size rread.contents (omega (arith, full, whole)),
                          full,
                          some_left,
                          enough,
                          room,
                        ))))
          ]
        ]

    -- _pread returns, whatever the server answers, if the iounit of the file is not 0: a round that
    -- is not the last brings at least one byte, and so there are count + 1 rounds at most.
    pub pread-ends :
        (fuel iounit count offset : ℕ) (s : S)
        → 0 < iounit
        → count < fuel
        → (r : Copied × S) × (pread read_at fuel iounit count offset s ≡ some r)
    unfolding pread
    pread-ends fuel iounit count offset s unit enough =
        pread_loop-Ends fuel iounit count offset [] s unit (omega (arith, enough))
