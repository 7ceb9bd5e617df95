-- ===== src/Client/Reading.antt =====
-- _pread against any server, and against one that serves a file.
use mathlib.Core.List.{append-nil, append_assoc}
use libixp.Base.{
  drop, drop-add, take-split, take-ended, take-length, ℕ, zero, suc, ◌+◌, ◌-◌, ◌≤◌, ◌<◌, ◌≡◌, refl,
  ap, ◌∙◌, inl, inr, [], ◌++◌, Option, none, some, ◌⊎◌, arith, length, length-append, take,
  length-take-le, lt-cases, lt→ltb, le→ltb_false,
}
use libixp.Types.{min}
use libixp.Msg.{Error, Result, ok, err}
use libixp.Msg.Fields.{Str}
use libixp.Client.{ReadReply, Copied, read_reply, pread_loop, pread}

all_length : (xs : Str) → length (take (length xs) xs) ≡ length xs
all_length xs = rw (take-length xs) refl

-- What was copied, and what the rest of the loop copies.
joined :
    (file buf : Str) (offset count n len : ℕ) (sent : Str)
    → len ≡ n
    → sent ≡ take n (drop offset file)
    → n ≤ count - length buf
    → length (buf ++ sent) ≡ length buf + length sent
    → length sent ≡ len
    → (buf ++ sent) ++ take (count - length (buf ++ sent)) (drop (offset + len) file)
      ≡ buf ++ take (count - length buf) (drop offset file)
joined file buf offset count n len sent exact all le total sent_len =
    let left : count - length (buf ++ sent) ≡ count - length buf - n =
      omega (arith, total, sent_len, exact) in
    rw (left, exact, drop-add offset n file, all)
      (append_assoc buf (take n (drop offset file)) _
        ∙ ap (◌++◌ buf) (take-split n (count - length buf) (drop offset file) le))

pub answer-cases :
    (r : Result (Option ReadReply))
    → ((e : Error) × (r ≡ err e)) ⊎ ((r ≡ ok none) ⊎ ((a : ReadReply) × (r ≡ ok (some a))))
answer-cases (err e) = inl (e, refl)
answer-cases (ok none) = inr (inl refl)
answer-cases (ok (some a)) = inr (inr (a, refl))

-- Some bytes were copied, and their number is returned.
abbrev pub all_read : Str → Copied
all_read buf = record { buf = buf; result = ok (some (length buf)) }

module _ {S : Type 0} where
  -- At most count bytes were copied to buf.
  abbrev pub WithinCount : ℕ → Option (Copied × S) → Type 0
  WithinCount count none = Unit {0}
  WithinCount count (some (c, s)) = length c.buf ≤ count

  read_reply-WithinCount :
      (count n : ℕ) (buf buf' : Str) (rread : ReadReply) (s : S) (rest : Option (Copied × S))
      → length buf ≤ count
      → (rread.size ≤ n → length buf' ≤ count)
      → (rread.size ≤ n → WithinCount count rest)
      → WithinCount count (read_reply n buf buf' rread s rest)
  read_reply-WithinCount count n buf buf' rread s rest b h k = elim (lt-cases n rread.size) [
    | inl more ↦ rw (lt→ltb _ _ more) b
    | inr le ↦ elim (lt-cases (length rread.contents) rread.size) [
      | inl cut ↦ rw (le→ltb_false _ _ le, lt→ltb _ _ cut) (h le)
      | inr whole ↦ elim (lt-cases rread.size n) [
        | inl short ↦ rw (le→ltb_false _ _ le, le→ltb_false _ _ whole, lt→ltb _ _ short) (h le)
        | inr full ↦ rw (le→ltb_false _ _ le, le→ltb_false _ _ whole, le→ltb_false _ _ full) (k le)
      ]
    ]
  ]

  module _ (read_at : ℕ → ℕ → S → Result (Option ReadReply) × S) where
    pread_loop-WithinCount :
        (fuel iounit count offset : ℕ) (buf : Str) (s : S)
        → length buf ≤ count
        → WithinCount count (pread_loop read_at fuel iounit count offset buf s)
    unfolding pread_loop
    pread_loop-WithinCount zero iounit count offset buf s h = tt
    pread_loop-WithinCount (suc fuel) iounit count offset buf s h =
        elim (lt-cases (length buf) count) [
          | inr full ↦ rw (le→ltb_false _ _ full) h
          | inl room ↦
              let n = min (count - length buf) iounit in
              let answer = read_at offset n s in
              elim (answer-cases answer.0) [
                | inl (e, broken) ↦ rw (lt→ltb _ _ room, broken) h
                | inr (inl lost) ↦ rw (lt→ltb _ _ room, lost) h
                | inr (inr (rread, came)) ↦
                    let buf' : Str = buf ++ take rread.size rread.contents in
                    let le : n ≤ count - length buf = ground arith in
                    let len = length-append {0} buf (take rread.size rread.contents) in
                    let took = length-take-le rread.size rread.contents in
                    let short : rread.size ≤ n → length buf' ≤ count =
                      λ few. omega (arith, few, le, len, took, room) in
                    rw (lt→ltb _ _ room, came)
                      (read_reply-WithinCount count n buf buf' rread answer.1
                        (pread_loop read_at fuel iounit count (offset + rread.size) buf' answer.1) h
                        short
                        (λ few.
                          pread_loop-WithinCount fuel iounit count (offset + rread.size) buf'
                            answer.1 (short few)))
              ]
        ]

    -- Whatever the server answers and however _pread ends, with -1 and with an exception too, no
    -- more than count bytes are copied to buf.
    pub pread-WithinCount :
        (fuel iounit count offset : ℕ) (s : S)
        → WithinCount count (pread read_at fuel iounit count offset s)
    unfolding pread
    pread-WithinCount fuel iounit count offset s =
        pread_loop-WithinCount fuel iounit count offset [] s (omega arith)

  -- A server that reads from a file and has no state that matters.
  abbrev pub serve_file : Str → ℕ → ℕ → S → Result (Option ReadReply) × S
  serve_file file offset n s =
      let data' = take n (drop offset file) in
      (ok (some (record { size = length data'; contents = data' })), s)

  pread_loop-file :
      (file : Str) (fuel iounit count offset : ℕ) (buf : Str) (s : S)
      → 0 < iounit
      → length buf ≤ count
      → count - length buf < fuel
      → pread_loop (serve_file file) fuel iounit count offset buf s
        ≡ some (all_read (buf ++ take (count - length buf) (drop offset file)), s)
  unfolding pread_loop
  pread_loop-file file zero iounit count offset buf s unit h enough = absurd (omega (arith, enough))
  pread_loop-file file (suc fuel) iounit count offset buf s unit h enough =
      elim (lt-cases (length buf) count) [
        | inr full ↦
            let none_left : count - length buf ≡ 0 = omega (arith, full) in
            rw (le→ltb_false _ _ full, none_left, append-nil buf) refl
        | inl room ↦
            let left = count - length buf in
            let n = min left iounit in
            let some_left : 0 < n = ground arith in
            let le : n ≤ left = ground arith in
            let rest = drop offset file in
            let data' = take n rest in
            let few : length data' ≤ n = length-take-le n rest in
            let all : take (length data') data' ≡ data' = take-length data' in
            let sent : Str = take (length data') data' in
            let buf' : Str = buf ++ sent in
            let len = length-append {0} buf sent in
            elim (lt-cases (length data') n) [
              | inl short ↦
                  rw
                    (
                      lt→ltb _ _ room,
                      le→ltb_false n (length data') few,
                      le→ltb_false (length data') (length data') (omega arith),
                      lt→ltb _ _ short,
                    )
                    (ap (λ d. some (all_read (buf ++ d), s))
                      (all ∙ take-ended n left rest le short))
              | inr full ↦
                  let exact : length data' ≡ n = omega (arith, few, full) in
                  let next =
                    pread_loop-file file fuel iounit count (offset + length data') buf' s unit
                      (omega (arith, len, all_length data', few, le, room))
                      (omega (arith, len, all_length data', exact, some_left, enough, room)) in
                  rw
                    (
                      lt→ltb _ _ room,
                      le→ltb_false n (length data') few,
                      le→ltb_false (length data') (length data') (omega arith),
                      le→ltb_false _ _ full,
                    )
                    (next
                      ∙ ap (λ d. some (all_read d, s))
                          (joined file buf offset count n (length data') sent exact all le len
                            (all_length data')))
            ]
      ]

  -- From a server that serves a file, _pread copies what the file has from the offset on, count
  -- bytes of it at most, and returns their number, in as many rounds as the iounit makes necessary. The loop ends, within
  -- count + 1 rounds, if the iounit is not 0.
  pub pread-file :
      (file : Str) (fuel iounit count offset : ℕ) (s : S)
      → 0 < iounit
      → count < fuel
      → pread (serve_file file) fuel iounit count offset s
        ≡ some (all_read (take count (drop offset file)), s)
  unfolding pread
  pread-file file fuel iounit count offset s unit enough =
      let e : count - 0 ≡ count = omega arith in
      rw e at (pread_loop-file file fuel iounit count offset [] s unit (omega arith) (omega arith))
