-- ===== src/Transport.antt =====
-- transport.cc: messages over a stream of bytes. The read call of the system is a parameter, with
-- the state of the network.
pub mod Chunks
pub mod Sending
pub mod Receiving
pub mod Exchange
use libixp.Base.{
  ℕ, zero, suc, ◌+◌, ◌-◌, ◌%◌, ◌^◌, List, [], ◌∷◌, ◌==◌, leb, ltb, true, false, if◌then◌else◌,
  Option, none, some, length, take, drop,
}
use libixp.Types.{min}
use libixp.Msg.{Mode, Msg, Error, bad_access, exception, Result, ok, err, pu32}
use libixp.Msg.Fields.{Str, store_bytes}

-- The result of a read: bytes, none of them at the end of the stream, or -1 with errno EINTR or
-- with another errno.
pub data Input : Type 0 where
  got : Str → Input
  interrupted failed : Input

module _ {N : Type 0} (read : ℕ → N → Input × N) where
  -- readn, with mread in its loop. After a read that failed the source subtracts -1 from num.
  pub readn : ℕ → ℕ → Msg → N → Option (Result (Msg × N))
  readn zero num m s = none
  readn (suc fuel) num m s = elim (num == 0) [
    | true ↦ some (ok (m, s))
    | false ↦ elim (leb m.end m.pos) [
      | true ↦ some (err exception)
      | false ↦
          let answer = read (min (m.end - m.pos) num) s in
          elim answer.0 [
            | interrupted ↦ readn fuel num m answer.1
            | failed ↦ readn fuel ((num + 1) % 2 ^ 64) m answer.1
            | got [] ↦ some (err exception)
            | got (b ∷ bs) ↦ elim (store_bytes 0 (b ∷ bs) m) [
              | err x ↦ some (err x)
              | ok (done, m') ↦
                  readn fuel (num - length (b ∷ bs)) (record m' { pos = m'.pos + length (b ∷ bs) })
                    answer.1
            ]
          ]
    ]
  ]

  -- recvmsg after the size was read: what readn reads, up to the end of the message.
  abbrev pub receive_rest : ℕ → ℕ → Msg → N → Option (Result (ℕ × Msg × N))
  receive_rest fuel msize m s =
      let size = (msize + 2 ^ 32 - 4) % 2 ^ 32 in
      if leb (m.end - m.pos) size then some (err exception) else (elim (readn fuel size m s) [
        | none ↦ none
        | some (err x) ↦ some (err x)
        | some (ok (m', s')) ↦ some (ok (msize, record m' { end = m'.pos }, s'))
      ])

  -- recvmsg. readn returns the count it was given, or throws.
  unfoldable pub recvmsg : ℕ → Msg → N → Option (Result (ℕ × Msg × N))
  unfolding readn
  recvmsg fuel m s =
      elim (readn fuel 4 (record m { mode = Mode.unpack; pos = 0; end = m.size }) s) [
        | none ↦ none
        | some (err x) ↦ some (err x)
        | some (ok (m', s')) ↦ elim (pu32 0 (record m' { pos = 0 })) [
          | err x ↦ some (err x)
          | ok (msize, m'') ↦ receive_rest fuel msize m'' s'
        ]
      ]

-- The result of a write: the number of bytes less one, or a number below 1, with errno EINTR or
-- with another errno.
pub data Output : Type 0 where
  wrote : ℕ → Output
  again broken : Output

module _ {N : Type 0} (write : Str → N → Output × N) where
  -- The loop of sendmsg.
  pub send_loop : ℕ → Msg → N → Option (Result (Msg × N))
  send_loop zero m s = none
  send_loop (suc fuel) m s = elim (leb m.end m.pos) [
    | true ↦ some (ok (m, s))
    | false ↦ elim (ltb (length m.buffer) m.end) [
      | true ↦ some (err bad_access)
      | false ↦
          let answer = write (take (m.end - m.pos) (drop m.pos m.buffer)) s in
          elim answer.0 [
            | again ↦ send_loop fuel m answer.1
            | broken ↦ some (err exception)
            | wrote k ↦ send_loop fuel (record m { pos = m.pos + suc k }) answer.1
          ]
    ]
  ]

  unfoldable pub sendmsg : ℕ → Msg → N → Option (Result (ℕ × Msg × N))
  unfolding send_loop
  sendmsg fuel m s = elim (send_loop fuel (record m { pos = 0 }) s) [
    | none ↦ none
    | some (err x) ↦ some (err x)
    | some (ok (m', s')) ↦ some (ok (m'.pos % 2 ^ 32, m', s'))
  ]
