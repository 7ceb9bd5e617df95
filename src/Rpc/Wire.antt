-- ===== src/Rpc/Wire.antt =====
-- rpc.cc: the messages of a Client on its connection, as sendrpc sends them and muxrecv takes them.
-- The calls of the system are parameters.
use libixp.Base.{
  ℕ, ◌+◌, ◌^◌, ◌≤◌, ◌<◌, ◌≡◌, refl, Bool, true, false, not, List, [], ◌++◌, ◌==◌, Option, none,
  some, length, arith, if◌then◌else◌,
}
use libixp.Msg.{Msg, Result, ok, err}
use libixp.Msg.Fields.{Str}
use libixp.Fcall.Storage.{Fcall, VariantStorage, header_of}
use libixp.Fcall.Storage.Wire.{IsStorage, IsReadable, SuitsType, received}
use libixp.Fcall.Storage.Call.{read_header}
use libixp.Fcall.Message.{pack_msg, unpack_msg}
use libixp.Fcall.Message.Packing.{message_size}
use libixp.Fcall.Message.RoundTrip.{blank_fcall}
use libixp.Transport.{Input, Output, sendmsg, recvmsg}
use libixp.Transport.Chunks.{read_stream}
use libixp.Transport.Sending.{write_sink}
use libixp.Transport.Exchange.{exchange-received}

-- _wmsg, _rmsg and the connection.
pub record Wire (N : Type 0) : Type 0 where
  pub wmsg : Msg
  pub rmsg : Msg
  pub net : N

-- `getWmsg().pack(f) && getConnection().sendmsg(_wmsg)` of sendrpc.
unfoldable pub transmit :
    {N : Type 0}
    → (Str → N → Output × N)
    → ℕ
    → VariantStorage
    → Wire N
    → Option (Result (Bool × Wire N))
transmit write fuel s w = elim (pack_msg (record { storage = some s }) w.wmsg) [
  | err e ↦ some (err e)
  | ok (size, m) ↦ elim (size == 0) [
    | true ↦ some (ok (false, record w { wmsg = m }))
    | false ↦ elim (sendmsg write fuel m w.net) [
      | none ↦ none
      | some (err e) ↦ some (err e)
      | some (ok (sent, m', n)) ↦ some (ok (not (sent == 0), record w { wmsg = m'; net = n }))
    ]
  ]
]

-- muxrecv.
unfoldable pub muxrecv :
    {N : Type 0} → (ℕ → N → Input × N) → ℕ → Wire N → Option (Result (Option Fcall × Wire N))
muxrecv read fuel w = elim (recvmsg read fuel w.rmsg w.net) [
  | none ↦ none
  | some (err e) ↦ some (err e)
  | some (ok (size, m, n)) ↦ elim (size == 0) [
    | true ↦ some (ok (none, record w { rmsg = m; net = n }))
    | false ↦ elim (unpack_msg blank_fcall m) [
      | err e ↦ some (err e)
      | ok ((size', f), m') ↦
          some (ok (if size' == 0 then none else some f, record w { rmsg = m'; net = n }))
    ]
  ]
]

-- What one end sends, the other end receives, unless it is a TWalk with names, which the loop of
-- pstrings does not read back: any other message, in the structure of its type, that fits in the
-- writer's buffer and is smaller than that of the reader is sent whole, is taken off the stream
-- without any of the bytes that follow it, and is unpacked into the structure that was packed, its
-- fields that are not sent being those of a blank one. The writes and the reads may be cut up in
-- any way and interrupted by signals.
pub muxrecv-transmit :
    (ks cs : List (Option ℕ)) (fuel : ℕ) (m r : Msg) (s : VariantStorage) (rest : Str)
    → m.size ≤ length m.buffer
    → r.size ≤ length r.buffer
    → IsStorage s
    → IsReadable s
    → SuitsType s
    → message_size m.uninit s ≤ m.size
    → message_size m.uninit s < r.size
    → message_size m.uninit s < 2 ^ 32
    → length ks + 2 ≤ fuel
    → length cs + 2 ≤ fuel
    → (m' r' : Msg) × (out : Str) × (ks' cs' : List (Option ℕ)) × (transmit write_sink fuel s
          (record { wmsg = m; rmsg = m; net = (ks, []) })
        ≡ some (ok (true, record { wmsg = m'; rmsg = m; net = (ks', out) })))
      × (muxrecv read_stream fuel (record { wmsg = r; rmsg = r; net = (cs, out ++ rest) })
          ≡ some (
              ok (
                some (record { storage = some (received s (read_header r.uninit (header_of s))) }),
                record { wmsg = r; rmsg = r'; net = (cs', rest) },
              )))
unfolding transmit muxrecv
muxrecv-transmit ks cs fuel m r s rest room room' v readable suits fit fit' small k c =
    let (packed, sent, out, ks', cs', got, packs, sends, takes, unpacks) =
      exchange-received ks cs fuel m r s rest room room' v readable suits fit fit' small k c in
    let some_bytes : (message_size m.uninit s == 0) ≡ false = ground arith in
    (
      sent,
      got,
      out,
      ks',
      cs',
      rw (transmit, packs, some_bytes, sends, some_bytes) refl,
      rw (muxrecv, takes, some_bytes, unpacks, some_bytes) refl,
    )
