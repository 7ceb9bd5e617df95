-- ===== src/Transport/Exchange.antt =====
-- A message that goes from one end of a connection to the other: Msg::pack, sendmsg, recvmsg and
-- Msg::unpack.
use libixp.Base.{
  ℕ, suc, ◌+◌, ◌^◌, ◌≤◌, ◌<◌, ◌≡◌, refl, ◌∙◌, ap, List, [], ◌∷◌, ◌++◌, Option, some, length, take,
  arith,
}
use libixp.Msg.{Mode, Msg, ok}
use libixp.Msg.Fields.{Str}
use libixp.Msg.Splice.{At, splice, At-splice, length-splice}
use libixp.Fcall.Storage.{VariantStorage, header_of}
use libixp.Fcall.Storage.Wire.{IsStorage, IsReadable, SuitsType, received, storage_bytes}
use libixp.Fcall.Storage.Call.{read_header}
use libixp.Fcall.Message.{pack_msg, unpack_msg}
use libixp.Fcall.Message.Packing.{message_size, message_bytes, pack-fits}
use libixp.Fcall.Message.RoundTrip.{blank_fcall, unpack-message}
use libixp.Transport.{sendmsg, recvmsg}
use libixp.Transport.Chunks.{read_stream}
use libixp.Transport.Sending.{write_sink, sendmsg-sends}
use libixp.Transport.Receiving.{recvmsg-receives}

At-behind : (x : ℕ) (xs : Str) (p : ℕ) (bs : Str) → At (x ∷ xs) (suc p) bs → At xs p bs
At-behind x xs p [] h = tt
At-behind x xs p (b ∷ bs) (h, hs) = (h, At-behind x xs (suc p) bs hs)

-- Bytes that stand at the front of a buffer.
take-At : (buf bs : Str) → At buf 0 bs → take (length bs) buf ≡ bs
take-At buf [] h = refl
take-At [] (b ∷ bs) (h, hs) = cc
take-At (x ∷ xs) (b ∷ bs) (h, hs) = cc (h, take-At xs bs (At-behind x xs 0 bs hs))

take_all : (n : ℕ) (buf bs : Str) → n ≡ length bs → At buf 0 bs → take n buf ≡ bs
take_all n buf bs e h = rw e (take-At buf bs h)

-- The message in the buffer of the reader.
abbrev pub taken : Msg → ℕ → Str → Msg
taken r n bs = record r { buffer = splice r.buffer 0 bs; pos = n; end = n; mode = Mode.unpack }

-- The four functions in a row.
pub exchange-received :
    (ks cs : List (Option ℕ)) (fuel : ℕ) (m r : Msg) (s : VariantStorage) (rest : Str)
    → m.size ≤ length m.buffer
    → r.size ≤ length r.buffer
    → IsStorage s
    → IsReadable s
    → SuitsType s
    → message_size m.uninit s ≤ m.size
    → message_size m.uninit s < r.size
    → message_size m.uninit s < 2 ^ 32
    → length ks + 2 ≤ fuel
    → length cs + 2 ≤ fuel
    → (packed : Msg) × (sent : Msg) × (out : Str) × (ks' cs' : List (Option ℕ)) × (got : Msg)
      × (pack_msg (record { storage = some s }) m ≡ ok (message_size m.uninit s, packed))
      × (sendmsg write_sink fuel packed (ks, [])
          ≡ some (ok (message_size m.uninit s, sent, (ks', out))))
      × (recvmsg read_stream fuel r (cs, out ++ rest)
          ≡ some (ok (message_size m.uninit s, got, (cs', rest))))
      × (unpack_msg blank_fcall got
          ≡ ok (
            (
              message_size m.uninit s,
              record { storage = some (received s (read_header r.uninit (header_of s))) },
            ),
            got,
          ))
exchange-received ks cs fuel m r s rest room room' v readable suits fit fit' small k c =
    let n = message_size m.uninit s in
    let bs = message_bytes m.uninit s in
    let (b, packs, at, same, _) = pack-fits m s room v fit in
    let front : take n b ≡ bs = take_all n b bs (omega arith) at in
    let packed : Msg = record m { buffer = b; pos = 0; end = n; mode = Mode.pack } in
    let (ks', sends) = sendmsg-sends ks fuel packed [] (omega (arith, same)) small k in
    let (cs', takes) =
      recvmsg-receives cs fuel n r (storage_bytes m.uninit s) rest refl fit' room' small c in
    (
      packed,
      record packed { pos = n },
      bs,
      ks',
      cs',
      taken r n bs,
      packs,
      sends ∙ ap (λ o. some (ok (n, record packed { pos = n }, (ks', o)))) front,
      takes,
      unpack-message m.uninit s (taken r n bs) v readable suits
          (omega (arith, length-splice r.buffer 0 bs)) (omega arith)
          (At-splice r.buffer 0 bs (omega arith)),
    )
