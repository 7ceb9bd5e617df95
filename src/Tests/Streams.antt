-- ===== src/Tests/Streams.antt =====
-- Three bytes that come in two pieces with a signal between, a connection that is lost,
-- and a message from one end of a connection to the other.
use libixp.Base.{true, ℕ, ◌≡◌, refl, List, [], ◌∷◌, Option, none, some, arith, ◌++◌, inr}
use libixp.Msg.{Mode, Msg, exception, ok, err}
use libixp.Msg.Fields.{Str}
use libixp.Transport.{Input, failed, readn, recvmsg}
use libixp.Transport.Chunks.{read_stream, readn-lost}
use libixp.Transport.Sending.{write_sink}
use libixp.Transport.Receiving.{recvmsg-refuses}
use libixp.Rpc.Wire.{transmit, muxrecv, muxrecv-transmit}
use libixp.Fcall.Storage.Wire.{received}
use libixp.Fcall.Storage.Call.{read_header}
use libixp.Tests.Codec.{version_hdr, hello, message_of, hello-IsStorage, hello-SuitsType}

abbrev empty : Msg
empty = record {
  buffer = 0 ∷ 0 ∷ 0 ∷ 0 ∷ [];
  size = 4;
  pos = 1;
  end = 4;
  mode = Mode.unpack;
  uninit = 0;
}

abbrev sent : Str
sent = 5 ∷ 6 ∷ 7 ∷ 8 ∷ []

abbrev lost : ℕ → ℕ → Input × ℕ
lost n s = (failed, s)

readn-lost_example : readn lost 50 3 empty 0 ≡ none
readn-lost_example =
    readn-lost lost 50 3 empty 0 (omega arith) (omega arith) (omega arith) (λ n s. refl)

-- A TVersion of 15 bytes, written and read in pieces, with two bytes of the next message behind it.
muxrecv-transmit_example :
    (m' r' : Msg) × (out : Str) × (ks' cs' : List (Option ℕ)) × (transmit write_sink 6 hello
        (record { wmsg = message_of 32; rmsg = message_of 32; net = (some 3 ∷ none ∷ [], []) })
      ≡ some (ok (true, record { wmsg = m'; rmsg = message_of 32; net = (ks', out) })))
    × (muxrecv read_stream 6 (record {
      wmsg = message_of 40;
      rmsg = message_of 40;
      net = (none ∷ some 6 ∷ [], out ++ 9 ∷ 0 ∷ []);
    })
        ≡ some (
            ok (
              some (record { storage = some (received hello (read_header 7 version_hdr)) }),
              record { wmsg = message_of 40; rmsg = r'; net = (cs', 9 ∷ 0 ∷ []) },
            )))
muxrecv-transmit_example =
    muxrecv-transmit (some 3 ∷ none ∷ []) (none ∷ some 6 ∷ []) 6 (message_of 32) (message_of 40)
      hello (9 ∷ 0 ∷ []) (omega arith) (omega arith) hello-IsStorage tt hello-SuitsType
      (omega arith) (omega arith) (omega arith) (omega arith) (omega arith)

-- A message that would fill the buffer.
recvmsg-refuses_example :
    recvmsg read_stream 4 (message_of 40) (some 1 ∷ [], 40 ∷ 0 ∷ 0 ∷ 0 ∷ []) ≡ some (err exception)
recvmsg-refuses_example =
    recvmsg-refuses (some 1 ∷ []) 4 40 (message_of 40) [] (omega arith) (inr (omega arith))
      (omega arith) (omega arith) (omega arith) (omega arith)
