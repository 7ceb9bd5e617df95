-- ===== src/Transport/Receiving.antt =====
-- recvmsg over a stream that comes in pieces.
use libixp.Base.{
  ℕ, ◌+◌, ◌-◌, ◌%◌, ◌^◌, ◌≤◌, ◌<◌, ◌≡◌, refl, ◌∙◌, ap, List, [], ◌∷◌, ◌++◌, Option, some, length,
  take, drop, arith, lt→leb_false, le→leb, length-append, ◌⊎◌, inl, inr,
}
use libixp.Msg.{Mode, Msg, exception, ok, err, s_dword}
use libixp.Msg.Fields.{Str}
use libixp.Msg.Splice.{splice, splice-append, length-splice, At-splice}
use libixp.Msg.Uints.{bytes}
use libixp.Msg.Reading.{Unpacks-pu32}
use libixp.Transport.{readn, receive_rest, recvmsg}
use libixp.Transport.Chunks.{read_stream, delivered, readn-delivers}

take-append : (xs ys : Str) → take (length xs) (xs ++ ys) ≡ xs
take-append [] ys = refl
take-append (x ∷ xs) ys = ap (◌∷◌ x) (take-append xs ys)

drop-append : (xs ys : Str) → drop (length xs) (xs ++ ys) ≡ ys
drop-append [] ys = refl
drop-append (x ∷ xs) ys = drop-append xs ys

-- The message once its size was read.
abbrev pub sized : Msg → ℕ → Msg
sized m n = record m {
  buffer = splice m.buffer 0 (bytes s_dword n);
  pos = 4;
  end = m.size;
  mode = Mode.unpack;
}

-- The first part of recvmsg.
pub recvmsg-sized :
    (cs : List (Option ℕ)) (fuel n : ℕ) (m : Msg) (rest : Str)
    → n < 2 ^ 32
    → 4 ≤ m.size
    → m.size ≤ length m.buffer
    → length cs + 2 ≤ fuel
    → (cs' : List (Option ℕ)) × (recvmsg read_stream fuel m (cs, bytes s_dword n ++ rest)
        ≡ receive_rest read_stream fuel n (sized m n) (cs', rest))
      × (length cs' ≤ length cs)
unfolding recvmsg
recvmsg-sized cs fuel n m rest small room fits rounds =
    let m0 : Msg = record m { mode = Mode.unpack; pos = 0; end = m.size } in
    let (cs', e, fewer) =
      readn-delivers cs fuel 4 m0 (bytes s_dword n ++ rest) (omega arith) room fits rounds in
    let start : Msg = record (delivered 4 m0 (bytes s_dword n ++ rest)) { pos = 0 } in
    let unpacked =
      (Unpacks-pu32 m.uninit 0 n small).run start
        (omega (arith, length-splice m.buffer 0 (bytes s_dword n))) refl refl room
        (At-splice m.buffer 0 (bytes s_dword n) (omega arith)) in
    (cs', rw (e, recvmsg, unpacked) refl, fewer)

-- The second part, from what readn does.
receive_rest-takes :
    (cs cs' : List (Option ℕ)) (fuel n : ℕ) (m : Msg) (body rest : Str)
    → n ≡ 4 + length body
    → n < m.size
    → n < 2 ^ 32
    → readn read_stream fuel (length body) (sized m n) (cs, body ++ rest)
      ≡ some (
          ok (
            delivered (length body) (sized m n) (body ++ rest),
            (cs', drop (length body) (body ++ rest)),
          ))
    → receive_rest read_stream fuel n (sized m n) (cs, body ++ rest)
      ≡ some (
          ok (
            n,
            record m {
              buffer = splice m.buffer 0 (bytes s_dword n ++ body);
              pos = n;
              end = n;
              mode = Mode.unpack;
            },
            (cs', rest),
          ))
receive_rest-takes cs cs' fuel n m body rest size room small e =
    let left : (n + 2 ^ 32 - 4) % 2 ^ 32 ≡ length body = omega arith in
    rw left (
      rw (lt→leb_false (m.size - 4) (length body) (omega arith)) (
        rw
          (
            e,
            take-append body rest,
            drop-append body rest,
            splice-append m.buffer 0 4 (bytes s_dword n) body refl,
            ← size,
          )
          refl))

-- From a stream that begins with a message, its size in front and less than that of the buffer,
-- recvmsg takes the message and no more, however the reads cut it up: it returns the size, the
-- bytes stand at the front of the buffer, and _end and _pos are behind them.
pub recvmsg-receives :
    (cs : List (Option ℕ)) (fuel n : ℕ) (m : Msg) (body rest : Str)
    → n ≡ 4 + length body
    → n < m.size
    → m.size ≤ length m.buffer
    → n < 2 ^ 32
    → length cs + 2 ≤ fuel
    → (cs' : List (Option ℕ)) × (recvmsg read_stream fuel m (cs, bytes s_dword n ++ body ++ rest)
        ≡ some (
            ok (
              n,
              record m {
                buffer = splice m.buffer 0 (bytes s_dword n ++ body);
                pos = n;
                end = n;
                mode = Mode.unpack;
              },
              (cs', rest),
            )))
recvmsg-receives cs fuel n m body rest size room fits small rounds =
    let (cs1, e1, fewer) =
      recvmsg-sized cs fuel n m (body ++ rest) small (omega arith) fits rounds in
    let (cs2, e2, _) =
      readn-delivers cs1 fuel (length body) (sized m n) (body ++ rest)
        (omega (arith, length-append body rest)) (omega arith)
        (omega (arith, length-splice m.buffer 0 (bytes s_dword n))) (omega arith) in
    (cs2, e1 ∙ receive_rest-takes cs1 cs2 fuel n m body rest size room small e2)

-- A size from which the message would fill the buffer is refused, and so is one below 4, since the
-- size of the rest wraps around: recvmsg throws once it has read the size.
pub recvmsg-refuses :
    (cs : List (Option ℕ)) (fuel n : ℕ) (m : Msg) (rest : Str)
    → n < 2 ^ 32
    → n < 4 ⊎ m.size ≤ n
    → 4 ≤ m.size
    → m.size < 2 ^ 31
    → m.size ≤ length m.buffer
    → length cs + 2 ≤ fuel
    → recvmsg read_stream fuel m (cs, bytes s_dword n ++ rest) ≡ some (err exception)
recvmsg-refuses cs fuel n m rest small wrong room bound fits rounds =
    let (cs', e, _) = recvmsg-sized cs fuel n m rest small room fits rounds in
    let large : m.size - 4 ≤ (n + 2 ^ 32 - 4) % 2 ^ 32 = elim wrong [
      | inl below ↦ omega (arith, below)
      | inr above ↦ omega (arith, above)
    ] in
    e ∙ rw (le→leb (m.size - 4) ((n + 2 ^ 32 - 4) % 2 ^ 32) large) refl
