-- ===== src/Fcall/Message/RoundTrip.antt =====
-- Msg::unpack on what Msg::pack wrote, and on messages of types that have no structure.
use libixp.Base.{ℕ, ◌≤◌, ◌≡◌, refl, ◌∙◌, none, some, List, arith, length, le→ltb_false}
use libixp.Msg.{Mode, Msg, terminated, ok, err, pure, bind-ok, bind-err, s_dword}
use libixp.Msg.Splice.{At, At-append_right}
use libixp.Msg.Uints.{bytes}
use libixp.Fcall.{FHdr}
use libixp.Fcall.Headers.{IsHdr, hdr_bytes}
use libixp.Fcall.Storage.{Fcall, VariantStorage, header_of, blank_of, get_pos, set_pos}
use libixp.Fcall.Storage.Wire.{IsStorage, IsReadable, SuitsType, received, storage_bytes}
use libixp.Fcall.Storage.Call.{Unpacks-fcall, read_header, fcall-unknown}
use libixp.Fcall.Message.{pack_msg, unpack_msg, set_mode, get_end, pfcall-ok, pfcall-terminated}
use libixp.Fcall.Message.Packing.{message_size, message_bytes, pack-fits}

abbrev pub blank_fcall : Fcall
blank_fcall = record { storage = none }

-- A message in the buffer, with its size in front and _end behind it, that is not a TWalk with
-- names, is unpacked into the structure for its type: unpack returns its size and leaves the position behind it.
pub unpack-message :
    (sent : ℕ) (s : VariantStorage) (m : Msg)
    → IsStorage s
    → IsReadable s
    → SuitsType s
    → m.end ≤ length m.buffer
    → message_size sent s ≤ m.end
    → At m.buffer 0 (message_bytes sent s)
    → unpack_msg blank_fcall m
      ≡ ok (
        (
          message_size sent s,
          record { storage = some (received s (read_header m.uninit (header_of s))) },
        ),
        record m { pos = message_size sent s; mode = Mode.unpack },
      )
unfolding unpack_msg set_mode set_pos get_pos get_end pure
unpack-message sent s m v r suits w fit at =
    bind-ok (set_pos 4) _ m refl
    ∙ bind-ok (set_mode Mode.unpack) _ _ refl
    ∙ bind-ok _ _ _ (
        pfcall-ok _ _ _ _ (
          (Unpacks-fcall sent m.uninit s v r suits).run _ w refl refl fit (
            At-append_right m.buffer 0 4 (bytes s_dword (message_size sent s))
              (storage_bytes sent s) refl at)))
    ∙ bind-ok get_pos _ _ refl
    ∙ bind-ok get_end _ _ refl
    ∙ rw (le→ltb_false _ _ fit) refl

-- What pack wrote of a structure that fits and suits its type, other than a TWalk with names,
-- unpack reads, in a message of any reader whose _end is where the writer left it: the same size,
-- and the message as `received` describes it, the fields that are not sent being those of a blank
-- structure. A TWalk of no names is included; one that has names is not, as the loop of pstrings
-- does not read it back.
pub unpack-pack :
    (m r : Msg) (s : VariantStorage)
    → m.size ≤ length m.buffer
    → IsStorage s
    → IsReadable s
    → SuitsType s
    → message_size m.uninit s ≤ m.size
    → (b : List ℕ) × (pack_msg (record { storage = some s }) m
        ≡ ok (
          message_size m.uninit s,
          record m { buffer = b; pos = 0; end = message_size m.uninit s; mode = Mode.pack },
        ))
      × (unpack_msg blank_fcall (record r { buffer = b; end = message_size m.uninit s })
          ≡ ok (
            (
              message_size m.uninit s,
              record { storage = some (received s (read_header r.uninit (header_of s))) },
            ),
            record r {
              buffer = b;
              end = message_size m.uninit s;
              pos = message_size m.uninit s;
              mode = Mode.unpack;
            },
          ))
unpack-pack m r s w v rd suits fit =
    let n = message_size m.uninit s in
    let (b, e, at, same, _rest) = pack-fits m s w v fit in
    (
      b,
      e,
      unpack-message m.uninit s (record r { buffer = b; end = n }) v rd suits (omega (arith, same))
          (omega arith) at,
    )

-- unpack ends the program, by an exception that leaves a noexcept function, on a message that is long enough for its header if constructBlankStorage has no
-- structure for its type.
pub unpack-unknown :
    (h : FHdr) (m : Msg)
    → IsHdr h
    → ((h' : FHdr) → blank_of h.type h' ≡ none)
    → m.end ≤ length m.buffer
    → 7 ≤ m.end
    → At m.buffer 4 (hdr_bytes h)
    → unpack_msg blank_fcall m ≡ err terminated
unfolding unpack_msg set_mode set_pos
unpack-unknown h m v unknown w fit at =
    bind-ok (set_pos 4) _ m refl
    ∙ bind-ok (set_mode Mode.unpack) _ _ refl
    ∙ bind-err _ _ _ (pfcall-terminated _ _ (fcall-unknown h _ v unknown w refl fit at))
