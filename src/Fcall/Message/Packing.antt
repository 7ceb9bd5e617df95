-- ===== src/Fcall/Message/Packing.antt =====
-- Msg::pack: the size and the bytes of the message, or 0 exactly if they do not fit.
use libixp.Base.{
  ℕ, ◌+◌, ◌≤◌, ◌<◌, ◌≡◌, refl, ◌∙◌, some, List, ◌++◌, arith, length, get_elem?, ltb, if◌then◌else◌,
  le→ltb_false, lt→ltb,
}
use libixp.Msg.{Mode, Msg, ok, pure, bind-ok, s_dword}
use libixp.Msg.Packs.{Written}
use libixp.Msg.Splice.{
  splice, At, At-splice, At-append, At-transport, get_elem?-splice_above, length-splice,
}
use libixp.Msg.Uints.{bytes, Packs-pu32}
use libixp.Fcall.Storage.{VariantStorage, get_pos, set_pos}
use libixp.Fcall.Storage.Call.{Packs-fcall}
use libixp.Fcall.Storage.Wire.{IsStorage, storage_bytes}
use libixp.Fcall.Message.{
  pack_msg, finish_pack, end_at_size, end_at_pos, get_end, set_mode, pfcall-ok,
}

-- The bytes of a packed message: the size of the whole, and the structure's bytes.
abbrev pub message_size : ℕ → VariantStorage → ℕ
message_size junk s = 4 + length (storage_bytes junk s)

abbrev pub message_bytes : ℕ → VariantStorage → List ℕ
message_bytes junk s = bytes s_dword (message_size junk s) ++ storage_bytes junk s

-- The state in which the structure is packed.
abbrev opened : Msg → Msg
opened m = record m { end = m.size; pos = 4; mode = Mode.pack }

-- Up to the test of the position.
pack_opened :
    (m : Msg) (s : VariantStorage)
    → m.size ≤ length m.buffer
    → IsStorage s
    → (b : List ℕ) × (pack_msg (record { storage = some s }) m
        ≡ (if ltb m.size (message_size m.uninit s) then pure 0 else finish_pack)
            (record (opened m) { pos = message_size m.uninit s; buffer = b }))
      × Written (opened m) (storage_bytes m.uninit s) b
unfolding pack_msg end_at_size set_mode set_pos get_pos get_end
pack_opened m s w v =
    let (b, e, written) = (Packs-fcall m.uninit s v).run (opened m) w refl refl in
    (
      b,
      bind-ok end_at_size _ m refl
          ∙ bind-ok (set_pos 4) _ _ refl
          ∙ bind-ok (set_mode Mode.pack) _ _ refl
          ∙ bind-ok _ _ (opened m) (pfcall-ok _ _ _ _ e)
          ∙ bind-ok get_pos _ _ refl
          ∙ bind-ok get_end _ _ refl,
      written,
    )

-- A message that does not fit in the size of the buffer is refused: pack returns 0, and no byte
-- past that size is written.
pub pack-too_long :
    (m : Msg) (s : VariantStorage)
    → m.size ≤ length m.buffer
    → IsStorage s
    → m.size < message_size m.uninit s
    → (b : List ℕ) × (pack_msg (record { storage = some s }) m
        ≡ ok (
          0,
          record m { buffer = b; pos = message_size m.uninit s; end = m.size; mode = Mode.pack },
        ))
      × (length b ≡ length m.buffer)
      × ((i : ℕ) → m.size ≤ i → get_elem? b i ≡ get_elem? m.buffer i)
unfolding pure
pack-too_long m s w v long =
    let (b, e, written) = pack_opened m s w v in
    (b, e ∙ rw (lt→ltb _ _ long) refl, written.same_length, written.same_beyond)

finish-ok :
    (m : Msg)
    → 4 ≤ m.pos
    → m.pos ≤ length m.buffer
    → m.mode ≡ Mode.pack
    → finish_pack m
      ≡ ok (
        m.pos,
        record m { pos = 0; end = m.pos; buffer = splice m.buffer 0 (bytes s_dword m.pos) },
      )
unfolding finish_pack pure set_pos end_at_pos get_end
finish-ok m big w p =
    let (b, e, written) =
      (Packs-pu32 m.uninit m.pos).run (record m { pos = 0; end = m.pos }) w p refl in
    bind-ok end_at_pos _ m refl
    ∙ bind-ok get_end _ _ refl
    ∙ bind-ok (set_pos 0) _ _ refl
    ∙ bind-ok _ _ (record m { pos = 0; end = m.pos }) e
    ∙ bind-ok (set_pos 0) _ _ refl
    ∙ rw (written.spliced big) refl

-- A message that fits is packed: pack returns its size, the buffer begins with the size and the
-- bytes of the message, and what stands behind the size of the buffer is as before.
pub pack-fits :
    (m : Msg) (s : VariantStorage)
    → m.size ≤ length m.buffer
    → IsStorage s
    → message_size m.uninit s ≤ m.size
    → (b : List ℕ) × (pack_msg (record { storage = some s }) m
        ≡ ok (
          message_size m.uninit s,
          record m { buffer = b; pos = 0; end = message_size m.uninit s; mode = Mode.pack },
        ))
      × At b 0 (message_bytes m.uninit s)
      × (length b ≡ length m.buffer)
      × ((i : ℕ) → m.size ≤ i → get_elem? b i ≡ get_elem? m.buffer i)
pack-fits m s w v short =
    let n = message_size m.uninit s in
    let (b, e, written) = pack_opened m s w v in
    let sized = splice b 0 (bytes s_dword n) in
    let there : At b 4 (storage_bytes m.uninit s) =
      rw (written.spliced short) (At-splice m.buffer 4 (storage_bytes m.uninit s) (omega arith)) in
    (
      sized,
      e
          ∙ rw (le→ltb_false _ _ short)
              (finish-ok _ (omega arith) (omega (arith, written.same_length)) refl),
      At-append sized 0 4 (bytes s_dword n) (storage_bytes m.uninit s) refl
          (At-splice b 0 (bytes s_dword n) (omega (arith, written.same_length)))
          (At-transport b sized 4 (storage_bytes m.uninit s)
            (λ i le. get_elem?-splice_above b 0 i (bytes s_dword n) (omega arith)) there),
      length-splice b 0 (bytes s_dword n) ∙ written.same_length,
      λ i le.
          get_elem?-splice_above b 0 i (bytes s_dword n) (omega arith) ∙ written.same_beyond i le,
    )
