-- ===== src/Fcall/Storage/Call.antt =====
-- Fcall::packUnpack in both modes, from the structures' laws.
use libixp.Base.{
  ℕ, ◌+◌, ◌≤◌, ◌≡◌, refl, ◌∙◌, List, [], ◌++◌, none, some, arith, length, length-append,
}
use libixp.Msg.{Mode, Msg, exception, ok, err, pure, throw, bind-ok, bind-err}
use libixp.Msg.Steps.{packing-no}
use libixp.Msg.Packs.{Packs, Packs-bind, Packs-map, Packs-pure, Packs-requested, IsWithin}
use libixp.Msg.Unpacks.{Unpacks, Unpacks-map}
use libixp.Msg.Splice.{At, At-append_left}
use libixp.Fcall.{FHdr}
use libixp.Fcall.Headers.{IsHdr, hdr_bytes, merge_hdr, Unpacks-hdr}
use libixp.Fcall.Storage.{
  VariantStorage, f_version, f_tflush, f_ropen, f_error, f_rauth, f_attach, f_tcreate, f_twalk,
  f_rwalk, f_twstat, f_rstat, f_io, f_hdr, f_full_header, header_of, storage_for, pack_unpack_fcall,
  blank_for_message, construct_blank_storage, blank_of, tmp_header, get_pos, set_pos, indeterminate,
  or_throw,
}
use libixp.Fcall.Storage.Wire.{
  IsStorage, IsReadable, SuitsType, blank_like, received, storage_bytes, Packs-visit, Unpacks-visit,
}

pub Packs-fcall :
    (junk : ℕ) (s : VariantStorage)
    → IsStorage s
    → Packs junk
        (pack_unpack_fcall (record { storage = some s }))
        (record { storage = some s })
        (storage_bytes junk s)
unfolding pack_unpack_fcall storage_for
Packs-fcall junk s v = Packs-bind _ _ (Packs-requested junk) (
    Packs-bind _ _ (Packs-pure junk s)
      (Packs-map _ (λ s'. record { storage = some s' }) (Packs-visit junk s v)))

-- Every message begins with its header.
header_first :
    (junk : ℕ) (s : VariantStorage)
    → (rest : List ℕ) × (storage_bytes junk s ≡ hdr_bytes (header_of s) ++ rest)
header_first junk (f_version f) = (_, refl)
header_first junk (f_tflush f) = (_, refl)
header_first junk (f_ropen f) = (_, refl)
header_first junk (f_error f) = (_, refl)
header_first junk (f_rauth f) = (_, refl)
header_first junk (f_attach f) = (_, refl)
header_first junk (f_tcreate f) = (_, refl)
header_first junk (f_twalk f) = (_, refl)
header_first junk (f_rwalk f) = (_, refl)
header_first junk (f_twstat f) = (_, refl)
header_first junk (f_rstat f) = (_, refl)
header_first junk (f_io f) = (_, refl)
header_first junk (f_hdr h) = ([], refl)
header_first junk (f_full_header h) = (_, refl)

pub header-IsHdr : (s : VariantStorage) → IsStorage s → IsHdr (header_of s)
header-IsHdr (f_version f) v = v.hdr_valid
header-IsHdr (f_tflush f) v = v.hdr_valid
header-IsHdr (f_ropen f) v = v.hdr_valid
header-IsHdr (f_error f) v = v.hdr_valid
header-IsHdr (f_rauth f) v = v.hdr_valid
header-IsHdr (f_attach f) v = v.hdr_valid
header-IsHdr (f_tcreate f) v = v.hdr_valid
header-IsHdr (f_twalk f) v = v.hdr_valid
header-IsHdr (f_rwalk f) v = v.hdr_valid
header-IsHdr (f_twstat f) v = v.hdr_valid
header-IsHdr (f_rstat f) v = v.hdr_valid
header-IsHdr (f_io f) v = v.hdr_valid
header-IsHdr (f_hdr h) v = v
header-IsHdr (f_full_header h) v = v

-- The header under which the reader makes its blank structure.
abbrev pub read_header : (junk : ℕ) → FHdr → FHdr
read_header junk h = merge_hdr h (indeterminate junk)

-- After the header is read the switch decides.
pub blank_step :
    (h : FHdr) (m : Msg)
    → IsHdr h
    → IsWithin m
    → m.mode ≡ Mode.unpack
    → m.pos + 3 ≤ m.end
    → At m.buffer m.pos (hdr_bytes h)
    → blank_for_message m ≡ or_throw (blank_of h.type (read_header m.uninit h)) m
unfolding blank_for_message construct_blank_storage get_pos tmp_header set_pos
blank_step h m v w p fit at =
    bind-ok get_pos _ m refl
    ∙ bind-ok tmp_header _ m refl
    ∙ bind-ok _ _ m ((Unpacks-hdr m.uninit h (indeterminate m.uninit) v).run m w p refl fit at)
    ∙ bind-ok (set_pos m.pos) _ _ refl

blank-ok :
    (sent : ℕ) (s : VariantStorage) (m : Msg)
    → IsStorage s
    → SuitsType s
    → IsWithin m
    → m.mode ≡ Mode.unpack
    → m.pos + length (storage_bytes sent s) ≤ m.end
    → At m.buffer m.pos (storage_bytes sent s)
    → blank_for_message m ≡ ok (blank_like s (read_header m.uninit (header_of s)), m)
unfolding pure
blank-ok sent s m v suits w p fit at =
    let (rest, e) = header_first sent s in
    let n : length (storage_bytes sent s) ≡ 3 + length rest =
      rw e (omega (arith, length-append {0} (hdr_bytes (header_of s)) rest)) in
    blank_step (header_of s) m (header-IsHdr s v) w p (omega (arith, n))
      (At-append_left m.buffer m.pos (hdr_bytes (header_of s)) rest (rw e at at))
    ∙ rw (suits (read_header m.uninit (header_of s))) refl

pub Unpacks-fcall :
    (sent junk : ℕ) (s : VariantStorage)
    → IsStorage s
    → IsReadable s
    → SuitsType s
    → Unpacks junk
        (pack_unpack_fcall (record { storage = none }))
        (record { storage = some (received s (read_header junk (header_of s))) })
        (storage_bytes sent s)
unfolding pack_unpack_fcall storage_for
Unpacks-fcall sent junk s v r suits = record {
  run = λ m w p u fit at.
      bind-ok _ _ m (packing-no m p)
      ∙ bind-ok _ _ m (blank-ok sent s m v suits w p fit at ∙ rw u refl)
      ∙ (Unpacks-map _ (λ s'. record { storage = some s' })
            (Unpacks-visit sent junk s (read_header junk (header_of s)) v r)).run
          m w p u fit at;
}

-- A message whose type has no structure makes packUnpack throw.
pub fcall-unknown :
    (h : FHdr) (m : Msg)
    → IsHdr h
    → ((h' : FHdr) → blank_of h.type h' ≡ none)
    → IsWithin m
    → m.mode ≡ Mode.unpack
    → m.pos + 3 ≤ m.end
    → At m.buffer m.pos (hdr_bytes h)
    → pack_unpack_fcall (record { storage = none }) m ≡ err exception
unfolding pack_unpack_fcall storage_for throw
fcall-unknown h m v unknown w p fit at =
    bind-ok _ _ m (packing-no m p)
    ∙ bind-err _ _ m (blank_step h m v w p fit at ∙ rw (unknown (read_header m.uninit h)) refl)
