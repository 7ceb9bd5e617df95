-- ===== src/Fcall/Message.antt =====
-- Msg::pack and Msg::unpack of message.cc.
pub mod Packing
pub mod RoundTrip
pub mod Safety
use libixp.Base.{ℕ, ◌+◌, ◌≡◌, refl, ltb, if◌then◌else◌}
use libixp.Msg.{
  Mode, Msg, Error, bad_access, exception, terminated, Result, ok, err, M, pure, ◌>>=◌, ◌>>◌, pu32,
}
use libixp.Fcall.Storage.{Fcall, get_pos, set_pos, pack_unpack_fcall}

pub set_mode : Mode → M (Unit {0})
set_mode mode m = ok (tt, record m { mode = mode })

-- _end = _data + size().
pub end_at_size : M (Unit {0})
end_at_size m = ok (tt, record m { end = m.size })

-- _end = _pos.
pub end_at_pos : M (Unit {0})
end_at_pos m = ok (tt, record m { end = m.pos })

pub get_end : M ℕ
get_end m = ok (m.end, m)

-- A call that is noexcept.
abbrev pub no_except : {A : Type 0} → Result A → Result A
no_except (ok a) = ok a
no_except (err bad_access) = err bad_access
no_except (err exception) = err terminated
no_except (err terminated) = err terminated

-- pfcall: it goes through Msg::packUnpack, which is noexcept.
pub pfcall : Fcall → M Fcall
pfcall f m = no_except (pack_unpack_fcall f m)

pub pfcall-ok :
    (f f' : Fcall) (m m' : Msg) → pack_unpack_fcall f m ≡ ok (f', m') → pfcall f m ≡ ok (f', m')
unfolding pfcall
pfcall-ok f f' m m' e = rw e refl

pub pfcall-terminated :
    (f : Fcall) (m : Msg) → pack_unpack_fcall f m ≡ err exception → pfcall f m ≡ err terminated
unfolding pfcall
pfcall-terminated f m e = rw e refl

-- The result is that of the call, with the Fcall as the call leaves it.
pub unpack_msg : Fcall → M (ℕ × Fcall)
unpack_msg f = do
  set_pos 4
  set_mode Mode.unpack
  f' ← pfcall f
  pos ← get_pos
  end ← get_end
  pure (if ltb end pos then 0 else pos, f')

-- The size goes in front once the message is packed.
pub finish_pack : M ℕ
finish_pack = do end_at_pos; size ← get_end; set_pos 0; _written ← pu32 size; set_pos 0; pure size

pub pack_msg : Fcall → M ℕ
unfolding finish_pack
pack_msg f = do
  end_at_size
  set_pos 4
  set_mode Mode.pack
  _same ← pfcall f
  pos ← get_pos
  end ← get_end
  if ltb end pos then pure 0 else finish_pack
