-- ===== src/Msg/Steps.antt =====
-- The single steps of the pack and unpack functions, as equations to chain with `bind-ok`.
use libixp.Base.{ℕ, ◌+◌, ◌%◌, ◌^◌, ◌≤◌, ◌<◌, ◌≡◌, refl, Bool, true, false, le→leb, lt→leb_false}
use libixp.Msg.{Mode, Msg, ok, pack_requested, uninitialised, advance, fits}

pub fits-ok : (n : ℕ) (m : Msg) → m.pos + n ≤ m.end → fits n m ≡ ok (true, m)
unfolding fits
fits-ok n m h = rw (le→leb _ _ h)

pub fits-no : (n : ℕ) (m : Msg) → m.end < m.pos + n → fits n m ≡ ok (false, m)
unfolding fits
fits-no n m h = rw (lt→leb_false _ _ h)

pub packing-ok : (m : Msg) → m.mode ≡ Mode.pack → pack_requested m ≡ ok (true, m)
unfolding pack_requested
packing-ok m p = simp p

pub packing-no : (m : Msg) → m.mode ≡ Mode.unpack → pack_requested m ≡ ok (false, m)
unfolding pack_requested
packing-no m p = simp p

pub pack_requested_total : (m : Msg) → (b : Bool) × (pack_requested m ≡ ok (b, m))
unfolding pack_requested
pack_requested_total m = (_, refl)

pub uninitialised-ok : (m : Msg) → uninitialised m ≡ ok (m.uninit % 2 ^ 16, m)
unfolding uninitialised
uninitialised-ok m = refl

pub advance-ok : (n : ℕ) (m : Msg) → advance n m ≡ ok (tt, record m { pos = m.pos + n })
unfolding advance
advance-ok n m = refl
