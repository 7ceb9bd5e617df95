-- ===== src/Msg/Codec.antt =====
-- What the messages' parts promise each other: a packUnpack function together with the bytes that it
-- packs, the values that fit on the wire, and what unpacking makes of the old value of the object.
use libixp.Base.{ℕ, List}
use libixp.Msg.{M}
use libixp.Msg.Packs.{Packs}
use libixp.Msg.Unpacks.{Unpacks}

pub record Codec {A : Type 0} (body : A → M A) : Type 1 where
  -- `junk` is what uninitialised locals hold while packing.
  pub wire : (junk : ℕ) → A → List ℕ
  pub IsValid : A → Type 0
  -- `merge a old`: the fields of a that are on the wire, and the others of old.
  pub merge : A → A → A
  pub packs : (junk : ℕ) (a : A) → IsValid a → Packs junk (body a) a (wire junk a)
  pub unpacks :
      (junk junk' : ℕ) (a old : A)
      → IsValid a
      → Unpacks junk' (body old) (merge a old) (wire junk a)
