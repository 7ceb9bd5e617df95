-- ===== src/Msg/Reads.antt =====
-- What a function does in Mode::Unpack on any bytes: it returns, it stays within the buffer, and of
-- the message it changes the position only.
use libixp.Base.{
  ℕ, ◌+◌, ◌%◌, ◌^◌, ◌≤◌, ◌<◌, ◌≡◌, refl, ◌∙◌, inl, inr, Bool, true, false, Bool-cases, arith,
  length, get_elem?-lt, leb, if◌then◌else◌, leb→le, leb_false→lt,
}
use libixp.Msg.{
  Mode, Msg, ok, M, pure, ◌>>=◌, bind-ok, pack_requested, uninitialised, load, NumberSize, s_byte,
  s_word, s_dword, width, unpack_uint, puint, pu8, pu16, pu32, pu64,
}
use libixp.Msg.Packs.{IsWithin, guarded, guarded_past}
use libixp.Msg.Reading.{load-ok}
use libixp.Msg.Steps.{fits-ok, packing-no, uninitialised-ok, advance-ok}

pub record Reads {A : Type 0} (op : M A) : Type 0 where
  pub run :
      (m : Msg)
      → IsWithin m
      → m.mode ≡ Mode.unpack
      → (a : A) × (q : ℕ) × (op m ≡ ok (a, record m { pos = q }))

pub Reads-pure : {A : Type 0} (a : A) → Reads (pure a)
unfolding pure
Reads-pure a = record { run = λ m w p. (a, m.pos, refl) }

pub Reads-bind :
    {A B : Type 0} (op : M A) (f : A → M B) → Reads op → ((a : A) → Reads (f a)) → Reads (op >>= f)
Reads-bind op f h k = record {
  run = λ m w p.
      let (a, q, e) = h.run m w p in
      let (b, r, e') = (k a).run (record m { pos = q }) w p in (b, r, bind-ok op f m e ∙ e');
}

pub Reads-if : {A : Type 0} (b : Bool) {x y : M A} → Reads x → Reads y → Reads (if b then x else y)
Reads-if true h k = h
Reads-if false h k = k

pub Reads-requested : {A : Type 0} (f : Bool → M A) → Reads (f false) → Reads (pack_requested >>= f)
Reads-requested f h = record {
  run = λ m w p. let (a, q, e) = h.run m w p in (a, q, bind-ok _ _ m (packing-no m p) ∙ e);
}

pub Reads-uninitialised : Reads uninitialised
Reads-uninitialised = record { run = λ m w p. (m.uninit % 2 ^ 16, m.pos, uninitialised-ok m) }

-- With room for n bytes, what u reads is within the buffer.
pub Reads-guarded :
    {A : Type 0} (c u : M A) (old : A) (n : ℕ)
    → ((m : Msg) → m.pos + n ≤ length m.buffer → (a : A) × (u m ≡ ok (a, m)))
    → Reads (guarded c u old n)
unfolding pure
Reads-guarded c u old n body = record {
  run = λ m w p. elim (Bool-cases (leb (m.pos + n) m.end)) [
    | inl room ↦
        let (a, e) = body m (omega (arith, leb→le _ _ room)) in
        (
          a,
          m.pos + n,
          bind-ok _ _ m (fits-ok n m (leb→le _ _ room))
              ∙ bind-ok _ _ m (packing-no m p)
              ∙ bind-ok _ _ m e
              ∙ bind-ok _ _ m (advance-ok n m),
        )
    | inr full ↦ (old, m.pos + n, guarded_past c u old n m (leb_false→lt _ _ full))
  ];
}

pub load-some : (k : ℕ) (m : Msg) → m.pos + k < length m.buffer → (b : ℕ) × (load k m ≡ ok (b, m))
load-some k m h = let (b, e) = get_elem?-lt m.buffer (m.pos + k) h in (b, load-ok k _ b m refl e)

unpack_uint-some :
    (s : NumberSize) (m : Msg)
    → m.pos + width s ≤ length m.buffer
    → (v : ℕ) × (unpack_uint s m ≡ ok (v, m))
unfolding unpack_uint pure
unpack_uint-some s_byte m h = load-some 0 m (omega (arith, h))
unpack_uint-some s_word m h =
    let (b1, e1) = load-some 1 m (omega (arith, h)) in
    let (b0, e0) = load-some 0 m (omega (arith, h)) in (_, bind-ok _ _ m e1 ∙ bind-ok _ _ m e0)
unpack_uint-some s_dword m h =
    let (b3, e3) = load-some 3 m (omega (arith, h)) in
    let (b2, e2) = load-some 2 m (omega (arith, h)) in
    let (b1, e1) = load-some 1 m (omega (arith, h)) in
    let (b0, e0) = load-some 0 m (omega (arith, h)) in
    (_, bind-ok _ _ m e3 ∙ bind-ok _ _ m e2 ∙ bind-ok _ _ m e1 ∙ bind-ok _ _ m e0)

pub Reads-puint : (s : NumberSize) (v : ℕ) → Reads (puint s v)
unfolding puint
Reads-puint s v = Reads-guarded _ _ v (width s) (λ m h. unpack_uint-some s m h)

pub Reads-pu8 : (v : ℕ) → Reads (pu8 v)
unfolding pu8
Reads-pu8 v = Reads-bind _ _ (Reads-puint s_byte v) (λ a. Reads-pure _)

pub Reads-pu16 : (v : ℕ) → Reads (pu16 v)
unfolding pu16
Reads-pu16 v = Reads-bind _ _ (Reads-puint s_word v) (λ a. Reads-pure _)

pub Reads-pu32 : (v : ℕ) → Reads (pu32 v)
unfolding pu32
Reads-pu32 v = Reads-puint s_dword v

pub Reads-pu64 : (v : ℕ) → Reads (pu64 v)
unfolding pu64
Reads-pu64 v =
    Reads-bind _ _ (Reads-puint s_dword _)
      (λ a. Reads-bind _ _ (Reads-puint s_dword _) (λ b. Reads-pure _))
