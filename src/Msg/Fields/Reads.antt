-- ===== src/Msg/Fields/Reads.antt =====
-- Strings, raw data and arrays in Mode::Unpack, on any bytes.
use libixp.Base.{
  ℕ, zero, suc, ◌+◌, ◌≤◌, ◌≡◌, refl, ◌∙◌, inl, inr, List, [], ◌∷◌, arith, length, le→ltb_false,
  lt→ltb, lt-cases,
}
use libixp.Msg.{Msg, ok, M, pure, bind-ok}
use libixp.Msg.Fields.{Str, load_bytes, pdata, pstring, pdata_vector, past_end, for_first, parray}
use libixp.Msg.Reads.{
  Reads, Reads-pure, Reads-bind, Reads-requested, Reads-uninitialised, Reads-guarded, Reads-pu16,
  load-some,
}

load_bytes-some :
    (k n : ℕ) (m : Msg)
    → m.pos + k + n ≤ length m.buffer
    → (bs : Str) × (load_bytes k n m ≡ ok (bs, m))
unfolding load_bytes pure
load_bytes-some k zero m h = ([], refl)
load_bytes-some k (suc n) m h =
    let (b, e) = load-some k m (omega (arith, h)) in
    let (bs, e') = load_bytes-some (suc k) n m (omega (arith, h)) in
    (b ∷ bs, bind-ok _ _ m e ∙ bind-ok _ _ m e')

pub Reads-pdata : (str : Str) (n : ℕ) → Reads (pdata str n)
unfolding pdata
Reads-pdata str n = Reads-guarded _ _ str n (λ m h. load_bytes-some 0 n m (omega (arith, h)))

pub Reads-pdata_vector : (bs : Str) (n : ℕ) → Reads (pdata_vector bs n)
unfolding pdata_vector pure
Reads-pdata_vector bs n =
    Reads-guarded _ _ bs n
      (λ m h. let (more, e) = load_bytes-some 0 n m (omega (arith, h)) in (_, bind-ok _ _ m e))

pub Reads-pstring : (str : Str) → Reads (pstring str)
unfolding pstring
Reads-pstring str = Reads-requested _ (
    Reads-bind _ _ Reads-uninitialised (λ junk.
      Reads-bind _ _ (Reads-pu16 junk)
        (λ n. Reads-guarded _ _ str n (λ m h. load_bytes-some 0 n m (omega (arith, h))))))

module _ {A : Type 0} (body : A → M A) (each : (x : A) → Reads (body x)) where
  Reads-for_first : (n : ℕ) (xs : List A) → n ≤ length xs → Reads (for_first body n xs)
  unfolding for_first
  Reads-for_first zero xs h = Reads-pure xs
  Reads-for_first (suc n) [] h = absurd (omega (arith, h))
  Reads-for_first (suc n) (x ∷ xs) h =
      Reads-bind _ _ (each x)
        (λ x'. Reads-bind _ _ (Reads-for_first n xs (omega (arith, h))) (λ xs'. Reads-pure _))

  -- The guard on the number keeps the loop within the array.
  pub Reads-parray :
      (limit num : ℕ) (xs : List A) → limit ≤ length xs → Reads (parray body limit num xs)
  unfolding parray past_end
  Reads-parray limit num xs h = Reads-bind _ _ (Reads-pu16 num) (λ n. elim (lt-cases limit n) [
    | inl lt ↦
        rw (lt→ltb _ _ lt)
          (Reads-bind _ _ (record { run = λ m w p. (tt, m.end + 1, refl) }) (λ _. Reads-pure _))
    | inr le ↦
        rw (le→ltb_false _ _ le)
          (Reads-bind _ _ (Reads-for_first n xs (omega (arith, le, h))) (λ xs'. Reads-pure _))
  ])
