-- ===== src/Msg/Unpacks.antt =====
-- What a function does in Mode::Unpack when the bytes of a value stand at the position and end
-- before _end: it yields the value, steps over the bytes, and changes nothing else.
use mathlib.Core.List.{append-nil}
use libixp.Base.{
  ℕ, ◌+◌, ◌%◌, ◌^◌, ◌≤◌, ◌≡◌, refl, subst, ◌∙◌, Bool, true, false, List, [], ◌++◌, arith,
  if◌then◌else◌, length, length-append,
}
use libixp.Msg.{Mode, Msg, ok, M, pure, ◌>>=◌, bind-ok, pack_requested, uninitialised}
use libixp.Msg.Steps.{fits-ok, packing-no, uninitialised-ok, advance-ok}
use libixp.Msg.Splice.{At, At-append_left, At-append_right}
use libixp.Msg.Packs.{IsWithin, guarded}

pub record Unpacks {A : Type 0} (junk : ℕ) (op : M A) (a : A) (bs : List ℕ) : Type 0 where
  pub run :
      (m : Msg)
      → IsWithin m
      → m.mode ≡ Mode.unpack
      → m.uninit ≡ junk
      → m.pos + length bs ≤ m.end
      → At m.buffer m.pos bs
      → op m ≡ ok (a, record m { pos = m.pos + length bs })

pub Unpacks-pure : {A : Type 0} (junk : ℕ) (a : A) → Unpacks junk (pure a) a []
unfolding pure
Unpacks-pure junk a = record {
  run = λ m w p u h at. let e : m.pos + 0 ≡ m.pos = omega arith in rw e refl;
}

pub Unpacks-bind :
    {A B : Type 0} {junk : ℕ} (op : M A) (f : A → M B) {a : A} {b : B} {xs ys : List ℕ}
    → Unpacks junk op a xs
    → Unpacks junk (f a) b ys
    → Unpacks junk (op >>= f) b (xs ++ ys)
Unpacks-bind op f {xs} {ys} h k = record {
  run = λ m w p u le at.
      let n : length (xs ++ ys) ≡ length xs + length ys = length-append {0} xs ys in
      let e : m.pos + length xs + length ys ≡ m.pos + length (xs ++ ys) = omega (arith, n) in
      bind-ok op f m (h.run m w p u (omega (arith, n)) (At-append_left m.buffer m.pos xs ys at))
      ∙ k.run _ w p u (omega (arith, n)) (At-append_right m.buffer m.pos _ xs ys refl at)
      ∙ rw e refl;
}

pub Unpacks-map :
    {A B : Type 0} {junk : ℕ} (op : M A) (f : A → B) {a : A} {xs : List ℕ}
    → Unpacks junk op a xs
    → Unpacks junk (op >>= λ x. pure (f x)) (f a) xs
Unpacks-map op f {a} {xs} h =
    subst (Unpacks _ (op >>= λ x. pure (f x)) (f a)) (append-nil xs)
      (Unpacks-bind op (λ x. pure (f x)) h (Unpacks-pure _ (f a)))

pub Unpacks-if :
    {A : Type 0} {junk : ℕ} (b : Bool) {x y : M A} {a a' : A} {xs ys : List ℕ}
    → (b ≡ true → Unpacks junk x a xs)
    → (b ≡ false → Unpacks junk y a' ys)
    → Unpacks junk (if b then x else y) (if b then a else a') (if b then xs else ys)
Unpacks-if true h k = h refl
Unpacks-if false h k = k refl

pub Unpacks-requested : (junk : ℕ) → Unpacks junk pack_requested false []
Unpacks-requested junk = record {
  run = λ m w p u h at. let e : m.pos + 0 ≡ m.pos = omega arith in rw e (packing-no m p);
}

pub Unpacks-uninitialised : (junk : ℕ) → Unpacks junk uninitialised (junk % 2 ^ 16) []
Unpacks-uninitialised junk = record {
  run = λ m w p u h at.
      let e : m.pos + 0 ≡ m.pos = omega arith in uninitialised-ok m ∙ rw (e, u) refl;
}

pub Unpacks-guarded :
    {A : Type 0} (c u : M A) (old : A) (n junk : ℕ) {a : A} (bs : List ℕ)
    → length bs ≡ n
    → ((m : Msg) → IsWithin m → At m.buffer m.pos bs → u m ≡ ok (a, m))
    → Unpacks junk (guarded c u old n) a bs
unfolding pure
Unpacks-guarded c u old n junk bs e body = record {
  run = λ m w p _ h at.
      bind-ok _ _ m (fits-ok n m (omega arith))
      ∙ bind-ok _ _ m (packing-no m p)
      ∙ bind-ok _ _ m (body m w at)
      ∙ bind-ok _ _ m (advance-ok n m)
      ∙ rw e refl;
}
