-- ===== src/Client/Session.antt =====
-- What the calls of a client act on, and how they are put together. What a call changed stays
-- changed when it throws.
use libixp.Base.{ℕ, ◌≡◌, ap}
use libixp.Msg.{Result, ok, err}
use libixp.Client.{FidPool}

-- _msize, _mintag and _maxtag of a Client with its fids; `world` is the state of the connection and
-- of the server behind it.
pub record Session (S : Type 0) : Type 0 where
  pub pool : FidPool
  pub msize : ℕ
  pub mintag : ℕ
  pub maxtag : ℕ
  pub world : S

abbrev pub Call : Type 0 → Type 0 → Type 0
Call S A = Session S → Result A × Session S

abbrev pub pure : {S A : Type 0} → A → Call S A
pure a c = (ok a, c)

abbrev pub lift : {S A : Type 0} → Result A → Call S A
lift r c = (r, c)

-- What follows a call, on its result and what it left.
abbrev pub next : {S A B : Type 0} → (A → Call S B) → Result A × Session S → Result B × Session S
next f x = elim x.0 [ ok a ↦ f a x.1 | err e ↦ (err e, x.1) ]

infixl 5 ◌>>=◌ ◌>>◌
unfoldable pub ◌>>=◌ : {S A B : Type 0} → Call S A → (A → Call S B) → Call S B
◌>>=◌ m f c = next f (m c)

abbrev pub ◌>>◌ : {S A B : Type 0} → Call S A → Call S B → Call S B
m >> k = m >>= λ _. k

-- A step of a chain of calls, as an equation.
pub then-eq :
    {S A B : Type 0} (m : Call S A) (f : A → Call S B) (c : Session S) {x : Result A × Session S}
    → m c ≡ x
    → (m >>= f) c ≡ next f x
unfolding ◌>>=◌
then-eq m f c e = ap (next f) e
