-- ===== src/Socket/Port.antt =====
-- The port that is looked up for an address.
use libixp.Base.{
  ◌≡◌, refl, sym, ◌∙◌, ap, ==_iff, Bool, true, false, [], ◌∷◌, ◌==◌, Option, none, some,
  Option-cases, Bool-cases, inl, inr,
}
use libixp.Msg.{exception, err}
use libixp.Msg.Fields.{Str}
use libixp.Socket.{System, find_bang, get_port, alookup, dial_tcp, announce_tcp}

find_bang-from :
    (addr before from : Str)
    → find_bang addr ≡ some (before, from)
    → (port : Str) × (from ≡ b'!' ∷ port)
unfolding find_bang
find_bang-from [] before from e = cc
find_bang-from (c ∷ addr) before from e = elim (Bool-cases (c == b'!')) [
  | inl bang ↦
      let e' : find_bang (c ∷ addr) ≡ some ([], c ∷ addr) = rw (find_bang, bang) refl in
      let is : c ≡ b'!' = (==_iff c b'!').0 bang in
      let all : from ≡ c ∷ addr = cc in (addr, all ∙ ap (λ x. x ∷ addr) is)
  | inr other ↦ elim (Option-cases (find_bang addr)) [
    | inl n ↦ let e' : find_bang (c ∷ addr) ≡ none = rw (find_bang, other, n) refl in cc
    | inr ((b, f), h) ↦
        let e' : find_bang (c ∷ addr) ≡ some (c ∷ b, f) = rw (find_bang, other, h) refl in
        let same : f ≡ from = cc in
        let (port, is) = find_bang-from addr b f h in (port, sym same ∙ is)
  ]
]

alookup-throws :
    {A N : Type 0} (sys : System A N) (host : Str) (s : N)
    → ((passive : Bool) (node : Option Str) (service : Str) (s' : N)
        → (sys.getaddrinfo passive node (b'!' ∷ service) s').0 ≡ none)
    → (b : Bool) → (alookup sys b host s).0 ≡ err exception
unfolding alookup get_port
alookup-throws sys host s fails b = elim (Option-cases (find_bang host)) [
  | inl n ↦ rw (alookup, get_port, n) refl
  | inr ((before, from), h) ↦
      let (port, is) = find_bang-from host before from h in
      rw (alookup, get_port, h, is, fails) refl
]

-- getPort returns the '!' before the port. So where getaddrinfo fails for a service that begins with
-- a '!', as there is none, no address can be dialled or announced over tcp: both throw.
pub tcp-throws :
    {A N : Type 0} (sys : System A N) (host : Str) (s : N)
    → ((passive : Bool) (node : Option Str) (service : Str) (s' : N)
        → (sys.getaddrinfo passive node (b'!' ∷ service) s').0 ≡ none)
    → ((dial_tcp sys host s).0 ≡ err exception) × ((announce_tcp sys host s).0 ≡ err exception)
unfolding dial_tcp announce_tcp
tcp-throws sys host s fails =
    let throws : (b : Bool) → (alookup sys b host s).0 ≡ err exception =
      alookup-throws sys host s fails in
    (rw (dial_tcp, throws false) refl, rw (announce_tcp, throws true) refl)
