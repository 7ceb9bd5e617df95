-- ===== src/Socket/Descriptors.antt =====
-- The descriptors that dialling and announcing leave open.
use libixp.Base.{
  ◌⊎◌, ℕ, ◌≡◌, refl, ◌∙◌, ap, Bool, true, false, List, [], ◌∷◌, Option, none, some, Option-cases,
  Bool-cases, inl, inr, subst,
}
use libixp.Msg.{Error, Result, ok, err}
use libixp.Msg.Fields.{Str}
use libixp.Socket.{get_port, System, alookup, dial_each, dial_tcp, announce_each, announce_tcp}

-- A descriptor or -1, in front of others.
abbrev pub with_fd : Option ℕ → List ℕ → List ℕ
with_fd none fds = fds
with_fd (some fd) fds = fd ∷ fds

abbrev pub returned : Result (Option ℕ) → Option ℕ
returned (err e) = none
returned (ok fd) = fd

-- What is open in a state of the system, and what the calls change of it.
pub record Opens {A N : Type 0} (sys : System A N) (open_fds : N → List ℕ) : Type 0 where
  pub by_socket :
      (a : A) (s : N)
      → open_fds (sys.tcp_socket a s).1 ≡ with_fd (sys.tcp_socket a s).0 (open_fds s)
  pub by_connect : (fd : ℕ) (a : A) (s : N) → open_fds (sys.connect fd a s).1 ≡ open_fds s
  pub by_bind : (fd : ℕ) (a : A) (s : N) → open_fds (sys.bind fd a s).1 ≡ open_fds s
  pub by_listen : (fd : ℕ) (s : N) → open_fds (sys.listen fd s).1 ≡ open_fds s
  pub by_close :
      (fd : ℕ) (fds : List ℕ) (s : N) → open_fds s ≡ fd ∷ fds → open_fds (sys.close fd s) ≡ fds
  pub by_getaddrinfo :
      (passive : Bool) (host : Option Str) (port : Str) (s : N)
      → open_fds (sys.getaddrinfo passive host port s).1 ≡ open_fds s

pub Result-cases :
    {A : Type 0} (r : Result A) → ((e : Error) × (r ≡ err e)) ⊎ ((a : A) × (r ≡ ok a))
Result-cases (err e) = inl (e, refl)
Result-cases (ok a) = inr (a, refl)

module _ {A N : Type 0} (sys : System A N) (open_fds : N → List ℕ) (v : Opens sys open_fds) where
  -- What is open after a call, given what was and the result.
  abbrev pub Leaves : List ℕ → Result (Option ℕ) × N → Type 0
  Leaves fds r = open_fds r.1 ≡ with_fd (returned r.0) fds

  dial_each-Leaves : (ais : List A) (s : N) → Leaves (open_fds s) (dial_each sys ais s)
  unfolding dial_each
  dial_each-Leaves [] s = refl
  dial_each-Leaves (ai ∷ ais) s =
      let s1 = (sys.tcp_socket ai s).1 in
      elim (Option-cases (sys.tcp_socket ai s).0) [
        | inl e ↦
            let same : open_fds s1 ≡ open_fds s =
              v.by_socket ai s ∙ ap (λ o. with_fd o (open_fds s)) e in
            rw (dial_each, e)
              (subst (λ l. Leaves l (dial_each sys ais s1)) same (dial_each-Leaves ais s1))
        | inr (fd, e) ↦
            let s2 = (sys.connect fd ai s1).1 in
            let held : open_fds s2 ≡ fd ∷ open_fds s =
              v.by_connect fd ai s1 ∙ v.by_socket ai s ∙ ap (λ o. with_fd o (open_fds s)) e in
            elim (Bool-cases (sys.connect fd ai s1).0) [
              | inl joined ↦ rw (dial_each, e, joined) held
              | inr refused ↦
                  let s3 = sys.close fd s2 in
                  rw (dial_each, e, refused)
                    (subst (λ l. Leaves l (dial_each sys ais s3))
                      (v.by_close fd (open_fds s) s2 held) (dial_each-Leaves ais s3))
            ]
      ]

  announce_each-leaves :
      (ais : List A) (s : N)
      → open_fds (announce_each sys ais s).1 ≡ with_fd (announce_each sys ais s).0 (open_fds s)
  unfolding announce_each
  announce_each-leaves [] s = refl
  announce_each-leaves (ai ∷ ais) s =
      let s1 = (sys.tcp_socket ai s).1 in
      let go_on : (s' : N)
          → open_fds s' ≡ open_fds s
          → open_fds (announce_each sys ais s').1
            ≡ with_fd (announce_each sys ais s').0 (open_fds s) =
        λ s' e. announce_each-leaves ais s' ∙ ap (with_fd (announce_each sys ais s').0) e in
      elim (Option-cases (sys.tcp_socket ai s).0) [
        | inl e ↦
            rw (announce_each, e) (go_on s1 (v.by_socket ai s ∙ ap (λ o. with_fd o (open_fds s)) e))
        | inr (fd, e) ↦
            let s2 = (sys.bind fd ai s1).1 in
            let s3 = (sys.listen fd s2).1 in
            let held : open_fds s2 ≡ fd ∷ open_fds s =
              v.by_bind fd ai s1 ∙ v.by_socket ai s ∙ ap (λ o. with_fd o (open_fds s)) e in
            elim (Bool-cases (sys.bind fd ai s1).0) [
              | inr refused ↦
                  rw (announce_each, e, refused)
                    (go_on (sys.close fd s2) (v.by_close fd (open_fds s) s2 held))
              | inl bound ↦ elim (Bool-cases (sys.listen fd s2).0) [
                | inl heard ↦ rw (announce_each, e, bound, heard) (v.by_listen fd s2 ∙ held)
                | inr deaf ↦
                    rw (announce_each, e, bound, deaf)
                      (go_on (sys.close fd s3)
                        (v.by_close fd (open_fds s) s3 (v.by_listen fd s2 ∙ held)))
              ]
            ]
      ]

  alookup-leaves : (b : Bool) (host : Str) (s : N) → open_fds (alookup sys b host s).1 ≡ open_fds s
  unfolding alookup
  alookup-leaves b host s = elim (Result-cases (get_port host)) [
    | inl (e, h) ↦ rw (alookup, h) refl
    | inr (port, h) ↦ rw (alookup, h) (v.by_getaddrinfo _ _ _ _)
  ]

  -- dial_tcp and announce_tcp close every descriptor that they open but the one they return: what is
  -- open afterwards is what was and that one, whichever of the addresses were refused, and also
  -- when they throw.
  pub tcp-Leaves :
      (host : Str) (s : N)
      → Leaves (open_fds s) (dial_tcp sys host s) × Leaves (open_fds s) (announce_tcp sys host s)
  unfolding dial_tcp announce_tcp dial_each
  tcp-Leaves host s = (
    (let s1 = (alookup sys false host s).1 in
        let same = alookup-leaves false host s in
        elim (Result-cases (alookup sys false host s).0) [
          | inl (e, h) ↦ rw (dial_tcp, h) same
          | inr ([], h) ↦ rw (dial_tcp, h) same
          | inr (ai ∷ ais, h) ↦
              rw (dial_tcp, h)
                (subst (λ l. Leaves l (dial_each sys (ai ∷ ais) s1)) same
                  (dial_each-Leaves (ai ∷ ais) s1))
        ]),
    (let s1 = (alookup sys true host s).1 in
        let same = alookup-leaves true host s in
        elim (Result-cases (alookup sys true host s).0) [
          | inl (e, h) ↦ rw (announce_tcp, h) same
          | inr (ais, h) ↦
              rw (announce_tcp, h)
                (announce_each-leaves ais s1 ∙ ap (with_fd (announce_each sys ais s1).0) same)
        ]),
  )
