-- ===== src/Tests/Sockets.antt =====
-- A system that numbers its descriptors, and takes connections at the second of two addresses.
use libixp.Base.{
  ℕ, suc, ◌≡◌, refl, ap, ◌∙◌, true, List, [], ◌∷◌, ◌==◌, if◌then◌else◌, Option, none, some, arith,
}
use libixp.Msg.{exception, err}
use libixp.Msg.Fields.{Str}
use libixp.Socket.{System, dial_tcp, announce_tcp}
use libixp.Socket.Descriptors.{Opens, Leaves, tcp-Leaves}
use libixp.Socket.Port.{tcp-throws}

-- The open descriptors, and the number of the next.
abbrev Fds : Type 0
Fds = List ℕ × ℕ

abbrev without : ℕ → List ℕ → List ℕ
without fd [] = []
without fd (x ∷ xs) = let rest = without fd xs in if x == fd then xs else x ∷ rest

abbrev next_fd : Fds → Option ℕ × Fds
next_fd s = (some s.1, (s.1 ∷ s.0, suc s.1))

abbrev system : Option (List ℕ) → System ℕ Fds
system found = record {
  unix_address = λ path. 0;
  unix_socket = next_fd;
  tcp_socket = λ a s. next_fd s;
  connect = λ fd a s. (a == 2, s);
  reuse_address = λ fd s. (true, s);
  unlink = λ path s. s;
  bind = λ fd a s. (a == 2, s);
  chmod = λ path s. s;
  listen = λ fd s. (true, s);
  close = λ fd s. (without fd s.0, s.1);
  getaddrinfo = λ passive host port s. (found, s);
}

without-first : (fd : ℕ) (fds : List ℕ) → without fd (fd ∷ fds) ≡ fds
without-first fd fds = let same : (fd == fd) ≡ true = ground arith in rw same refl

system-Opens : (found : Option (List ℕ)) → Opens (system found) (λ s. s.0)
system-Opens found = record {
  by_socket = λ a s. refl;
  by_connect = λ fd a s. refl;
  by_bind = λ fd a s. refl;
  by_listen = λ fd s. refl;
  by_close = λ fd fds s e. ap (without fd) e ∙ without-first fd fds;
  by_getaddrinfo = λ passive host port s. refl;
}

-- "a!b"
abbrev host : Str
host = b'a' ∷ b'!' ∷ b'b' ∷ []

abbrev two : System ℕ Fds
two = system (some (1 ∷ 2 ∷ []))

tcp-Leaves_example :
    Leaves two
      (λ s. s.0)
      (system-Opens (some (1 ∷ 2 ∷ [])))
      (3 ∷ [])
      (dial_tcp two host (3 ∷ [], 4))
    × Leaves two
        (λ s. s.0)
        (system-Opens (some (1 ∷ 2 ∷ [])))
        (3 ∷ [])
        (announce_tcp two host (3 ∷ [], 4))
tcp-Leaves_example = tcp-Leaves two (λ s. s.0) (system-Opens (some (1 ∷ 2 ∷ []))) host (3 ∷ [], 4)

tcp-throws_example :
    ((dial_tcp (system none) host ([], 0)).0 ≡ err exception)
    × ((announce_tcp (system none) host ([], 0)).0 ≡ err exception)
tcp-throws_example = tcp-throws (system none) host ([], 0) (λ passive node service s. refl)
