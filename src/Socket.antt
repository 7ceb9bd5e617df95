-- ===== src/Socket.antt =====
-- socket.cc: dialling and announcing an address. The calls of the system are a parameter, with a
-- state of their own.
pub mod Descriptors
pub mod Port
use libixp.Base.{
  ℕ, zero, suc, Bool, true, false, List, [], ◌∷◌, ◌==◌, ◌||◌, if◌then◌else◌, Option, none, some,
  length, take,
}
use libixp.Msg.{Error, bad_access, exception, Result, ok, err}
use libixp.Msg.Fields.{Str}
use libixp.Request.Handle.{same_bytes}
use libixp.Util.{c_str}

-- The calls that are used: none for -1, and false for a failure. An address of the first field is
-- that of a path for unix.
pub record System (A N : Type 0) : Type 0 where
  pub unix_address : Str → A
  pub unix_socket : N → Option ℕ × N
  pub tcp_socket : A → N → Option ℕ × N
  pub connect : ℕ → A → N → Bool × N
  pub reuse_address : ℕ → N → Bool × N
  pub unlink : Str → N → N
  pub bind : ℕ → A → N → Bool × N
  pub chmod : Str → N → N
  pub listen : ℕ → N → Bool × N
  pub close : ℕ → N → N
  pub getaddrinfo : (passive : Bool) → Option Str → Str → N → Option (List A) × N

-- What stands before the first '!' of a string, and what stands from it on.
pub find_bang : Str → Option (Str × Str)
find_bang [] = none
find_bang (c ∷ s) =
    let rest : Option (Str × Str) = elim (find_bang s) [
      | none ↦ none
      | some (before, from) ↦ some (c ∷ before, from)
    ] in
    if c == b'!' then some ([], c ∷ s) else rest

-- getPort: the '!' is part of what it returns.
unfoldable pub get_port : Str → Result Str
unfolding find_bang
get_port addr = elim (find_bang addr) [ none ↦ err exception | some (before, from) ↦ ok from ]

abbrev behind : Str → Str
behind [] = []
behind (c ∷ s) = s

-- Connection::decompose.
unfoldable pub decompose : Str → Result (Str × Str)
unfolding find_bang
decompose address = elim (find_bang address) [
  | none ↦ err exception
  | some (before, from) ↦ ok (before, behind from)
]

-- The copy into sun_path, of 108 bytes that are 0. SUN_LEN looks for a 0 in it.
unfoldable pub sun_path : Str → Result Str
sun_path address =
    let path = c_str (take 108 address) in if length path == 108 then err bad_access else ok path

module _ {A N : Type 0} (sys : System A N) where
  -- The first of some tests to fail closes the descriptor; -1 is none.
  abbrev pub or_close : ℕ → Bool × N → (N → Option ℕ × N) → Option ℕ × N
  or_close fd (false, s) use_fd = (none, sys.close fd s)
  or_close fd (true, s) use_fd = use_fd s

  unfoldable pub dial_unix : Str → N → Result (Option ℕ) × N
  dial_unix address s = elim (sun_path address) [
    | err e ↦ (err e, s)
    | ok path ↦
        let opened = sys.unix_socket s in
        elim opened.0 [
          | none ↦ (ok none, opened.1)
          | some fd ↦
              let done =
                or_close fd (sys.connect fd (sys.unix_address path) opened.1)
                  (λ s'. (some fd, s')) in
              (ok done.0, done.1)
        ]
  ]

  -- announce_unix behind sock_unix.
  abbrev pub bind_unix : Str → Str → ℕ → N → Option ℕ × N
  bind_unix file path fd s = or_close fd (sys.reuse_address fd s) (λ s1.
      or_close fd (sys.bind fd (sys.unix_address path) (sys.unlink file s1))
        (λ s2. or_close fd (sys.listen fd (sys.chmod file s2)) (λ s3. (some fd, s3))))

  unfoldable pub announce_unix : Str → N → Result (Option ℕ) × N
  announce_unix file s = elim (sun_path file) [
    | err e ↦ (err e, s)
    | ok path ↦
        let opened = sys.unix_socket s in
        elim opened.0 [
          | none ↦ (ok none, opened.1)
          | some fd ↦ let done = bind_unix file path fd opened.1 in (ok done.0, done.1)
        ]
  ]

  -- alookup; wErrorString throws. The whole of the address is the host.
  unfoldable pub alookup : (announce : Bool) → Str → N → Result (List A) × N
  alookup announce host s = elim (get_port host) [
    | err e ↦ (err e, s)
    | ok port ↦
        let any = if announce then same_bytes host (b'*' ∷ []) else false in
        let found = sys.getaddrinfo announce (if any then none else some host) port s in
        (elim found.0 [ none ↦ err exception | some ais ↦ ok ais ], found.1)
  ]

  -- The loop of dial_tcp. When no address is left the error of the last is thrown.
  unfoldable pub dial_each : List A → N → Result (Option ℕ) × N
  dial_each [] s = (err exception, s)
  dial_each (ai ∷ ais) s =
      let opened = sys.tcp_socket ai s in
      elim opened.0 [
        | none ↦ dial_each ais opened.1
        | some fd ↦
            let joined = sys.connect fd ai opened.1 in
            elim joined.0 [
              | true ↦ (ok (some fd), joined.1)
              | false ↦ dial_each ais (sys.close fd joined.1)
            ]
      ]

  unfoldable pub dial_tcp : Str → N → Result (Option ℕ) × N
  unfolding alookup dial_each
  dial_tcp host s =
      let found = alookup false host s in
      elim found.0 [
        | err e ↦ (err e, found.1)
        | ok [] ↦ (ok none, found.1)
        | ok (ai ∷ ais) ↦ dial_each (ai ∷ ais) found.1
      ]

  -- The loop of announce_tcp.
  unfoldable pub announce_each : List A → N → Option ℕ × N
  announce_each [] s = (none, s)
  announce_each (ai ∷ ais) s =
      let opened = sys.tcp_socket ai s in
      elim opened.0 [
        | none ↦ announce_each ais opened.1
        | some fd ↦
            let bound = sys.bind fd ai opened.1 in
            elim bound.0 [
              | false ↦ announce_each ais (sys.close fd bound.1)
              | true ↦
                  let heard = sys.listen fd bound.1 in
                  elim heard.0 [
                    | false ↦ announce_each ais (sys.close fd heard.1)
                    | true ↦ (some fd, heard.1)
                  ]
            ]
      ]

  unfoldable pub announce_tcp : Str → N → Result (Option ℕ) × N
  unfolding alookup announce_each
  announce_tcp host s =
      let found = alookup true host s in
      elim found.0 [
        | err e ↦ (err e, found.1)
        | ok ais ↦ let done = announce_each ais found.1 in (ok done.0, done.1)
      ]

-- Connection::Creator, and the table of the creators by their names.
pub record Creator (N : Type 0) : Type 0 where
  pub dial : Str → N → Result (Option ℕ) × N
  pub announce : Str → N → Result (Option ℕ) × N

module _ {N : Type 0} where
  unfoldable pub find_creator : Str → List (Str × Creator N) → Option (Creator N)
  find_creator kind [] = none
  find_creator kind ((name, c) ∷ cs) =
      let rest = find_creator kind cs in if same_bytes kind name then some c else rest

  -- registerCreator.
  unfoldable pub register_creator :
      Str → Creator N → List (Str × Creator N) → Result (List (Str × Creator N))
  unfolding find_creator
  register_creator name c ctab = elim (find_creator name ctab) [
    | some _ ↦ err exception
    | none ↦ ok ((name, c) ∷ ctab)
  ]

  -- The creator for an address, and its path.
  unfoldable pub target : List (Str × Creator N) → Str → Result (Creator N × Str)
  unfolding decompose find_creator
  target ctab address = elim (decompose address) [
    | err e ↦ err e
    | ok (kind, path) ↦ elim (find_creator kind ctab) [
      | none ↦ err exception
      | some c ↦ ok (c, path)
    ]
  ]

  unfoldable pub dial : List (Str × Creator N) → Str → N → Result (Option ℕ) × N
  unfolding target
  dial ctab address s = elim (target ctab address) [
    | err e ↦ (err e, s)
    | ok (c, path) ↦ c.dial path s
  ]

  unfoldable pub announce : List (Str × Creator N) → Str → N → Result (Option ℕ) × N
  unfolding target
  announce ctab address s = elim (target ctab address) [
    | err e ↦ (err e, s)
    | ok (c, path) ↦ c.announce path s
  ]
