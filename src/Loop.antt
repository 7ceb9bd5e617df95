-- ===== src/Loop.antt =====
-- server.cc, Server.h and Conn.h: the connections of a Server and the loop that waits for them. The
-- Server with its timers is that of Timer, with the rest of its members as the world. select, the
-- calls on sockets, and what the functions of the connections do are parameters.
pub mod Handling
use libixp.Base.{
  ℕ, zero, suc, ◌+◌, ◌*◌, ◌/◌, ◌%◌, ◌^◌, ◌&&◌, Bool, true, false, List, [], ◌∷◌, ◌++◌, ◌==◌, ◌||◌,
  ltb, leb, if◌then◌else◌, Option, none, some, length, get_elem?,
}
use libixp.Msg.{Error, bad_access, exception, Result, ok, err}
use libixp.Timer.{Server, nexttimer}

-- A connection with its functions, which are numbers; either may be empty.
pub record Conn : Type 0 where
  pub fd : ℕ
  pub aux : ℕ
  pub read : Option ℕ
  pub close : Option ℕ
  pub closed : Bool

-- _running, _maxfd, _conns and _rd, and what the functions work on.
pub record Net (W : Type 0) : Type 0 where
  pub running : Bool
  pub maxfd : ℕ
  pub conns : List Conn
  pub rd : List ℕ
  pub world : W

abbrev pub State : Type 0 → Type 0
State W = Server (Net W)

abbrev pub set_net : {W : Type 0} → Net W → State W → State W
set_net n s = record s { world = n }

-- setIsRunning.
abbrev pub set_running : {W : Type 0} → Bool → State W → State W
set_running b s = set_net (record s.world { running = b }) s

abbrev pub listen : {W : Type 0} → ℕ → ℕ → (read close : Option ℕ) → State W → State W
listen fd aux read close s =
    let c : Conn = record { fd = fd; aux = aux; read = read; close = close; closed = false } in
    set_net (record s.world { conns = s.world.conns ++ c ∷ [] }) s

-- FD_ISSET.
abbrev pub is_set : ℕ → List ℕ → Bool
is_set fd [] = false
is_set fd (x ∷ xs) = let rest = is_set fd xs in x == fd || rest

-- The loop of prepareSelect: _maxfd and _rd.
unfoldable pub watch : List Conn → ℕ → List ℕ → ℕ × List ℕ
watch [] maxfd rd = (maxfd, rd)
watch (c ∷ cs) maxfd rd = elim c.read [
  | none ↦ watch cs maxfd rd
  | some f ↦ watch cs (if ltb maxfd c.fd then c.fd else maxfd) (c.fd ∷ rd)
]

unfoldable pub prepare_select : {W : Type 0} → State W → State W
unfolding watch
prepare_select s =
    let watched = watch s.world.conns s.world.maxfd [] in
    set_net (record s.world { maxfd = watched.0; rd = watched.1 }) s

-- What select returns: the set that it leaves, or -1 with errno EINTR or with another errno.
pub data Selected : Type 0 where
  ready : List ℕ → Selected
  interrupted failed : Selected

-- The timeval of a timeout, or null. The timeout is a long, given as the uint64_t that nexttimer
-- casts, and is negative from 2 ^ 63 on.
abbrev pub timeval : ℕ → Option (ℕ × ℕ)
timeval timeout =
    if ltb 0 timeout && ltb timeout (2 ^ 63)
    then some (timeout / 1000, timeout % 1000 * 1000)
    else none

module _ {W : Type 0} (read_fn : ℕ → Conn → State W → State W) where
  -- c->getReadFunc()(c.get()): the call of an empty function throws.
  unfoldable pub read_conn : Conn → State W → Result (State W)
  read_conn c s = elim c.read [ none ↦ err exception | some f ↦ ok (read_fn f c s) ]

  -- The loop of handleConns from the i-th connection on. A function may listen to another one,
  -- which is at the end then; if it takes the connection out, the loop goes on from freed memory.
  pub handle_conns : ℕ → ℕ → State W → Option (Result (State W))
  unfolding read_conn
  handle_conns zero i s = none
  handle_conns (suc fuel) i s = elim (get_elem? s.world.conns i) [
    | none ↦ some (ok s)
    | some c ↦ elim (is_set c.fd s.world.rd) [
      | false ↦ handle_conns fuel (suc i) s
      | true ↦ elim (read_conn c s) [
        | err e ↦ some (err e)
        | ok s' ↦ elim (leb (length s'.world.conns) i) [
          | true ↦ some (err bad_access)
          | false ↦ handle_conns fuel (suc i) s'
        ]
      ]
    ]
  ]

  module _ (clock : ℕ → ℕ) (callback : ℕ → ℕ → ℕ → State W → State W)
      (preselect : State W → State W)
      (select : ℕ → Option (ℕ × ℕ) → State W → Selected × State W) where
    -- The loop of serverloop.
    pub serve : ℕ → State W → Option (Result (Bool × State W))
    unfolding prepare_select handle_conns
    serve zero s = none
    serve (suc fuel) s = elim s.world.running [
      | false ↦ some (ok (false, s))
      | true ↦ elim (nexttimer clock callback fuel s) [
        | none ↦ none
        | some (timeout, s1) ↦
            let s2 = preselect s1 in
            elim s2.world.running [
              | false ↦ some (ok (false, s2))
              | true ↦
                  let s3 = prepare_select s2 in
                  let answer = select (s3.world.maxfd + 1) (timeval timeout) s3 in
                  elim answer.0 [
                    | failed ↦ some (ok (true, answer.1))
                    | interrupted ↦ serve fuel answer.1
                    | ready rd ↦
                        elim (handle_conns fuel 0
                          (set_net (record answer.1.world { rd = rd }) answer.1)) [
                            | none ↦ none
                            | some (err e) ↦ some (err e)
                            | some (ok s4) ↦ serve fuel s4
                          ]
                  ]
            ]
      ]
    ]

    pub serverloop : ℕ → State W → Option (Result (Bool × State W))
    unfolding serve
    serverloop fuel s = serve fuel (set_running true s)

-- ~Conn: the function for the end, or else shutdown, and then the descriptor is closed.
module _ {W : Type 0} (close_fn : ℕ → Conn → State W → State W)
    (shutdown close_fd : ℕ → State W → State W) where
  unfoldable pub destroy : Conn → State W → State W
  destroy c s =
      close_fd c.fd (elim c.close [
        | none ↦ shutdown c.fd s
        | some f ↦ close_fn f (record c { closed = true }) s
      ])

  -- Server::close, with what is left of the connections at each step.
  pub close_all : List Conn → State W → State W
  unfolding destroy
  close_all [] s = set_net (record s.world { conns = [] }) s
  close_all (c ∷ cs) s = close_all cs (destroy c s)

  pub close : State W → State W
  unfolding close_all
  close s = close_all s.world.conns s
