-- ===== src/Tests/Loops.antt =====
-- Three connections, of which one has no function to read and two are ready.
use libixp.Base.{ℕ, ◌≡◌, refl, true, false, List, [], ◌∷◌, none, some, arith}
use libixp.Msg.{ok}
use libixp.Loop.{Conn, State, set_net, watch, prepare_select, handle_conns}
use libixp.Loop.Handling.{handle_conns-visits}

abbrev conns : List Conn
conns =
    record { fd = 3; aux = 0; read = some 1; close = none; closed = false }
    ∷ record { fd = 5; aux = 0; read = none; close = none; closed = false }
    ∷ record { fd = 7; aux = 0; read = some 2; close = none; closed = false }
    ∷ []

abbrev waiting : State (List ℕ)
waiting = record {
  timers = [];
  lastid = 0;
  readings = 0;
  world = record { running = true; maxfd = 0; conns = conns; rd = []; world = [] };
}

abbrev note_fd : ℕ → ℕ → List ℕ → List ℕ
note_fd f fd w = fd ∷ w

abbrev on_read : ℕ → Conn → State (List ℕ) → State (List ℕ)
on_read f c s = set_net (record s.world { world = note_fd f c.fd s.world.world }) s

abbrev selected : State (List ℕ)
selected = record waiting {
  world = record { running = true; maxfd = 7; conns = conns; rd = 7 ∷ 3 ∷ []; world = [] };
}

handle_conns-visits_example :
    handle_conns on_read 4 0 selected
    ≡ some (ok (set_net (record selected.world { world = 7 ∷ 3 ∷ [] }) selected))
unfolding prepare_select watch
handle_conns-visits_example =
    handle_conns-visits on_read note_fd (λ f c s. refl) 4 (7 ∷ 3 ∷ []) waiting
      (
        ((λ e. omega (arith, e)), ((λ e. omega (arith, e)), tt)),
        (((λ e. omega (arith, e)), tt), (tt, tt)),
      )
      (λ fd e. e) (omega arith)
