-- ===== src/Loop/Handling.antt =====
-- prepareSelect and handleConns, around a call of select.
use libixp.Base.{
  ℕ, zero, suc, ◌<◌, ◌≡◌, ◌≢◌, refl, ◌∙◌, sym, ap, true, false, List, [], ◌∷◌, ◌++◌, ◌==◌, map,
  IsApart, AllApart, All, All-map, none, some, length, length-append, arith, get_elem?,
  get_elem?-some_lt, lt→leb_false, ltb, if◌then◌else◌, Bool-cases, inl, inr, Option-cases, subst,
}
use mathlib.Core.List.{append_assoc}
use libixp.Msg.{exception, Result, ok, err}
use libixp.Loop.{Conn, State, set_net, is_set, watch, prepare_select, read_conn, handle_conns}

abbrev pub fds : List Conn → List ℕ
fds = map (λ c. c.fd)

-- A set that leaves a descriptor out.
is_set-without : (x fd : ℕ) (rd : List ℕ) → x ≢ fd → is_set fd (x ∷ rd) ≡ is_set fd rd
is_set-without x fd rd differ = let e : (x == fd) ≡ false = ground arith in rw e refl

-- A connection without a function to read is passed over, and the descriptor of another is added.
watch-none :
    (c : Conn) (cs : List Conn) (maxfd : ℕ) (rd : List ℕ)
    → c.read ≡ none
    → watch (c ∷ cs) maxfd rd ≡ watch cs maxfd rd
unfolding watch
watch-none c cs maxfd rd e = rw (watch, e) refl

watch-some :
    (c : Conn) (cs : List Conn) (maxfd : ℕ) (rd : List ℕ) (f : ℕ)
    → c.read ≡ some f
    → watch (c ∷ cs) maxfd rd ≡ watch cs (if ltb maxfd c.fd then c.fd else maxfd) (c.fd ∷ rd)
unfolding watch
watch-some c cs maxfd rd f e = rw (watch, e) refl

-- Descriptors that no connection has are in the set only if they were.
watch-apart :
    (cs : List Conn) (maxfd fd : ℕ) (rd : List ℕ)
    → IsApart fd (fds cs)
    → is_set fd (watch cs maxfd rd).1 ≡ is_set fd rd
unfolding watch
watch-apart [] maxfd fd rd apart = refl
watch-apart (c ∷ cs) maxfd fd rd (differ, apart) = elim (Option-cases c.read) [
  | inl e ↦ ap (λ w. is_set fd w.1) (watch-none c cs maxfd rd e) ∙ watch-apart cs maxfd fd rd apart
  | inr (f, e) ↦
      let maxfd' = if ltb maxfd c.fd then c.fd else maxfd in
      ap (λ w. is_set fd w.1) (watch-some c cs maxfd rd f e)
      ∙ watch-apart cs maxfd' fd (c.fd ∷ rd) apart
      ∙ is_set-without c.fd fd rd differ
]

-- A connection that may be found ready has a function to read.
abbrev pub IsReadable : List ℕ → Conn → Type 0
IsReadable rd c = is_set c.fd rd ≡ true → (f : ℕ) × (c.read ≡ some f)

fresh-behind :
    (x : ℕ) (rd : List ℕ) (cs : List Conn)
    → IsApart x (fds cs)
    → All (λ c. is_set c.fd rd ≡ false) cs
    → All (λ c. is_set c.fd (x ∷ rd) ≡ false) cs
fresh-behind x rd [] apart h = tt
fresh-behind x rd (c ∷ cs) (differ, apart) (e, h) =
    (is_set-without x c.fd rd (λ s. differ (sym s)) ∙ e, fresh-behind x rd cs apart h)

watch-IsReadable :
    (cs : List Conn) (maxfd : ℕ) (rd : List ℕ)
    → AllApart (fds cs)
    → All (λ c. is_set c.fd rd ≡ false) cs
    → All (IsReadable (watch cs maxfd rd).1) cs
unfolding watch
watch-IsReadable [] maxfd rd apart fresh = tt
watch-IsReadable (c ∷ cs) maxfd rd (differ, apart) (fd_fresh, fresh) = elim (Option-cases c.read) [
  | inl e ↦
      let same = watch-none c cs maxfd rd e in
      (
        λ h.
            let out : is_set c.fd rd ≡ true =
              sym (watch-apart cs maxfd c.fd rd differ)
              ∙ ap (λ w. is_set c.fd w.1) (sym same)
              ∙ h in
            cc,
        subst (λ w. All (IsReadable w.1) cs) (sym same) (watch-IsReadable cs maxfd rd apart fresh),
      )
  | inr (f, e) ↦
      let maxfd' = if ltb maxfd c.fd then c.fd else maxfd in
      (
        λ h. (f, e),
        subst (λ w. All (IsReadable w.1) cs) (sym (watch-some c cs maxfd rd f e))
            (watch-IsReadable cs maxfd' (c.fd ∷ rd) apart (fresh-behind c.fd rd cs differ fresh)),
      )
]

nothing-set : (cs : List Conn) → All (λ c. is_set c.fd [] ≡ false) cs
nothing-set [] = tt
nothing-set (c ∷ cs) = (refl, nothing-set cs)

-- What the functions of the ready connections do, one after the other.
abbrev pub notes : {W : Type 0} → (ℕ → ℕ → W → W) → List ℕ → List Conn → W → W
notes note rd [] w = w
notes note rd (c ∷ cs) w = elim (is_set c.fd rd) [
  | false ↦ notes note rd cs w
  | true ↦ elim c.read [ none ↦ notes note rd cs w | some f ↦ notes note rd cs (note f c.fd w) ]
]

notes-called :
    {W : Type 0} (note : ℕ → ℕ → W → W) (rd : List ℕ) (c : Conn) (cs : List Conn) (w : W) (f : ℕ)
    → is_set c.fd rd ≡ true
    → c.read ≡ some f
    → notes note rd (c ∷ cs) w ≡ notes note rd cs (note f c.fd w)
notes-called note rd c cs w f set' e = rw (notes, set', e) refl

get_elem?-middle : (pre cs : List Conn) (c : Conn) → get_elem? (pre ++ c ∷ cs) (length pre) ≡ some c
get_elem?-middle [] cs c = refl
get_elem?-middle (p ∷ pre) cs c = get_elem?-middle pre cs c

get_elem?-end : (pre : List Conn) → get_elem? (pre ++ []) (length pre) ≡ none
get_elem?-end [] = refl
get_elem?-end (p ∷ pre) = get_elem?-end pre

module _ {W : Type 0} (read_fn : ℕ → Conn → State W → State W) (note : ℕ → ℕ → W → W)
    (notes_only : (f : ℕ) (c : Conn) (s : State W)
      → read_fn f c s ≡ set_net (record s.world { world = note f c.fd s.world.world }) s) where
  abbrev pub noted : W → State W → State W
  noted w s = set_net (record s.world { world = w }) s

  -- A connection that is not ready.
  handle_conns-skip :
      (fuel i : ℕ) (c : Conn) (s : State W)
      → get_elem? s.world.conns i ≡ some c
      → is_set c.fd s.world.rd ≡ false
      → handle_conns read_fn (suc fuel) i s ≡ handle_conns read_fn fuel (suc i) s
  unfolding handle_conns
  handle_conns-skip fuel i c s here idle = rw (here, handle_conns, idle) refl

  read_conn-some :
      (f : ℕ) (c : Conn) (s : State W)
      → c.read ≡ some f
      → read_conn read_fn c s ≡ ok (noted (note f c.fd s.world.world) s)
  unfolding read_conn
  read_conn-some f c s e =
      ap
        (λ r. elim r as (λ x. Result (State W)) [
          | none ↦ err exception
          | some g ↦ ok (read_fn g c s)
        ])
        e
      ∙ ap ok (notes_only f c s)

  handle_conns-call :
      (fuel i f : ℕ) (c : Conn) (s : State W)
      → get_elem? s.world.conns i ≡ some c
      → is_set c.fd s.world.rd ≡ true
      → c.read ≡ some f
      → i < length s.world.conns
      → handle_conns read_fn (suc fuel) i s
        ≡ handle_conns read_fn fuel (suc i) (noted (note f c.fd s.world.world) s)
  unfolding handle_conns
  handle_conns-call fuel i f c s here set' e lt =
      rw (here, handle_conns, set', read_conn-some f c s e, lt→leb_false _ _ lt) refl

  visits :
      (fuel : ℕ) (pre cs : List Conn) (s : State W)
      → s.world.conns ≡ pre ++ cs
      → All (IsReadable s.world.rd) cs
      → length cs < fuel
      → handle_conns read_fn fuel (length pre) s
        ≡ some (ok (noted (notes note s.world.rd cs s.world.world) s))
  unfolding handle_conns
  visits zero pre cs s e readable enough = absurd (omega (arith, enough))
  visits (suc fuel) pre [] s e readable enough =
      let past : get_elem? s.world.conns (length pre) ≡ none =
        ap (λ l. get_elem? l (length pre)) e ∙ get_elem?-end pre in
      rw (handle_conns, past) refl
  visits (suc fuel) pre (c ∷ cs) s e (h, readable) enough =
      let here : get_elem? s.world.conns (length pre) ≡ some c =
        ap (λ l. get_elem? l (length pre)) e ∙ get_elem?-middle pre cs c in
      let next : length (pre ++ c ∷ []) ≡ suc (length pre) =
        omega (arith, length-append {0} pre (c ∷ [])) in
      let moved : s.world.conns ≡ (pre ++ c ∷ []) ++ cs = e ∙ sym (append_assoc pre (c ∷ []) cs) in
      elim (Bool-cases (is_set c.fd s.world.rd)) [
        | inl set' ↦
            let (f, some_f) = h set' in
            handle_conns-call fuel (length pre) f c s here set' some_f
              (get_elem?-some_lt s.world.conns (length pre) here)
            ∙ ap (λ i. handle_conns read_fn fuel i (noted (note f c.fd s.world.world) s)) (sym next)
            ∙ visits fuel (pre ++ c ∷ []) cs (noted (note f c.fd s.world.world) s) moved readable
                (omega (arith, enough))
            ∙ ap (λ w. some (ok (noted w s)))
                (sym (notes-called note s.world.rd c cs s.world.world f set' some_f))
        | inr idle ↦
            let same : notes note s.world.rd (c ∷ cs) s.world.world
                ≡ notes note s.world.rd cs s.world.world =
              rw (notes, idle) refl in
            handle_conns-skip fuel (length pre) c s here idle
            ∙ ap (λ i. handle_conns read_fn fuel i s) (sym next)
            ∙ visits fuel (pre ++ c ∷ []) cs s moved readable (omega (arith, enough))
            ∙ ap (λ w. some (ok (noted w s))) (sym same)
      ]

  -- After prepareSelect, and a select that leaves some of what was watched, handleConns calls the
  -- function of each connection that is ready, once and in the order of the connections, and
  -- that of no other. This is so when no two connections have the same descriptor, and for
  -- functions that leave the connections as they are.
  pub handle_conns-visits :
      (fuel : ℕ) (rd : List ℕ) (s : State W)
      → AllApart (fds s.world.conns)
      → ((fd : ℕ) → is_set fd rd ≡ true → is_set fd (prepare_select s).world.rd ≡ true)
      → length s.world.conns < fuel
      → (let selected = set_net (record (prepare_select s).world { rd = rd }) (prepare_select s) in
          handle_conns read_fn fuel 0 selected
          ≡ some (ok (noted (notes note rd s.world.conns s.world.world) selected)))
  unfolding prepare_select
  handle_conns-visits fuel rd s apart watched enough =
      let readable =
        watch-IsReadable s.world.conns s.world.maxfd [] apart (nothing-set s.world.conns) in
      visits fuel [] s.world.conns
        (set_net (record (prepare_select s).world { rd = rd }) (prepare_select s)) refl
        (All-map s.world.conns (λ c h e. h (watched c.fd e)) readable) enough
