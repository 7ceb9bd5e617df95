-- ===== src/Tests/Files.antt =====
-- A pool with one fid in use, and a file of five bytes.
use libixp.Base.{ℕ, ◌+◌, ◌≡◌, refl, [], ◌∷◌, Option, some, arith}
use libixp.Msg.{Result, ok}
use libixp.Msg.Fields.{Str}
use libixp.Client.{FidPool, ReadReply, putfid, pread}
use libixp.Client.Fids.{IsPool, putfid-IsPool}
use libixp.Client.Reading.{WithinCount, serve_file, pread-WithinCount, pread-file}

abbrev pool : FidPool
pool = record { lastfid = 2; freefid = 1 ∷ [] }

pool-IsPool : IsPool (2 ∷ []) pool
pool-IsPool = record {
  used_apart = (tt, tt);
  free_apart = (tt, tt);
  apart = ((λ e. omega (arith, e), tt), tt);
  used_below = ((omega arith, omega arith), tt);
  free_below = ((omega arith, omega arith), tt);
  counted = refl;
}

putfid-IsPool_example : IsPool [] (putfid 2 pool)
putfid-IsPool_example = putfid-IsPool 2 [] [] pool pool-IsPool

abbrev bytes_of_file : Str
bytes_of_file = 104 ∷ 101 ∷ 108 ∷ 108 ∷ 111 ∷ []

-- A server that answers with more than was asked for.
abbrev generous : ℕ → ℕ → Unit {0} → Result (Option ReadReply) × Unit {0}
generous offset n s = (ok (some (record { size = n + 1; contents = bytes_of_file })), s)

pread-WithinCount_example : WithinCount 3 (pread generous 5 2 3 0 tt)
pread-WithinCount_example = pread-WithinCount generous 5 2 3 0 tt

pread-file_example :
    pread (serve_file bytes_of_file) 5 2 4 2 tt
    ≡ some (record { buf = 108 ∷ 108 ∷ 111 ∷ []; result = ok (some 3) }, tt)
pread-file_example = pread-file bytes_of_file 5 2 4 2 tt (omega arith) (omega arith)
