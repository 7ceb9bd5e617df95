-- ===== src/Tests/Muxing.antt =====
-- A connection whose peer sends back what it is sent, with a reply for another call before it.
use libixp.Base.{◌≡◌, refl, Bool, true, false, List, [], ◌∷◌, ◌++◌, Option, none, some, arith, inl}
use libixp.Msg.{Result, ok}
use libixp.Fcall.Storage.{Fcall, VariantStorage, header_of, f_hdr}
use libixp.Fcall.Retrieve.{with_tag}
use libixp.Rpc.{Client, gettag, found, take_tag, search}
use libixp.Rpc.Mux.{Mux, new_rpc, muxrpc}
use libixp.Rpc.Mux.Electing.{first_awake}
use libixp.Rpc.Mux.Arrivals.{stored}
use libixp.Rpc.Mux.Answering.{Served, muxrpc-serves}
use libixp.Tests.Calls.{client, client-IsClient, client-IsIdle, client-IsRing}

abbrev Pending : Type 0
Pending = List VariantStorage

abbrev echo : VariantStorage → Pending → Option (Result (Bool × Pending))
echo tx n = some (ok (true, n ++ tx ∷ []))

abbrev next_reply : Pending → Option (Result (Option Fcall × Pending))
next_reply [] = some (ok (none, []))
next_reply (f ∷ fs) = some (ok (some (stored f), fs))

-- A clunk of fid 3.
abbrev request : VariantStorage
request = f_hdr (record { type = 120; tag = 0; fid = 3 })

abbrev for_seven : VariantStorage
for_seven = f_hdr (record { type = 117; tag = 0; fid = 0 })

abbrev start : Mux Pending
start = record { client = client; async = λ r. false; muxer = none; net = for_seven ∷ [] }

abbrev sent : Client
sent = (found 8 1 (new_rpc 8 client)).1

tag_of_eight : gettag 8 (new_rpc 8 client) ≡ ok (some 1, sent)
unfolding gettag take_tag found search
tag_of_eight = refl

own_tag : (header_of (with_tag 1 request)).tag ≡ 1
unfolding with_tag
own_tag = refl

muxrpc-serves_example :
    (c : Client) × (served : Served 8 ((7, for_seven) ∷ []) (7 ∷ []) client c) × (muxrpc echo
        next_reply 4 8 request start
      ≡ some (
        ok (some (stored (with_tag 1 request))),
        record start { client = c; muxer = first_awake (λ r. false) served.sleepers; net = [] },
      ))
muxrpc-serves_example =
    muxrpc-serves echo next_reply ((7, for_seven) ∷ []) 4 8 1 request (with_tag 1 request) start
      sent (for_seven ∷ with_tag 1 request ∷ []) (with_tag 1 request ∷ []) [] (7 ∷ [])
      client-IsClient client-IsRing client-IsIdle (λ e. omega (arith, e))
      ((λ e. omega (arith, e)), tt) refl tag_of_eight refl ((inl refl, (0, refl, refl)), tt)
      (tt, tt) (_, refl, refl) refl own_tag (omega arith) (omega arith)
