-- ===== src/Lib.antt =====
-- libjyq, a library for the 9P protocol in C++: what it puts on the wire and reads from it, the
-- requests of a server, the calls of a client, and the timers of the server loop.
--
-- A Msg (Msg.h, convert.cc) is a buffer with a position and an end, in one of two modes; the same
-- functions pack a value or unpack one. An Fcall (Fcall.h, message.cc) stores one of the structures
-- of the protocol, and Msg::pack and Msg::unpack put a whole message into a buffer and take it out.
-- A server (request.cc) gets an Fcall from a connection, checks it in Req9::handle against the fids
-- of the connection, calls a function of Srv9, and answers by Req9::respond. A client (rpc.cc,
-- client.cc) gives each of its calls a tag and a place in the ring of sleepers, hands each reply to
-- the call with its tag; a call such as open or stat walks to a file with a new fid, sends its
-- messages and clunks the fid, and a read or a write is a series of TRead or TWrite. srv_util.cc
-- finds files for a server, by a lookup function, and lists directories. timer.cc keeps the timers,
-- and server.cc the connections, that the server loop serves.
--
-- Files, with what they model:
--   Base       names of the libraries, lists and bits over native numbers
--   Types      types.h: message types, the bits of modes and Qids, limits
--   Msg        Msg.h, convert.cc: the state is the record Msg, whose pointers _pos and _end are
--              offsets into the buffer; a function of the source that takes a message is a function
--              from a Msg to a Result, ok with a value and the new Msg or err. A value that is
--              packed in place is an argument, and the value after the call is the result. Packs,
--              Unpacks and Reads are what such a function does when it packs, when it unpacks the
--              bytes of a value, and when it unpacks any bytes; each has a rule for every way to
--              combine functions. Fields has strings, raw data and arrays.
--   Qid, Stat  qid.h, stat.h, with their wire form; Codec is what the two have in common
--   Fcall      Fcall.h, message.cc: the structures, Storage for the variant and Fcall::packUnpack,
--              Message for Msg::pack and Msg::unpack
--   Request    request.cc, Req9.h, Fid.h, Conn9.h, Srv9.h: Handle for Req9::handle, Respond for
--              Req9::respond
--   Rpc        rpc.cc: gettag, puttag, enqueue, dequeue, dispatchandqlock. Slots and Tags are about
--              the table of waiting calls, Queue about the ring of links, Dispatch about replies.
--              Mux has sendrpc, electmuxer and muxrpc over any connection: Electing, Sending,
--              Arrivals (replies to other calls), Awaited, Serving and Answering are the parts of a
--              call. Wire has muxrecv and what sendrpc sends, over the messages of the client and
--              Transport.
--   Util       util.cc: tokenize, and what a char pointer makes of a string
--   Client     client.cc, CFid.h: getFid, putfid, the tests of dofcall and _pread. Session is what
--              a call works on and the monad of the calls; Calls has dofcall, clunk, walk and what
--              walkdir does with a path, Files has open, create, stat, remove, read and write, and
--              Mount has mountfd. The modules called Pool are about the fids that a call leaves.
--   SrvUtil    srv_util.cc, jyq_util.h: srv_clonefiles, srv_verifyfile and srv_walkandclone, which
--              is walk_and_clone and then respond, Readdir for srv_readdir
--   Transport  transport.cc: readn with mread, sendmsg, recvmsg; Chunks has a stream that comes in
--              pieces, and a lost connection; Sending, Receiving and Exchange are about whole
--              messages
--   Loop       server.cc, Server.h, Conn.h: listen, close, prepareSelect, handleConns, serverloop;
--              Handling is about which connections are handled
--   Socket     socket.cc: dial, announce, their kinds unix and tcp, and the table of creators.
--              Descriptors is about what is left open, Port about the port that is looked up
--   Timer      timer.cc, timer.h: settimer, unsettimer, nexttimer
--   Tests      concrete inputs
--
-- Conventions. A byte is a number below 256, and a machine integer a number with its wrap-around
-- written out. An access outside of an allocation, through a null pointer or to a removed fid is
-- bad_access; a C++ exception is exception, and one that leaves a noexcept function, as pfcall is,
-- is terminated. What an uninitialised local holds is a parameter (the field uninit of a Msg, the
-- argument junk of respond and of the calls of a client). What a call of a client changed before it
-- threw stays changed. The counts and iounits of a read or a write, which are converted to int, are
-- below 2 ^ 31; an iounit that open sets is at most _msize - 24. nexttimer gives the uint64_t that
-- it casts to long, and serverloop takes one from 2 ^ 63 on as negative. The pointers to fids and
-- requests are their ids and tags. _omode, a signed char, is the byte that stands for it.
--
-- Fuel. nexttimer, respond, readn, sendmsg, the loops of _pread, _pwrite and muxrpc and electmuxer
-- take fuel and give none when it runs out. nexttimer is given a round per timer and one more,
-- since its callbacks may set timers without end; _pread and _pwrite need count + 1 rounds; respond
-- needs one per flush of a flush, and a flush of its own tag goes on for ever; readn and sendmsg
-- need a round per read or write and one more, and readn goes on for ever on a lost connection;
-- muxrpc needs a round per reply and one more, and one per sleeper for the election. serverloop
-- takes fuel too, since it runs until it is told to stop; handleConns needs a round per connection
-- and one more.
--
-- Parameters. The read and write calls of the system, select, and those on sockets; the clock and
-- the callbacks of the timers; what sends and receives a message, in Rpc.Mux, and muxrpc in Client,
-- as any exchange of a message for a reply; in respond what pack and sendmsg do with a reply, whose
-- results the code makes nothing of; the lookup of files and the function that fills a Stat;
-- Conn9::removeFid and Conn9::removeTag, which the repository declares without a body.
--
-- Not modelled: mutexes and condition variables (a function is what happens while its lock is held;
-- gettag gives no tag where it would wait, and muxrpc no result where its thread would), the
-- overloads on char pointers, the debugging hook printfcall, freefid, the pending requests of
-- srv_util.cc, the directories and users of util.cc, jyqc.cc and error.cc, and of client.cc mount
-- and nsmount, which dial an address, and the destructor.
pub mod Base
pub mod Client
pub mod Fcall
pub mod Loop
pub mod Msg
pub mod Qid
pub mod Request
pub mod Rpc
pub mod Socket
pub mod SrvUtil
pub mod Stat
pub mod Tests
pub mod Timer
pub mod Transport
pub mod Types
pub mod Util
