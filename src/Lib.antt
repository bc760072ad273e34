-- ===== src/Lib.antt =====
-- Verification library for the C programs of this repository.
--
-- The repository has a library of C routines (master/src/utils, master/src/library) below three servers
-- (clientserver), a main program and a receipt program. Clients send bank messages to the server, which
-- gets an audit number for each from the database server and a verdict on its card number from the bank
-- server. Bytes come in through the socket routines, which use the framing routines to find whole
-- messages; a message may be a command, which is split at commas and changes what is logged; texts that
-- functions return live in a ring; lists in memory hold, among others, the names of the threads.
--
-- The modules, and the code that each models:
--   ErrCodes    master/include/defs/errcodes.h, master/src/utils/sysexit.c: error codes and their names
--   StrUtils    master/src/utils/strutils.c: strings and padded buffers (Hide, Words, Buffers)
--   CyclicStr   master/src/utils/cyclicstr.c, fmtstr.c: CyclicStrAdd and FmtStr (Keeps)
--   CreditCard  master/src/library/ccchecksum.c, ccrtns.c: check sums (Luhn, Detects)
--   MsgLen      master/src/utils/msglenrtns.c: message framing (Frames, Complete)
--   Sockets     master/src/library/socketrecv.c, socketsend.c: receiving and sending (Recv, Send)
--   LnkLst      master/src/utils/lnklstrtns.c: linked lists in memory (Linked, Append, Remove)
--   ThrInfo     master/src/utils/thrinfo.c: the list of thread names (Names)
--   Logging     master/src/utils/logrtns.c, logpkgrtns.c: levels and packages (Levels, Packages); what
--               memrtns.c logs
--   Csv         master/src/utils/csvrtns.c: CsvStrLst (Split)
--   Cmds        master/src/utils/cmdrtns.c, logcmds.c, logpkgcmds.c: commands (Levels, Requests)
--   Datm        master/src/utils/datmutils.c: the time as a text (Parse)
--   FmtAmt      master/src/utils/fmtamt.c: an amount as a text (Digits)
--   FmtDate     master/src/utils/fmtdate.c: a date with the name of its month (Shown)
--   MergeGcov   mergegcov/mergegcov.c: merging two coverage reports (Lines, Reports, Loop)
--   Receipt     master/src/programs/receipt.c, receiptval.c: the receipt of a payment (Left)
--   Server      clientserver/myserver.c: the server (Clients, Locks, Steps, Threads: its operations;
--               System: all threads as a step relation; Invariant, Updates, Progress, Core, Handled, Main, Each,
--               Turns: what its steps keep; Safety, Faults, Transaction; Frozen, Idle, Stuck: a blocked
--               main thread; Slots, Places: lists of slots)
--   Backend     clientserver/dbserver.c, bankserver.c: the servers behind it (Clients, Requests: their
--               operations; Limit: all threads; Answers, Audit, Verdict, Stale; Payment: all three servers)
--   Base        shared helpers: tests, lists, integers, bits, outcomes and the C library's strings
-- A function of the code has its name in snake case here: `MsgGetComplete` is `msg_get_complete`. Its
-- state is passed and returned. An `Outcome` is a result, an exit of the process with an error code
-- (`SysExit`), undefined behaviour of C (`fault`), or a loop that was given too few rounds
-- (`out_of_fuel`).
--
-- Bytes are natural numbers below 256 where that matters, a string is the list of its bytes before the
-- null, and a buffer with its length variable is one list. `short` is 16 bits wide with its wrap-around;
-- an `int` is an integer that does not overflow, as the lengths here stay far below its range (the sum of
-- hits in MergeGcov, which may, has its test), and the masks of log levels are 32 bits wide. The loops
-- over linked lists and over tokens run on fuel: rounds in number one or two above the length of the list
-- are enough, and the theorems on them say how many. The merge of reports runs on fuel too, as it need not
-- end. The loop that takes requests out of what was received has one round more than there are bytes,
-- which is enough; numbers of 64 bits are printed with 20 rounds. The other loops are structural; a loop
-- around a system call goes through a list of events, and waits at its end.
--
-- The server is a step relation: a step is one locked section of a thread, with the choice of the client
-- in front of it, or one action of the main thread, and the steps of all threads come in any order. What
-- `poll`, `accept` and the times return, and the bytes of the peers, are arguments of the steps. There are
-- two slots fewer than `maxPoll`, the limit of users and eight. Descriptors are below 1000000, the width
-- of the id of the database server, and the messages to the bank hold no null byte. A thread in a call of
-- `send` takes no step. A client's mutex that is left locked stays so; a thread that locks it is blocked
-- and takes no step any more, and neither does any that then needs the mutex which the blocked thread
-- keeps. `closeClientAtIdx` takes no mutex and in the code may come in between the test and the writes of
-- another thread's locked section; here a close is a part of one step, so the results on the server are
-- about runs in which it does not. The three servers share the routines of Sockets and MsgLen, and the
-- requests of one are those that the others answer.
--
-- Not modelled: the start and the end of the servers, the programs that send test requests to them, what
-- `vsnprintf` makes of a format (its result is an argument), failing allocation, but for a negative size,
-- the log lines of the servers, those in front of an exit and those of the package of memory outside of
-- the commands, the columns of time and thread in a log line, the main program, the database access and
-- the thin wrappers of system calls.
pub mod Base
pub mod ErrCodes
pub mod StrUtils
pub mod CyclicStr
pub mod CreditCard
pub mod MsgLen
pub mod Sockets
pub mod LnkLst
pub mod ThrInfo
pub mod Logging
pub mod Csv
pub mod Cmds
pub mod MergeGcov
pub mod Datm
pub mod FmtAmt
pub mod FmtDate
pub mod Receipt
pub mod Server
pub mod Backend
