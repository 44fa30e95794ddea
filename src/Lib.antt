-- ===== src/Lib.antt =====
-- yatb, a bouncer for FTP: it stands between the clients and a site, passes the control connection
-- through, and takes part in the data connections so that neither end sees the other's address.
--
-- The program's parts. `main` (src/yatb.cc) reads the configuration (src/config.cc) and the white
-- lists, and starts one control thread (src/controlthread.cc) per client, one thread that resets the
-- traffic counters, and on demand a forwarder (src/forward.cc). A control thread takes a site address
-- from a rotating list (src/iplist.cc), logs in, and copies commands and replies between the two
-- control connections; at a PORT or PASV it starts a data thread (src/datathread.cc). Admin commands
-- change the name lists (src/stringlist.cc) and the two white lists (src/whitelist.cc,
-- src/fpwhitelist.cc), which the data thread asks. src/tools.cc holds the helpers of all of them:
-- reading and writing sockets, reply codes, addresses, files, ciphers, digests and texts.
--
-- The files of this library:
--   Prelude, Text     shared names, lists and integers over the native numbers; texts as lists of byte
--                     codes, with the std::string and libc functions that the source uses (find,
--                     rfind, substr, atoi, toupper), and the do-while loop over comma-separated parts
--   Config            src/config.cc: getkey, getentry, readconf; Config/Options is the table of the
--                     calls of getentry, in the order of the source, and Config/Defaults that of the
--                     assignments of the constructor
--   StringList        src/stringlist.cc: CStringlist; AbstractSet is the set that it stands for
--   IpList            src/iplist.cc: CIplist, readlist and getip
--   ListFile          the part that WriteList and ReadList of the two white lists share
--   Whitelist         src/whitelist.cc: CWhitelist
--   FpWhitelist       src/fpwhitelist.cc: CFpWhitelist
--   Platform          src/tools.cc: encrypt, decrypt, hash, filehash, filesize, readfile, writefile,
--                     fingerprint
--   Strings           src/tools.cc: ltrim, rtrim, trim, crcut, upper, correctReply
--   Reply             src/tools.cc: IsNumeric, FtpCode, IsEndline, GetLine
--   Address           src/tools.cc: ParsePortCommand, ParsePsvCommand; src/controlthread.cc:
--                     CreatePsvCommand
--   Transfer          src/tools.cc: control_write, control_read, DataWrite, DataRead;
--                     src/datathread.cc: SWrite, SRead
--   Login             src/tools.cc: Login, over the results of the calls it makes
--   Traffic           src/counter.cc: CCounter; src/tools.cc: trafficcheck; src/yatb.cc:
--                     the rounds of trafficthread
--   Control           src/controlthread.cc: CControlThread::Read, TryRead and Write
--   KillFile          src/tls.cc: kill_file
--   Session           src/controlthread.cc: the session of one client. State is the state and its monad;
--                     Relink is deletedatathread, tryrelink and trytls; Commands, Admin, Configure
--                     and Help are the commands of a client, and Client is the chain of tests that
--                     picks one; LoginReplies, DataReplies and Replies are the same for a reply of the
--                     site; Mainloop is the constructor and mainloop. Configure is reload of
--                     src/yatb.cc too. The other modules are proofs: Keeps and Leads are the logic
--                     of the monad, Invariant is what holds between two rounds, ClientKeeps,
--                     AdminKeeps, SiteKeeps, DataKeeps and Rounds show it for the parts, Whole for
--                     mainloop. Guard, Killed and Names are about the commands of admins, Login, Logins
--                     and Relinked about the login, Passive about the reply to PASV, Reload about
--                     reload
--   DataChannel       src/datathread.cc: the part of dataloop that decides whether a transfer is allowed
--   Tests             every theorem below at a concrete input, and runs of the definitions
--
-- How the code is modelled. A class is a record of its members, a method a function from the old state
-- to its result and the new state. A position in a text is an optional number in place of npos; a read
-- outside of a text or vector is the result none, or undefined. The counter of CIplist is an unsigned
-- number of 32 bits and wraps round; other integers are taken to stay in the range of int, so a text is
-- shorter than 2 ^ 31 bytes. What the sockets answer is a list of answers, used up one by one; when it
-- is empty the code still waits, which is a result of its own. The socket calls keep to their
-- documentation: they take at most what is offered. Arithmetic on double is a parameter, with no law
-- assumed. OpenSSL's digests and Blowfish and the file system are parameters; that enciphering can be
-- undone with the same key is a named hypothesis, IsCipher. Debug output is left out.
--
-- A session is a function on its state: the members of its thread, the globals, the files, and a trace
-- of what it writes, which data threads it starts and joins. Its outcome is that it goes on, that it
-- ends (a `return` from mainloop, or an exception that makethread catches), that the program exits,
-- that it waits for a call that does not return, or that the source reads outside of a text. The counts
-- of commands that were got are flags, since the source only tests them. The rest of the world is the
-- parameter Host: a state of its own, and the results of Read, Write, control_write, trafficcheck, of
-- the calls for sockets and TLS, of Ident, Login and pthread_create, and the texts with traffic and
-- times. What the rounds of mainloop read is a list. The loop of tryrelink that waits for PASS is a
-- mode of the session, in which a round reads the client only. Five copies of the same code, one for
-- each list of names, are one definition with the list as an argument. Sessions
-- are taken one at a time: in mainloop no other thread changes the globals between two rounds, and what
-- is said of one round or command holds for any globals that it starts from.
--
-- Fuel and termination. The loop over the comma-separated parts runs on fuel, one round for each byte
-- of the text and one more; the lemmas in Text/Fields prove that this is enough. Printing a number runs
-- on the number and one more as fuel. All other loops are structural over the text, the list or the
-- answers.
--
-- Not modelled: the rest of the data thread's main loop, and so, in a session, the text that it leaves
-- in admin_msg; opening, accepting and binding sockets, and ident; the destructor of a control thread
-- and syslog; the forwarder; the rest of src/tls.cc (constants and callbacks of OpenSSL); the rest of
-- src/yatb.cc and the command line tools, which are process set-up; the locks, except for rwlock of a
-- control thread; Split and MatchIp, which nothing calls. src/fxpiplist.cc is an older copy of
-- src/whitelist.cc that is not built.
pub mod Prelude
pub mod Text
pub mod StringList
pub mod Strings
pub mod Platform
pub mod Reply
pub mod Address
pub mod Tests
pub mod ListFile
pub mod Whitelist
pub mod FpWhitelist
pub mod IpList
pub mod Transfer
pub mod Traffic
pub mod Control
pub mod Config
pub mod Login
pub mod Session
pub mod DataChannel
pub mod KillFile
