-- ===== src/Lib.antt =====
-- Verification of an online judge for C++: a server that registers users, keeps sessions, stores
-- problems with test cases, and compiles and runs the submissions against the cases.
--
-- The parts and how they interact. The handlers (src/handler) parse requests and call the services
-- (src/service): sessions and authentication, problems, and the judge. Services reach the database
-- through the mappers (src/model), which take a connection from the pool (src/db) for each call.
-- Passwords are hashed by src/utils/bcrypt.cpp. Logging and configuration are in src/utils.
--
-- The modules:
-- - Prelude: the shared names, lists and bytes over the native numbers, Boolean tests, decimal
--   print, words. Prelude.Words gives `|` of disjoint fields and `&` with a mask as arithmetic,
--   Prelude.Int the C++ `int`, Prelude.Parse std::stoi.
-- - Bcrypt: src/utils/bcrypt.cpp. Bcrypt.Tables holds kPiP and kPiS, Bcrypt.Base64 decodeBase64
--   and encodeBase64, Bcrypt.Core xorPassword, encryptThroughState, expandKey, eksBlowfishSetup
--   and bcryptCore, Bcrypt.Hash bcryptHash and bcryptVerify. BF_KEY is the record BfKey;
--   BF_encrypt of OpenSSL is the parameter `bf_encrypt`, and the bytes that RAND_bytes leaves are
--   the argument `salt`.
-- - Model: the structs Problem, TestCase, User and Session of src/model.
-- - Executor: src/service/executor_service.cc. Executor.Types holds the result structs,
--   Executor.Output readAll and the comparison of outputs, Executor.Run runTestCase,
--   Executor.Verdict the overall status, Executor.Files makeTempDir, writeFile, compile and the
--   removal of files, Executor.Execute the function execute, Executor.Descriptors the pipe ends
--   that compile and runTestCase open and close, Executor.Limits setChildLimits. The status
--   strings are the enumeration Status. What the operating system answers is data: Child for one
--   run (pipes, fork, whether the write of the input returns, the polls of waitpid with the clock,
--   the chunks that are read and whether they end), Compiler for one call of g++, System for a
--   whole call of execute. A call that blocks for ever is `none` in these functions and `asleep`
--   in execute, which searches for the problem with Mapper.Problems. The file system is the list
--   of the paths that exist.
-- - Pool: src/db/connection_pool.cc and connection_pool.h. Every call holds the mutex from its
--   first to its last access of the state, so the threads' calls are a sequence: Pool has init,
--   shutdown, acquire, release and createConnection as functions of the pool and the state of the
--   client library, Pool.Step the calls as steps, with the connections that are held in a
--   ScopedConnection, and Pool.Wakes with the threads that were woken. The MySQL client is the
--   parameter `Client` of Pool.Mysql, and what its documentation says of handles the record
--   HandleLaws. A call of acquire that waits is the outcome `sleeps`. The condition variable is
--   the number of threads that wait on it: a thread that sleeps is counted, notify_one and
--   notify_all take one or all off, and a thread that is woken is a call of acquire again.
-- - Auth: src/handler/auth_handler.cc and src/service/session_service.cc. Auth.Cookie holds
--   extractSessionId, setSessionCookie and clearSessionCookie, Auth.Session the class
--   SessionManager, Auth.Guard authenticate and requireAdmin, Auth.Login the handlers of
--   registration, login and logout. Auth.Types has the interfaces to the mappers of src/model and
--   to the JSON library, and the reply with the fields of its JSON object. Auth.Cleanup is the
--   background thread of src/service/auth_service.cc, with the tests of its loop as steps.
--   Auth.Account states what the handlers rely on in the database as the record MapperLaws.
-- - Db: how a function uses the database. Db.Exec has the functions as one thread runs them, with
--   the pool and the client library as their state: they return, throw, or sleep, in an
--   acquisition or another call that blocks; `with_connection` is a ScopedConnection with its
--   block. Db.Mysql is the part of the client library that the mappers call, as the parameter
--   `Server`, and Db.Sql the texts of statements with `escape`. Db.Sql.Reader states what the
--   documentation says of escaping as the record EscapeLaws, with a reader of statements, and
--   Db.Store what a server has to do to have a store behind it as the record ServerLaws. Db.Uses
--   and Db.Refines are the rules for the proofs.
-- - Mapper: src/model. Mapper.Users, Mapper.Sessions, Mapper.TestCases and Mapper.Problems are the
--   classes UserMapper, SessionMapper, TestCaseMapper and ProblemMapper, with their statements and
--   functions; Mapper.Spec says what each of them does to a store. Mapper.Connections counts the
--   connections that they hold at once.
-- - Web: Web.Service is src/service/problem_service.cc, Web.Problems
--   src/handler/problem_handler.cc, Web.Admin and Web.Form src/handler/admin_handler.cc. The JSON
--   library is the parameter JsonValues.
-- - Config: src/utils/config.cc and config.h. The YAML library is the parameter Yaml, and a part
--   of load that throws leaves what it set before.
-- - Tools: tools/add_admin.cc and tools/db_reset.cc, from the loaded configuration on.
-- - Submit: handleSubmit of src/handler/submit_handler.cc, which calls the judge. Whether `dump`
--   of the JSON library can write a string is the field `dumps` of the parameter Json.
-- - Logger: src/utils/logger.cc and logger.h, with the lines that reach std::cout, std::cerr and
--   the files as lists.
-- - Main: main of src/main.cc and startServer of src/server/server.cc. Router is
--   src/server/router.cc, with the HTTP library as the parameter Library: what it and the handlers
--   do to the database until `server.listen` returns is the field `listen`.
-- - Examples: concrete runs.
--
-- A std::string is a list of bytes. An int that the program only carries, such as an id or a
-- position, is an integer without wrap; the shift register of the base-64 codec is an int whose
-- bit pattern is kept below 2 ^ 32, with the shifts that the compiler makes of `<<` and `>>`. The
-- shift count of `1UL << logRounds` is taken modulo 64, as the machine does.
--
-- Bounds and fuel. The polling loop of runTestCase gets timeout_sec * 100 + 1 rounds: each round
-- sleeps for ten milliseconds, so a clock that shows this much for every round reaches the limit
-- within them. The hypothesis on the clock is named IsPaced; that the writes and reads of the
-- pipes return as well is Responds. The loops over bytes and cases are recursions on the list;
-- trimTrailing gets a round for each byte. For decimal print n + 1 digits are enough for n.
--
-- Not modelled: how the HTTP library finds the handler of a request, and signalHandler, which sets
-- a variable that nothing reads; what the programs log and print, beyond the logger itself; what
-- the child processes of the judge do behind the fork, beyond their limits. The copy of
-- cpp-httplib in src/utils/httplib.h is another project's library.
pub mod Auth
pub mod Bcrypt
pub mod Config
pub mod Db
pub mod Examples
pub mod Executor
pub mod Logger
pub mod Main
pub mod Mapper
pub mod Model
pub mod Pool
pub mod Prelude
pub mod Router
pub mod Submit
pub mod Tools
pub mod Web
