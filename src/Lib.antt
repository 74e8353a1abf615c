-- ===== src/Lib.antt =====
-- A verification library for CoroIOMultiplex, a C++ library of coroutines on a thread pool with
-- epoll and io_uring, and the HTTP server on top of it.
--
-- The parts of the program, and how they meet. A threadPool runs coroutines from one queue for each
-- thread. A coroutine gives its turn away by adding itself again, or waits for a completion that
-- reapIOs of the uringInstance turns into an added task. The server's clientHandle reads a request,
-- parses it by httpRequest, and starts a task that builds an httpResponse, looks the file up in
-- the lruCache, and sends the head and the file. The older, epoll based server
-- (httpHandle) reads by httpRequest::readRequest, which keeps what came so far for each descriptor;
-- acceptAll makes a handler for each socket, and the echo server has the simplest one.
--
-- Files, with the paths of the repository:
--   Http/Status        include/http/Http.hpp: httpErrc, its messages, httpMessage, httpRequest's data;
--                      checkMethod and checkVersion of src/http/Http.cpp.
--   Http/Request       src/http/Http.cpp: parseFirstLine, parseHeaders, parseResquest. Lines, Total,
--                      Headers, Outcomes, RoundTrip, Accepted and Sound hold its proofs.
--   Http/Socket        include/http/Socket.hpp: socketError and reactorSocket's calls;
--                      include/utils/ErrorHandle.hpp: checkError.
--   Http/Accept        include/http/Socket.hpp: acceptAll; Registered holds its proof.
--   Http/Receive       src/http/Http.cpp: getBuffer, eraseBuffer, readRequest. Buffers, Ends,
--                      Resume and Pieces hold its proofs.
--   Http/Paths         what src/http/Http.cpp uses of std::filesystem::path. Pieces and Join hold
--                      its lemmas.
--   Http/Response      src/http/Http.cpp: the constructor of httpResponse, and serialize. Confined,
--                      Accepts, Crash and Serialize hold its proofs.
--   Lru                include/utils/Lru.hpp: lruCache's get, put and refresh. Abstract is what the
--                      cache promises; Nodes, Hit, Evict, Invariant, Refines and Runs hold its proofs;
--                      Factory is cacheFactory and the capacity.
--   Async/Pool         include/async/Loop.hpp: addTask, runTasks, cleanTasks. Bound is the invariant;
--                      Add and Clean are single calls, Many is several calls in turn, Counts how
--                      often a task is queued, History any sequence of calls, Fifo the order of
--                      each queue, Waiting how long a task waits, Threads which task each thread
--                      resumes, Turns tasks that give their turn away, Launch the constructor
--                      against its threads; Crowds has bindings for the tests.
--   Async/Locks        include/async/Loop.hpp: where a thread stands between two calls on a mutex,
--                      what it holds there, and its moves. Apart and Exclusion are what the locks
--                      keep apart, Ranks and Progress that they block nothing, Writers what a mutex that
--                      prefers writers does.
--   Async/Tasks        include/async/Tasks.hpp: promises, awaiters and Task; Chain holds the proof.
--                      Yields is a coroutine that yields.
--   Async/Epoll        include/async/Epoll.hpp: epollInstance. Sockets is the pool with the sockets that
--                      are watched and the coroutines that hold them; Watched, Rounds, Ends
--                      and Stale hold its proofs.
--   Async/WhenAll      include/async/WhenAll.hpp: whenAllHelper, whenAllAwaiter, whenAllImpl;
--                      Gathers and Returns hold the proofs.
--   Async/Traits       include/async/Traits.hpp: the concepts, AwaitableTraits, and the types of
--                      whenAll; CoAwait and Language compare them with co_await.
--   Async/Timers       include/async/Timer.hpp and src/async/Timer.cpp: timerAwaiter, sleepUntil, sleepFor.
--   Uring              include/async/Uring.hpp: userData, reapIOs, the prep functions;
--                      include/uring/Socket.hpp: the awaiters; Accepting is asyncAccept. Flights is
--                      the pool and the ring together, and where each coroutine is; Once and Read
--                      hold its proofs, Completion and Wakes the other ones.
--   BufferPool         include/utils/BufferPool.hpp: getBuffer and returnBuffer; Laws has single
--                      calls, and Scans the calls of several threads at once.
--   Server             demo/uringhttp.cpp: readRequest, responseHandler, its send loops, clientHandle.
--                      Handle is the loop of clientHandle, Runs its sends, Clients the requests as
--                      clients write them, Stored the answers over the file cache; Reads, Sends, Answers,
--                      Named, Sessions, Confined and Stores hold its proofs.
--   Reactor            demo/httptest.cpp: responseHandler and httpHandle. Sessions, Handled, Errors
--                      and Mappings hold its proofs.
--   Echo               demo/epolltest.cpp: writer and echoHandle; Writer and Conserves hold the proofs.
--   Files              include/file/File.hpp and include/file/FileCache.hpp: open, map, build and the
--                      destructors; Cached is the LRU cache with that builder, Dropped what a
--                      cached file gives back, Throws the builder where file_size may throw,
--                      Fetched what it gives, and Lookups the proof about it.
--   Descriptors        socketBase of include/http/Socket.hpp and regularFile of include/file/File.hpp as
--                      the holders of descriptors; Owned and Lost hold its proofs.
--   Setup              include/http/Socket.hpp: serverSocket; the constructors of epollInstance and
--                      uringInstance; Programs is main and co_main of the servers under demo.
--                      Launched and Starts hold its proofs.
--   Prelude            shared types and lemmas. Each component's Tests are runs at concrete inputs.
--
-- How the code is read. A function is called by the source's name in snake case. State that a call
-- changes is an argument and a result. Texts are lists of bytes. tl::expected is Expected, and an
-- error code is a number in a category; errno has the numbers of Linux. What the operating system
-- gives is an argument: Answer for a call, a list of answers for a loop that calls again. Out of
-- bounds, the end() of a list and a missing key are `none`. Where several threads meet, a call that
-- holds its locks is one step, but for Async/Locks, where each call on a mutex is one. Task handles
-- are numbers, and a handle that was destroyed is not used again for a new coroutine; list
-- iterators are node numbers. Inheritance is flattened. std::map is a list in the order of its
-- keys, std::unordered_map a function with a count.
--
-- Fuel. header_loop has one more than the length of the text, and each round removes two bytes or
-- more; decimal_loop has one more than the number, which each round divides by ten. Loops over
-- answers end with `none`, or a constructor that says so, when the answers do. A size_t has 64
-- bits, and its difference wraps. A std::filesystem::path that is a key of the file cache is its text
-- with single slashes.
--
-- Not modelled: the loop that whenAll names (loopInstance, which the repository no longer has, and
-- whose runAll is a parameter), the narrowing of a size to int in the calls of reactorSocket, debug
-- output, and the other demos.
pub mod Prelude
pub mod Async
pub mod Http
pub mod Lru
pub mod BufferPool
pub mod Uring
pub mod Server
pub mod Files
pub mod Descriptors
pub mod Echo
pub mod Reactor
pub mod Setup
