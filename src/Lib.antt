-- ===== src/Lib.antt =====
-- A verification library for go-ldlm, a lock server for distributed programs.
--
-- The parts, from the inside out, and the files that model them:
--   lock/lock.go                   Lock.antt, Lock/Threads.antt: one lock with `size` slots
--   lock/manager.go                Manager.antt: locks by name in shards, and their collector
--   timer/timer.go                 Timer.antt: timers by key
--   server/session/session.go,
--   server/session/types.go,
--   server/clientlock/clientlock.go  Session.antt: which session holds which locks, and its storer
--   server/server.go, server/types.go  Server.antt, Server/Startup.antt: the requests, and
--                                  the reload of saved locks, over the three parts before
--   net/grpc/grpc.go               Grpc.antt, Grpc/Codes.antt: the gRPC handlers and error codes
--   server/session/store/store.go  Store.antt: the file that the storer keeps its map in
--   net/rest/rest.go, net/rest/types.go  Rest.antt, Rest/Types.antt: the REST gateway, its sessions
--                                  and their timers; Rest/Service.antt puts it before the gRPC service
--   config/config.go, config/type_handlers.go  Config.antt, Config/Types.antt: the settings of a
--                                  program, and the layers that they come from
--   net/security/security.go       Security.antt: the TLS settings of the services
--   client/client.go               Client.antt, Client/Dial.antt, Client/Requests.antt,
--                                  Client/Goroutine.antt: the Go client, its New, its requests, and
--                                  the goroutines of its refreshers
--   server/ipc/ipc.go              Ipc.antt: the calls of the command line tool
--   server/ipc/server.go, net/net.go, and Run of net/grpc/grpc.go and net/rest/rest.go
--                                  Program.antt: the listeners, their start and their end
--   cmd/server/main.go             Program/Main.antt: the server program over all of these
--   cmd/lock                       Command.antt: the commands that list and unlock locks
-- Errors.antt has the errors and contexts of all of them, Common.antt the shared types and lemmas:
-- maps with string keys as association lists, 32-bit integers as an integer type (the one operation
-- on them, the subtraction of 30 in refresher.Start, stays in range), and methods as functions from
-- a state to an outcome and a state. An outcome is a result, a panic, or a call that blocks forever.
--
-- State and operations. A record has the fields of the struct that the code changes; a method is
-- named after the source's, in snake case, and takes the receiver's state last. A method that
-- holds a mutex from start to end is one step. Lock waits, so it is split: up to the wait, and one
-- event of its goroutine; Server/Steps.antt runs requests, waiting Locks, timeouts and disconnects of
-- the server in any order. Lock/Threads.antt models a lock's goroutines one channel operation at a
-- time, in any order. A call of the server is likewise one step, though the source can interleave
-- two calls between their inner methods. So is a call of the lock manager, though its collector can run
-- between getLock and the method of the lock.
--
-- Parameters, for code outside the repository: the hash of package hash/fnv, the clock (`now`, in
-- nanoseconds), fresh keys (uuid), the text of an integer (fmt), and the storer behind the session
-- manager, with the laws IsReliable: a write succeeds and the next read gives what was written, with
-- empty lists for nil ones. Session/Memory.antt meets them, and Store/Reliable.antt shows the same of
-- the file for the maps that the codec can write. The file's codec, the packages benc and bstd, is the
-- record Benc of Store/Codec.antt with the laws IsBenc, which the codec of Store/Cells.antt meets; the operating system is the record FileSystem.
-- The settings take the record Host: strcase, pflag, json, yaml, and FieldByName of reflect;
-- the TLS settings of server and client the record Crypto: crypto/tls and crypto/x509, and the
-- client's New takes the error of grpc.NewClient. The lock command takes what kong, rpc.DialHTTP and
-- the connection give, with errors that cross the connection as texts.
-- The server program takes the record System of Program/Os.antt, for packages os, net and runtime,
-- with the laws IsSystem, which the tables of Program/Tests.antt meet. A Lock that waits needs the
-- laws IsWaitable of the lock manager, which Manager/Waits.antt proves of lock/manager.go.
-- The REST gateway takes the multiplexer of package runtime, base64, JSON and the text of an address.
-- The server is over any lock manager with the laws IsLockManager, which Manager/Interface.antt fills
-- for lock/manager.go.
--
-- Fuel. The loop of rpcWithRetry takes fuel, and the client's requests give one more than the
-- retries that are allowed, one for each attempt. The read loop of the store gets one more than the
-- bytes of the file, and a Read that is not at the end gives at least one. strings.Split gets the
-- bytes of its text, of which each round but the last takes some.
--
-- The REST gateway's two kinds of mutex are Booleans: a call that has to wait for one blocks, with
-- what it did before. Rest/Runs.antt runs its requests, its timers and their functions in any order.
--
-- Not modelled: the stress test and the examples, which call the
-- client, and the options of the gRPC library. Input, output, logging and generated code (protos)
-- have no logic of their own here. Durations are natural numbers: the product of a timeout and a
-- second, and the sum with the clock, fit in 64 bits for every 32-bit timeout.
pub mod Common
pub mod Errors
pub mod Lock
pub mod Manager
pub mod Timer
pub mod Session
pub mod Server
pub mod Grpc
pub mod Client
pub mod Ipc
pub mod Store
pub mod Rest
pub mod Config
pub mod Security
pub mod Program
pub mod Command
