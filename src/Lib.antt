-- ===== src/Lib.antt =====
-- The stream cloud in antt: the services of the manager, of the platform and of a device's program,
-- and the messages they exchange.
--
-- The program is a set of actors that run over web sockets. A client sends a JSON-RPC message over a
-- web socket to the router of a manager (modules/stream-manager/src/router.cpp). The router turns a
-- request into a task (modules/stream-api/src/task.hpp) and hands it to a service of the same manager:
-- users.cpp checks the key of the user and hands the task back to the router, which then hands it to
-- devices.cpp, groups.cpp, connections.cpp or subscriptions.cpp. A service answers over the web socket
-- that the task came from, or hands the task on to another service. A device that is connected gets
-- requests from devices.cpp, and its notifications go to its subscribers through subscriptions.cpp.
--
-- A manager can be behind a platform (modules/stream-platform/src), to which it connects as a client.
-- The platform's router hands a request that names a manager to managers.cpp, which sends it over the
-- manager's connection; the manager's platform.cpp takes it from there and hands it to the router of
-- the manager as if it came from the client. What the manager sends to that client goes back through
-- platform.cpp and the platform. Other requests go through profile.cpp, as a manager's through
-- users.cpp. A device's program (modules/stream-device/src) connects to a manager in the same way.
--
-- Files, and the code that they model:
--   Prelude            tests, lists and options; Prelude/Maps has std::unordered_map and
--                      std::unordered_set as lists
--   Api/Action         a handler: state passing, an outbox of messages, and exceptions
--   Api/Libraries      the JSON library, sqlite and boost::split, as an interface
--   Api/Rpc            modules/stream-api/src/json-rpc.{hpp,cpp}; Api/Rpc/Laws has its theorems
--   Api/Message        modules/stream-api/src/{transport_base,websocket,error,task}.*, and how a
--                      handler sends and answers
--   Api/Database       how a handler runs a statement
--   Api/Effects, Api/Answers  rules for properties of handlers, which follow a handler's form
--   Manager/Users, Groups, Connections, Subscriptions, Devices, Router
--                      the files of the same name in modules/stream-manager/src: the state is the
--                      class `impl`, and a function with the name of its command is each handler that
--                      the constructor attaches; the modules below each file have its theorems
--   Manager/Platform   platform.cpp of the same folder
--   Manager/GroupKeys  the lists of group keys in connections.cpp and subscriptions.cpp
--   Core/MailQueue     modules/stream-core/src/messaging/blocking_mail_queue.cpp
--   Core/Executor      modules/stream-core/src: `run`, `launch` and `send` of actor/async_actor.cpp,
--                      `worker::run` of executor/worker.hpp and `enqueue` of
--                      executor/policy/work_sharing.hpp
--   Core/Actor         of the same folder: behavior/{reactions,type_action}.cpp, actor/local_actor.cpp
--                      and the handlers in standard_handlers
--   Manager/Pipeline   a request from the router through users.cpp and back
--   Platform/Managers, Profile, Router
--                      the files of the same name in modules/stream-platform/src; Platform/Pipeline
--                      is a request from the router through profile.cpp and back
--   Device/Manager, Control
--                      the files of the same name in modules/stream-device/src
--   Relay              the programs together: Request and Reply are the way of a client's request to a
--                      manager and back, Session how a manager comes and goes, Control, DeviceReply and
--                      Command a user's command to a device, Leaving the message to disconnect
--   Core/Graph, Space, Group
--                      modules/stream-core/src/environment: adjacency_list.hpp, storage_space.cpp and
--                      abstract_group.cpp
--   Network/Session, Listener, Client
--                      the web sockets: ws/ws_session.cpp and ws/ws_listener.cpp in
--                      modules/stream-providers/src, ws/ws_client.cpp and ws/ws_session.cpp in
--                      modules/stream-client/src; the network library is what the code asks it for
--                      (Effect), and what it reports is an argument
--   Network/Http       http/listener.cpp and http/http_session.cpp of the same folder: Target has the
--                      paths and types, Server the answer to a request, Session the queue of responses
--   Toy                concrete libraries for the tests
--   Examples           the services at concrete inputs
--
-- How the code is modelled. A handler is a function from the state of its service to a result, the
-- state after it, and the messages that it has sent, in their order. Its result is `ok`, `threw` with
-- the text of an exception that leaves the handler, or `undefined` where the code's behaviour is
-- undefined. What a handler has changed and sent before it throws stays. An actor runs one handler at
-- a time, so that a handler is one step. The order of a list stands for the iteration order of a hash
-- map. A missing key reads as the code reads it: `operator[]` of a map puts an empty value there, and
-- `at` throws. `send` to a contact that the actor does not know throws, as `addresses` does.
--
-- What is a parameter. The JSON library is the record Json, with its documented laws in JsonLaws: a
-- map keeps what is put into it, and conversions give back what was converted. A database is what a
-- statement's text and bound values give: rows, a number, a new database, or an exception. The text of
-- a split key, the contacts of an actor, and the commands that a contact has handlers for are
-- parameters too. Toy instantiates them all. For the HTTP server, boost's comparison without regard to
-- the case and what comes of opening a file are parameters.
--
-- In Core the messages, and what a handler does with one, are parameters. The mutex of a mail queue
-- makes `put` and `get` single steps. A run of an actor is one step of the executor: senders and the
-- worker take their steps between runs, so that a run never sees a message that came while it ran. A
-- send is two steps, the put and the submit, in Core/Executor/Interleaved. The theorems there are
-- about one worker.
--
-- Bounds. The loops of the services go over lists. The loop of `run` recurses on the throughput that is
-- left, since each round handles a message or returns. Its last loop, `cache_all`, has as fuel the
-- number of messages in the mailbox and one more: each round takes one message out, and the last
-- round finds none (cache_all_lem in Core/Executor/Finish). The loop of `launch` has as fuel any number
-- above that of the messages of the actor, if its handlers send it none: each run but the last takes
-- as many messages as the throughput (Core/Executor/Launch).
--
-- The binary searches of the graph go over lists; on a sorted range they are what std::binary_search,
-- std::upper_bound and std::lower_bound are, and the theorems show that the ranges are sorted. That a
-- text is read back as the map that was written is a hypothesis on the very texts that a theorem is
-- about: the JSON library reads integers of 32 bits and reals of single precision, so that it is not
-- true of every map. A column that a callback reads and the statement does not have is undefined.
--
-- Not modelled: the rest of modules/stream-core (cooperations, blocking actors, threads), the main
-- functions, which connect the actors, the reading of configuration files, the timer of the
-- HTTP sessions, what a session of the web socket server reads, the service of manager information, and
-- the start and stop hooks of the services, which create the tables.
mod Prelude
pub mod Api
pub mod Core
pub mod Manager
pub mod Device
pub mod Network
pub mod Relay
pub mod Platform
mod Toy
mod Examples
