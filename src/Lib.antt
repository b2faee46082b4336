-- ===== src/Lib.antt =====
-- gAgent: a library for agents in C++, with a platform of directory services.
--
-- The parts. An agent runs behaviours, each in a thread of its own (src/core,
-- include/gagent/core). Behaviours send ACL messages over a transport (src/messaging,
-- include/gagent/messaging). The FIPA protocols are behaviours (include/gagent/protocols). The
-- platform (platform) keeps an AMS with the agents, a DF with their services, and a registry of
-- slave platforms with a watchdog that removes what belonged to a slave that is gone.
--
-- Base has the shared names, lists, integers, texts and std::map as a list of entries in the
-- order of their keys. Messaging models include/gagent/messaging and
-- src/messaging/ACLMessage.cpp: Message the record and `createReply`, Performatives the names,
-- Quoting `escapeString` with the string rule of src/messaging/fipa_acl.l, Transport the
-- interface ITransport with the laws of a transport that keeps a queue for each name, Mock the
-- in-memory bus, an instance of that interface, Text the text form of messages: Printer
-- `toString`, Lexer src/messaging/fipa_acl.l, Parser src/messaging/fipa_acl.y as an automaton
-- over tokens, Mq the caches of sockets of include/gagent/messaging/AclMQ.hpp, and its child
-- Receiving the loop of `acl_receive`, with Delivery for both ends of a pipe of ZeroMQ; Zmq is
-- include/gagent/messaging/ZmqTransport.hpp, the transport over them. Core models
-- src/core/Behaviour.cpp and `Agent::exthread` of src/core/Agent.cpp: Behaviour the virtual
-- methods and the thread, Timers the simple behaviours, Sequential, Parallel and Fsm the
-- composites, Lifecycle the requests, signals and control thread of src/core/Agent.cpp, Threads
-- its registration and the threads that `_init` runs, Migration the message of a migrating agent
-- and `handle_migration` of src/core/AgentFactory.cpp, Ids the identifiers of
-- src/core/AgentID.cpp and the registration by src/core/DFService.cpp, Factory
-- include/gagent/core/BehaviourFactory.hpp. Protocols models include/gagent/protocols: Request,
-- ContractNet (the initiator, and its child Participant) and Subscribe (the subscriber, and its
-- child Publisher). Platform models platform: Input what the servers use of istringstream, Slaves
-- and Watchdog SlaveRegistry.cpp, Ams and its child Server ams/AMS.cpp, Df df/DF.cpp, Config
-- src/platform/PlatformConfig.cpp with `write_config` of platform/main.cpp, Clients with its
-- children Ams and Df src/platform/AMSClient.cpp and DFClient.cpp, Control the control server of
-- platform/main.cpp, Startup the start of a platform there and what a slave tells its master,
-- Manager the commands of platform/manager/Manager.cpp, with its tables in Manager/Printing. The
-- parts meet in Manager/Delivery (the manager, the AMS and a control server), Manager/Gates
-- (these and the threads of an agent), Startup/Session (a slave and its master), Startup/Beats
-- and Startup/Stop (heartbeats, the watchdog and the end of a slave over time). Env models
-- src/env/Environnement.cpp: Nsap the stack of snapshots, Attributs the attributes that
-- src/core/Agent.cpp reports and their parser, Reports the queue of reports and what a report
-- does, Json the answers to a client, Visual what is drawn; Client is src/platform/EnvClient.cpp.
-- Utils/Logger is include/gagent/utils/Logger.hpp, with its lines of JSON in Utils/Logger/Lines.
-- Tests has the concrete runs.
--
-- State is passed explicitly: a method is a function from the fields of its object and the world
-- to both. A pointer to a behaviour is a number, and a function gives the methods behind it.
-- Virtual methods that programs override are fields of records of functions. What a mutex guards
-- is one step. The thread of a behaviour is an inductive relation (Runs); the loop with fuel
-- (exthread) is its executable form. The busy wait of the timers has as much fuel as its limit in
-- nanoseconds, which is enough for a clock that moves at each reading. The lexer has one unit
-- more than the text has characters, of which each match takes one at least. The loop of
-- acl_receive has more fuel than its timeout has nanoseconds, for a clock that moves on in every
-- poll. Times and counts are natural numbers: the counters of the protocols are bounded by the
-- messages that are received, and the sequence number of the snapshots, an int of 32 bits, by the
-- calls of push.
--
-- Parameters: the clock, the liveness of a process (kill with signal 0), sigqueue, the transport
-- of the protocols, the callbacks of programs, the answers on connections, the creators of
-- agents, the calls of ZeroMQ, the floats of C++. Not modelled: the sockets below them and their
-- opening, the creation of processes and threads, the parsing of options by Boost, the help that
-- the manager prints, where programs call the log, the positions in error texts, the loops of the
-- environment's queue and socket, the Python bindings and the graphical view.
pub mod Base
pub mod Messaging
pub mod Core
pub mod Protocols
pub mod Platform
pub mod Tests
pub mod Env
pub mod Utils
