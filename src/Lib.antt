-- ===== src/Lib.antt =====
-- RRPG is a small role-playing game for a network of players: a server and a console client that
-- talk through RakNet. Players connect, introduce themselves, say that they are ready, choose a
-- class in turn, and then heal and attack each other in turn until one is left alive.
--
-- The program's parts and the files that model them:
-- * Include/RRPG_MessageIdentifiers.h, Include/RRPG_Player.h and GetPacketIdentifier: Protocol and
--   its children MessageId, PlayerData and Identify. The values of RakNet's own identifiers, which
--   both programs switch on, are positions in RakNet/MessageIds.
-- * RRPG Server/server.h and server.cpp: the record `Server` in Server.antt has the members of the
--   class. Each method is a function of the same name in snake case, in Server/Broadcast
--   (BroadcastMessage, ModifyHealth), Server/Turn (NextTurn, GameOver), Server/Game (StartGame,
--   StartMainGame and the streams that list the players), Server/Handlers (the lobby),
--   Server/Actions (OnPlayerJobChosen, OnPlayerActionTaken) and Server/Dispatch (PacketHandler,
--   IsLowLevelPacketHandled, InputHandler, GameLoop, Start). An `Event` is one round of one of the
--   three threads, and `run` takes any list of them.
-- * RRPG/RRPG.h and RRPG.cpp: `Client` in Client.antt, with Client/Input (what is typed),
--   Client/Packets (what arrives) and Client/Dispatch (the loops).
-- * Session relates the two: a packet that one side sends, as the other side handles it, in
--   Session/Intro, Choice, Action, MainGame, Health, Lists, Chat and Talk. Session/Wire has the
--   lemmas on identifiers and streams that all of them use. Session/Join, Lobby, Selection and
--   Opening follow several clients from their connections to the main game, and Session/Battle
--   the actions of the main game.
-- * Session/Pace counts the turns of a client over any rounds of its threads: what is typed in
--   Session/Pace/Typed, what arrives in Session/Pace/Received and Run.
-- * Server/Battle is an abstract view of the main game, and the moves that it allows. It forgets
--   the order of the map, the names, the classes, and what is sent.
-- * Server/Threads relates the server's packet thread to its input thread, which share what is sent
--   and printed.
-- * Server/Invariant has what holds between two steps, Server/Frame what no step takes away and how
--   networkState and gameState change, and Tests concrete players, packets and states.
-- * std::map is StdMap, a list in ascending order of the keys, with its laws in StdMap/Order.
--
-- How the code is modelled. A method is a function from the state to a result: the new state, or a
-- fault. A fault is a failed assert, an exception that nothing catches, a loop without end, or
-- undefined behaviour (a move past end(), a signed overflow, an unset variable, an access outside
-- its block). What is sent and printed is in the state's `out`, the latest first. Random numbers
-- are a stream in the state. Members that a constructor does not set keep what the memory holds, a
-- parameter of `construct`. An `int` is an integer whose overflow is a fault, and an unsigned short
-- wraps at 65536. A port is an unsigned int, of which a call of RakNet takes 16 bits, and `%i`
-- prints it as an int.
--
-- RakNet is a library that is linked: the record `RakNet` has the calls that the program makes,
-- `RakNetLaws` what it relies on (what is written is read back, a byte that is read is in range, a
-- decoded text is shorter than its buffer, a stream is padded to bytes). Tests/Net has a concrete
-- network that satisfies the laws.
--
-- Bounds: the loop of NextTurn runs on fuel for two rounds over the map and two steps more, so that
-- it passes every player once from any iterator; running out of it stands for the endless loop. The
-- searches for a port take fuel as an argument, since only the system knows how many ports are in
-- use: the client's counter wraps at 65536, and so much fuel suffices; the server's needs as much as
-- ports are in use.
--
-- Not modelled: the mutexes and a finer interleaving than whole rounds; the end of the threads; and
-- `std::cin >>` in Start beyond the values read.

pub mod Common
pub mod RakNet
pub mod Protocol
pub mod StdMap
pub mod Server
pub mod Client
pub mod Session
pub mod Tests
