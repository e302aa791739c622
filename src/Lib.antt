-- ===== src/Lib.antt =====
-- BitATM: the server of an end-to-end encrypted messenger, the protocol that it shares with its
-- client, and the client less its QML.
--
-- A client opens a WebSocket; ConnectionHandler::handleRequest (backend/src/Server.cpp) reads
-- frames from it, parses each into a Packet (common/protocol.h, backend/src/ProtocolParser.cpp),
-- asks PacketHandlerFactory for the handler of its type and runs the handler's three steps,
-- validate, authorize and execute (backend/src/ICommandHandler.h). Handlers read and write the
-- tables through repositories and find the sessions of online users in the server's client map.
--
-- Prelude   strings as lists of bytes, int as a bounded integer, std::stoi, std::to_string
-- Error     the exceptions of common/AppException.h, Poco::Exception and other std::exceptions
-- Packet    PacketType and Packet of common/protocol.h
-- Wire      operator>> of common/protocol.h over a model of std::istringstream (Wire/Stream), and
--           ProtocolParser::serialize and deserialize of backend/src
-- Db        the tables of db/migrations, with the classes and structs that rows are read into
-- World     the state that handlers share, and the environment that decides what the database,
--           the sockets, the clock and the random source do
-- Action    programs that read and change the world and return or throw; what was done before a
--           throw stays done, as with the source's statements outside a transaction
-- Repo      UserRepository, MessageRepository, OfflineQueueRepository, SessionRepository,
--           GroupRepository (Groups, Receipts) and PendingNotificationRepository of backend/src,
--           one function per method, one `statement` per SQL statement
-- Handler   a file for each *Handler.cpp of backend/src, one `validate` and one execution each;
--           Base is BaseAuthHandler, Password the hashing in LoginHandler and RegisterHandler
-- Server    the client map, the factory with its registrations, the cleanup timer, and the
--           connection loop of backend/src/Server.cpp with ClientSession::receive
-- Client    the Qt client, frontend/src: Storage is LocalStorage over a disk with a file for each
--           account (Sql holds what its statements do to rows), Chat is ChatModel, Conversations is
--           ConversationListModel, Crypto is AesGcmStrategy, RsaOaepStrategy, OpensslAdapter and
--           CryptoEngine over OpenSSL as a parameter, Date is TimestampUtil over QDateTime, Map is
--           QMap, and Network is NetworkManager: the packets it sends (Packets, Messages, Groups,
--           GroupKeys), what it does with those it gets (Login, Incoming, PeerKeys, Receipts,
--           GroupMessages, Invites) and the slots of its socket (Events), in the monad Throwing
-- Tests     the theorems at concrete inputs
--
-- The proofs stand below the module that they are about. Action/Keeps, Leads, Runs, Quiet and Atomic
-- hold the rules for reasoning on actions, each rule for one way to build an action, with a rule set
-- for the proof search; Server/Ordered and Server/Reject go through all handlers. For the client
-- Client/Throwing/Keeps has such rules.
--
-- A handler runs from a world to a world. The packets of several connections are handled one after
-- another: the mutexes and the interleaving of two handlers inside one packet are not modelled.
-- Every failure of a statement, of the session pool or of a send is possible at every step, since
-- the environment is a function of the step; no theorem fixes it unless it says so. The SERIAL
-- columns are unbounded. std::sort keeps the order of equal elements here. The list of frames a
-- connection receives is finite, so its loop is structural recursion, and there is no fuel.
--
-- In the client each SQLite statement and each call of OpenSSL may fail at every step, too; the
-- failure of a statement is logged only, and a database whose schema fails stays open. A QString is
-- its UTF-8 text and never null.
--
-- The client's slots run one after another, each to its end; what it asks of its socket, and the
-- signals it emits, are lists. The order of QMap is taken to be that of the keys' bytes.
--
-- Not modelled: the notifications of Qt's views, PacketBuilder, and the QML of the client;
-- the entities' serialize and deserialize, which the server does not call; start-up, logging
-- and the HTTP upgrade; PostgreSQL, Poco, Qt and OpenSSL, whose behaviour is the environment's.
mod Prelude
pub mod Error
pub mod Packet
pub mod Wire
pub mod Db
pub mod World
pub mod Action
pub mod Repo
pub mod Server
pub mod Handler
pub mod Client
pub mod Tests
