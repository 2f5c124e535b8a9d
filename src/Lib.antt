-- ===== src/Lib.antt =====
-- distributePKI: a public-key directory that a cluster keeps by PBFT consensus.
--
-- The program has two parts. src/pbft is the consensus node: a client's request becomes a
-- pre-prepare of the view's primary, prepares and commits of all nodes, and at the quorum of commits
-- the request is handed to the client; every hundredth sequence number is checkpointed; a silent
-- primary is replaced by a view change. src/distributepki is the key server: it checks a client's
-- operation, proposes it to the consensus node and applies what is committed to its key store.
--
-- Which file models what (a file with no folder is one of src/pbft):
--   Pbft/SlotId, Config    common.go: SlotId, Before, BeforeOrEqual, LeaderFor
--   Pbft/Messages          messages.go, common.go: the messages, Slot, the configuration
--   Pbft/Json              messages.go: MarshalJSON and UnmarshalJSON of the four maps
--   Pbft/Library           what is taken from crypto/sha256, encoding/json and openpgp; the node's
--                          immutable fields
--   Pbft/Signing           signing.go: Sign and SignatureValid of each message
--   Pbft/Replies           signing.go: the digest of ClientReply
--   Pbft/Node              node.go: PBFTNode's mutable fields, StartNode's state, the helpers, timers
--   Pbft/Start             node.go: StartNode's keys and peers
--   Pbft/Normal            node.go: handleClientRequest (Requests), handlePrePrepare (PrePrepares),
--                          handlePrepare and handleCommit (Quorums)
--   Pbft/Rpc               node.go, view_change.go, checkpoint.go: the methods that peers call
--   Pbft/Checkpoints       checkpoint.go
--   Pbft/ViewChanges       view_change.go: startViewChange, enterNewView
--   Pbft/NewViews          view_change.go: generatePrepreparesForNewView (Surveying, Leading),
--                          handleViewChange (Leading), handleNewView (Entering)
--   Pbft/Heartbeat         node.go: handleHeartbeatTimeout, sendHeartbeat, heartbeatMessage
--   Pbft/MainLoop          node.go: handleMessages; debug.go: handleDebug, blockUntilUp
--   Util                   src/distributepki/util/shared.go: SendRpc, GetHostname
--   Server/Keystore        src/distributepki/keystore/keystore.go
--   Server/Kvstore         src/distributepki/keystore/kvstore.go
--   Server/ClientApi       src/distributepki/clientapi/interface.go
--   Server/KeyNode         src/distributepki/keynode.go: CreateKey, UpdateKey, LookupKey, handleUpdates,
--                          handleCommit and the two snapshot handlers
--   Server/Http            src/distributepki/keynode.go: handlerWithContext, waitForCommit
--   Server/Commands        src/distributepki/main.go
--   Server/Spawn           src/distributepki/keynode.go: SpawnKeyNode; main.go: StartNode
--   Server/Console         src/distributepki/debug.go: the commands of the console
--   Server/HttpClient      src/distributepki/debug.go: getSignedPut, doPut, doGet
--   Server/Authority       src/mock_authority/main.go: handler, LoadConfig
--   Server/AuthorityMain   src/mock_authority/main.go: main; util/shared.go: ReadPgpKeyFile
-- Fixtures, Runs and the modules whose names end in Examples hold the tests, and the other modules lemmas
-- and theorems. Pbft/Contents is the rule by which a property of every slot is kept through a run: its
-- record IsKept is what has to be shown, and Digests, which does it for the digests alone, and SameRequests
-- fill it. Server/Directory is the
-- key store up to what a lookup finds, and Server/Cluster joins the key server and the consensus node.
--
-- How the code is read. A handler is a function from the node's state to its state. A call to a peer,
-- or a value sent on a channel to the client, is put in front of the list `sent`; the order of effects
-- is that of the code. A handler that can end the process (a nil pointer, an index of an empty list,
-- a call of plog.Fatal) returns an Option, and none is the end of the process; in a cluster with no
-- nodes, where LeaderFor panics, isPrimary is false instead. The main loop takes its
-- events as a list, so a theorem on all lists covers every order of messages, timers and callbacks.
-- A key store's map is nil once a snapshot of JSON's null was taken: KeyNode is a key server with a map,
-- Server one with a map or a nil one, and an assignment into a nil map is the end of the process.
-- A Go map is an association list in which a key stands once; a range over a map follows the list,
-- one of the orders that Go may choose. Log lines have no effect.
--
-- Numbers. Views, sequence numbers and ids are natural numbers: a negative number, which only a
-- malformed message could carry, and the overflow of a 64-bit int are not modelled. LeaderFor's cut to
-- 32 bits is. Where a text is read as a number, in the JSON keys and in the console, an int is its value
-- modulo 2 ^ 64. A digest is one number, a byte string a list of numbers, a duration is in nanoseconds.
--
-- Fuel and loops. Every loop is over a list, but for SendRpc's, which takes fuel: one round is enough.
-- The digits of an int take at most 19 rounds.
--
-- Not modelled: the network and the file system, which are parameters, listening sockets, the buffering
-- of channels, two requests of one digest that wait at once, and the processes of a cluster once they
-- are started.
pub mod Base
pub mod Pbft
pub mod Server
pub mod Util
