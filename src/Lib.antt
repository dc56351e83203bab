-- ===== src/Lib.antt =====
-- A model of the Lux network runner, a server that runs networks of luxd nodes on one machine, with
-- the theorems on it.
--
-- The server (server/server.go) takes requests, checks them, and calls the network that it controls.
-- A network (local/network.go, local/node.go) keeps its nodes in a map by name; starting a node
-- completes its configuration, picks a name, ports and directories, writes its files
-- (local/helpers.go), builds the arguments of luxd and starts a process. Configurations of networks
-- and nodes (network/config.go, network/node/node.go) are checked before use.
--
-- Parts:
--   * Config: the configurations, `Config.Validate` of network/config.go and network/node/node.go, and
--     NetworkIDFromGenesis of utils/utils.go.
--   * Local.Types: localNode and localNetwork. Local.Entries, Local.Ports, Local.Files:
--     getConfigEntry and addNetworkFlags, getPort and getFreePort, writeFiles and makeNodeDir of
--     local/helpers.go. Local.Args: buildArgs, and in Local.Args.Versions getFlagsForLuxdVersion.
--     Local.Names: setNodeName. Local.Add: addNode. Local.Ops: removeNode, pauseNode, resumeNode,
--     restartNode, stop, and the exported methods around them. Local.Process: a process and its
--     goroutine (local/node_process.go), as a step relation with any number of callers of Stop.
--     Local.Load: newNetwork, NewNetwork and loadConfig of local/network.go. Local.Defaults:
--     NewDefaultConfigNNodes. Local.Ops.Presence: an abstract view of a network, with each name absent,
--     running or paused, and what each operation may do to it. Local.Snapshots: local/snapshot.go.
--     Local.Choice: getNode of local/blockchain.go. Local.Chains: the other functions of that file,
--     and `healthy` of local/network.go, over the record `Api` of what they call of a wallet and of
--     the API clients.
--   * Utils: checks of paths and VM names of utils/utils.go, SetJSONKey of utils/json.go, and
--     the check of a subnet's participants.
--   * Server: the handlers of server/server.go. Server.State has the server's fields and the steps
--     that handlers share, Server.Lifecycle the handlers that start and stop a network, Server.Nodes
--     those on nodes, Server.Chains those on blockchains, subnets and validators, Server.Queries the
--     others, Server.Waiting WaitForHealthy, Server.Configs createConfig of server/network.go,
--     Server.Network the other methods of that file, and Server.Specs the conversion of requests.
--     Server.Requests is one request of any kind, and has the theorems on sequences of them.
--   * Host: what the program calls and does not implement, as a record: the file system, processes,
--     ports, JSON, keys, beacons, time. Server.Runner: what the server calls of its network.
--   * Prelude: dictionaries, decimal numerals, and actions, which are functions from a state to a
--     result and a state; what was written before an error stays written.
--   * Examples: a concrete host, network and server, on which the theorems' hypotheses hold.
--
-- Correspondence: a Go map is a list of pairs in which the first entry of a key counts, so that the
-- order of iteration is one of many that Go allows. A lock is held for the whole of a method, so that
-- a method is one step. Where a node's configuration is copied, the copy has the maps of the node, and
-- writes to them are written to the node's too; that a caller may give one map to several nodes is not
-- modelled, and the theorems on resuming and restarting say nothing of the maps of other nodes.
-- Integers are natural numbers with the wrap written out. Errors are values of one type, with the
-- place where they arise; texts of errors are left out, and so are log messages.
-- A Go panic is one of these errors, so that a caller's error path is taken after it, which in Go it
-- is not.
--
-- Bounds: the loop of setNodeName runs on fuel, one round more than there are nodes, which is enough
-- as long as the counter does not wrap. The loop of getFreePort has as many rounds as fit its timeout,
-- a number that the host gives. A loop that waits for a chain makes `wait_rounds` + 1 rounds, the polls
-- that fit its deadline, and `healthy` makes the turns that the Api gives until its context is done;
-- both end in an error after the last one, as the source does.
--
-- Not modelled: newWallet and wallet.reload of local/blockchain.go, which only call a library;
-- starting and signalling of processes (local/node_process.go); the peers of a node (local/node.go);
-- the reading of the embedded default configuration and NewLuxGenesis; and the streaming of the status
-- in server/server.go. The handlers are modelled over the interface Server.Runner; that Server.Network
-- fills it is not shown. API clients, generated RPC code and the command line are input and output
-- only. A wallet, the file system and the operating system are outside the program.
pub mod Prelude
pub mod Host
pub mod Config
pub mod Local
pub mod Utils
pub mod Server
mod Examples
