-- ===== src/Lib.antt =====
-- A verification of the blockchain node: consensus, core data, execution and the parts beside them.
--
-- The node's parts and the files that model them:
-- * hotstuff/ is the consensus engine of one replica. Hotstuff/Types.antt has the interfaces of
--   types.go: the methods of Block, QC and Vote are one record Blocks, which stands for the block
--   store, and IsLawful says what the engine relies on. Hotstuff/State.antt is state.go with one
--   function per method (new_state is newState, add_vote is addVote); the calls of the driver are kept
--   in a log. Hotstuff/Engine.antt is hotstuff.go (on_propose is OnPropose, and so on). Ancestry,
--   Commits, Frames and Runs carry the lemmas, and Safety, Voting and Quorums the invariants.
-- * core/ is the signed data. Core/Crypto.antt is crypto.go over the calls of ed25519, sha3 and base64
--   as a parameter, Core/Validators.antt is validator_store.go, Core/Certs.antt is quorum_cert.go and
--   vote.go, Core/Blocks.antt is block.go and transaction.go. Quorum, Building and
--   Signing have the proofs.
-- * execution/ runs the transactions of a block. Execution/Tracker.antt is state_tracker.go,
--   Execution/Chaincode.antt the interface of a chaincode as a tree of its reads and writes,
--   Execution/TxExecuter.antt is tx_executer.go with the registry of code_registry.go, and
--   Execution/BlkExecuter.antt is blk_executer.go. Bottom, Agreement, Steps and Depth carry the
--   lemmas, and Serial the theorem. Execution/Execute.antt is the entry in execution.go, with the changes of the
--   state as messages; Changes has what they amount to. Execution/Query.antt is Query with state_verifier.go.
-- * execution/bincc/ runs a chaincode as a process. Execution/Bincc/Processes.antt is readwriter.go, with two
--   processes and the pipes between them, Messages.antt is types.go, Programs.antt is client.go and runner.go.
--   Orders has the lemma that the order of steps does not matter, Exchange a message and its answer, Served
--   the chaincode's requests one after the other, and Native the theorem.
-- * consensus/ is around the engine. Consensus/Rotator.antt is rotator.go, with one function per handler
--   and the loop of run as steps over events; Consensus/Views.antt has its invariants.
--   Consensus/Validator.antt and Consensus/Handlers.antt are validator.go with the blocks of state.go, over
--   the other parts as a record (Resources); Admission and Received have the invariant of every sequence of
--   messages, and Voting the checks before a vote. Consensus/Cleanup.antt is the rest of state.go with the
--   cleaning of hs_driver.go, and Cleaned has what stays.
--   Consensus/Driver.antt is the rest of hs_driver.go, over the files of storage/, execution/ and txpool/, and
--   Applied has the commit of a block through all of them, and Leaf the block that CreateLeaf makes.
--   Consensus/Models.antt is hs_models.go; Stored has what the engine relies on for it, and Certified
--   the engine's invariants for a node. Consensus/Creation.antt has the state and the
--   actions of genesis.go and Consensus/Genesis.antt its handlers, each as if no other one ran meanwhile;
--   Created, Kept and Finished have what a handler leaves.
-- * txpool/ holds what waits for a block: TxPool/TxStore.antt is txstore.go, and TxPool/Queues.antt and
--   TxPool/Pooled.antt have its invariant; TxPool/Sync.antt is txpool.go, TxPool/Arrived.antt
--   has what the pool keeps of what arrives, and TxPool/Available.antt what a synchronisation gives.
-- * merkle/ is the tree of the state. Merkle/TreeCalc.antt is tree_calc.go, Merkle/Position.antt and
--   Merkle/Tree.antt are types.go, tree.go and store.go. Merkle/Spec.antt has the tree of all leaves, as
--   a function (digest, rows); Shape, Encoding, Groups, Parents, Levels, Updates, Loop and Commit carry
--   the lemmas, one level at a time, Results has what Update sends, and Refines and Verify the theorems on
--   Update and Verify.
-- * storage/ keeps the chain and the state. Storage/Database.antt is db.go over badger as a parameter, and
--   Storage/ChainStore.antt, StateStore.antt, MerkleStore.antt and Storage.antt are the files of those
--   names; Core/Wire.antt has the messages, state_change.go and block_commit.go. Storage/Overlay.antt says
--   what a run of updates leaves, Commits and Written what a commit sets, Reads and Committed what is read
--   after it, States the values of the state, Failures and Unfinished what a failed
--   one leaves, Verified what VerifyState returns, and Queries
--   what a query over the storage answers.
-- * chaincodes/juriacoin/ is a coin: JuriaCoin/Coin.antt is juria_coin.go as a chaincode of execution/,
--   JuriaCoin/Values.antt has the lemmas on reads and writes, JuriaCoin/Transfers.antt the theorems.
-- * Prelude/ has Boolean tests, lists, byte strings, maps and lists of distinct keys.
--
-- How the parts interact: the engine asks its driver to broadcast, vote, commit and build certificates;
-- certificates and votes are those of core/, whose validation comes before the engine sees them; the
-- blocks that the engine commits are executed by execution/ over the state store, and storage/ commits
-- the block with its state changes, of which merkle/ keeps the tree.
--
-- Bounds and fuel: heights are natural numbers, which is exact below 2^64; majority_count is exact
-- below 2^50, where the float64 quotient rounds to the right integer; int64 fields go by their bit
-- patterns. The loops of CheckSafetyRule and onCommit walk along parents on fuel of the block's height
-- plus two, which is enough since a parent is one lower; the theorems show that it never runs out.
-- The schedule of a concurrent execution says, for each read, how many merges have happened; a
-- merge holds the tracker's lock, so a read never sees half of one. The height of a Merkle tree is a
-- uint8 that wraps, and its loop has fuel of the number of leaves plus one. The workers of an update send
-- the parents of a level in any order: that is a function of lists (arrive) that keeps what holds of all
-- (IsShuffle). A database's transaction is one step, so the locks of
-- storage/ are left out. The synchronisation of missing parents has no bound in the
-- code: it has fuel here, and what holds of it holds for any fuel, also when it runs out.
-- The node's timer in runner.go is the number of messages that it serves: the theorem asks for one more than
-- the chaincode's requests. A pipe holds any number of bytes, and a write to it succeeds.
--
-- Order of the calls: pacemaker.go and validator.go call OnPropose, Update and OnReceiveProposal under
-- mtxUpdate, so each is one step of a run of the engine; OnReceiveVote is called beside that mutex, too, and
-- its parts (addVote, GetVotes with CreateQC, endProposal) and startProposal are steps as well, in any order.
-- UpdateQCHigh is one step. The handlers of validator.go and of genesis.go and the operations of the pool are
-- taken one after the other; what holds of genesis.go is about a handler that no other one overlaps. The
-- queue of the pool is container/heap of the standard library over the order of txstore.go: pop takes an
-- entry of the least time. A value of the state that is stored empty is a nil slice in the code, and the
-- empty list here.
--
-- Not modelled: the goroutines and the end of the loops of genesis.go; the network, the command line
-- and the generated messages, which are input and output or libraries (badger and protobuf are
-- parameters); the timeout of a transaction, which depends on the clock; the download and the start of
-- binary chaincodes. The broadcaster of the transaction pool and the pacemaker of consensus/ are
-- timers and channels around calls that are modelled. Query goes over a state that does not change
-- meanwhile, and the block store answers the same throughout a run of the engine.
pub mod Consensus
pub mod Core
pub mod Execution
pub mod Hotstuff
pub mod JuriaCoin
pub mod Merkle
pub mod Prelude
pub mod Storage
pub mod TxPool
