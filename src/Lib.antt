-- ===== src/Lib.antt =====
-- DNAS: a verification library of the node's consensus rules.
--
-- The program is a proof-of-work chain in Go with accounts, assets, names, multisig, HTLC and
-- vault scripts. Package core holds the consensus rules, package node the peer-to-peer node around
-- it. A block of transactions is applied to a ledger, a map from addresses to accounts: each
-- transaction is checked by itself (CheckTxSanity), at its height (checkTxAtHeight) and for its
-- signatures (VerifySignature), then it is executed (applyTxTo); the coinbase pays the miner, and
-- checkConservation compares the balances with what the block may create. An error rolls
-- everything back by the undo log.
--
--  Base              shared names, byte strings, maps, error results, 64-bit words
--  Core.Params       core/params.go: constants, BlockReward
--  Core.Tx           core/transaction.go, asset.go, name.go: the transaction and its queries
--  Core.Tx.Shape     name, ticker, metadata and authorization shape
--  Core.Tx.Sanity    CheckTxSanity
--  Core.Tx.Codec     core/codec.go: signing bytes, canonical bytes, Hash, Size
--  Core.Tx.Auth      VerifySignature and its branches; Auth.Threshold: multisig
--  Core.Tx.Height    checkTxAtHeight
--  Core.Env          what the rules are given: crypto, wallet, script interpreter, upgrades
--  Core.Block        core/block.go, params.go: fees, tips, coinbase amount and shape, weight
--  Core.Ledger       core/blockchain.go, statedb.go: accounts, undo log, applyUndo
--  Core.Ledger.Apply applyTxTo and its operations; Apply.Name: core/name.go
--  Core.Ledger.Conservation  core/conservation.go
--  Core.Ledger.Block applyTxsAndCoinbase
--  Core.Ledger.Undo, Keeps, Rollback, Clean, Coin    the proofs on rollback and coin
--  Core.Ledger.Guard, Nonce, Replay, Lease  the proofs on nonces and names
--  Core.Merkle       core/merkle.go; Merkle.Proof: proofs verify
--  Core.Mmr          core/mmr.go: the accumulator; Mmr.Forest
--  Core.Target       core/target.go, work.go: compact targets, work; Target.Bounds
--  Core.Header       core/block.go: the preimage, the hash and the proof of work
--  Core.Chain        commonPrefix; Chain.Prefix
--  Core.Chain.Rules  core/blockchain.go, checkpoint.go: retargeting, validateBlockStructure
--  Core.Chain.Adopt  applyBlock, AddBlock; Chain.Reorg: reorgLocked, ReorgFrom, ReplaceChain
--  Core.Chain.Locator  Locator, LocatorFork, ValidateHeaderChain
--  Core.Chain.Reachable  genesis, and the chains that a node can have
--  Core.Chain.Retarget, Linked, Adopted, Outcome, Failed, ForkChoice, Common  the proofs on them
--  Core.Chain.View   the queries of the chain that the mempool asks
--  Core.Script       core/script.go: the machine and its operations; Script.Eval: the loop, evalScript
--  Core.Script.Verify  what the rules ask of a script
--  Core.Script.Build core/scriptbuild.go; Script.Items: the list of what a builder was given
--  Core.Script.Bounds, Limits, Run, Accepted  the proofs on runs
--  Core.Script.Authorized  what an accepted script has shown; Script.Spend: evalScript up to the witness
--  Core.Script.Predicates, HashRuns, HashLock  the proofs on the built predicates
--  Core.Fee          expectedBaseFee; Fee.Bounds
--  Core.Supply       core/supply.go: CumulativeSubsidy; Supply.Minted
--  Core.Versionbits  core/versionbits.go: evaluateDeployment; Versionbits.Evidence
--  Core.Valcache     core/valcache.go: signatures that are known to be valid
--  Core.Mempool      core/mempool.go: the pool, its indexes, insertLocked, deleteLocked
--  Core.Mempool.Package  core/package.go: ancestors, descendants, package limits; Mempool.Rates
--  Core.Mempool.Rules  the rules of admission; Mempool.Admit: Add, with replacement and eviction
--  Core.Mempool.Reconcile  Remove, PruneExpired, Reconcile and its sponsors
--  Core.Mempool.Eligible, Select  Select: the candidates, the template of a block; Mempool.Stats: EstimateTip, Stats
--  Core.Mempool.Index, Books, Kept, Room, Top, Added, NextNonce, Runs  the proofs on adding
--  Core.Mempool.Nonces, Pass, Reconciled, Steps, Candidates, Simulated, Template  the proofs on the rest
--  Node.Seen         node/seen.go; Seen.Bound
--  Node.Ban          node/ban.go; Ban.Scores
--  Node.Orphan       node/orphan.go; Orphan.Filed, Stored, Bound, Pool, Children
--  Node.TxRelay      node/txrelay.go: txRequests; TxRelay.Requests
--  Samples, Tests    concrete data, and runs on it
--
-- A string is a list of bytes, a Go pointer an Option, a map an association list whose writes
-- replace in place; a 64-bit sum or product is written out modulo 2 ^ 64. Handlers that change the
-- ledger are actions on a journal, the ledger with the undo log of applyTxsAndCoinbase; an action
-- returns an error value or a result, with the journal at that point, and `finish` is the deferred
-- rollback. The ledger leaves the validation cache out, which only remembers answers of
-- VerifySignature; the mempool has it.
--
-- Loops over lists are structural. The Merkle loops run on fuel, the number of leaves, since every
-- round at least halves a layer; CumulativeSubsidy runs on 34 rounds, since the subsidy of the
-- 34th halving epoch is 0; the walk over the windows of a deployment runs on two rounds more than
-- the index of the tip, since a window has at least one block; there an indexing that panics gives
-- none, as a loop out of fuel does. The loop over a script runs on fuel, the script's length,
-- since a round takes a byte at least; the loop of Locator on the chain's length, since a step is
-- one block at least; the bytes of a target are counted on fuel of the number itself. The eviction
-- loop of the orphan pool runs on the number of blocks held, that of the mempool on one more than
-- the transactions held, since each round deletes one. The search for the next free nonce runs on
-- the length of the sender's queue, since each step passes one of its entries; the walks over
-- ancestors and descendants on the depth at which the code itself stops; Select on the number of
-- transactions asked for.
--
-- A reorganisation works on a record of the chain: the blocks, their undo logs, the ledger, the
-- work, the burned fees and the store. An error comes with the chain that it leaves, so that what
-- a failure changes is visible. The stack of the script machine and its open branches are lists
-- with the top first.
--
-- The mempool has three maps beside its transactions: the queue of each sender by nonce, what each
-- fee payer has promised, and the transactions that credit an address. A rate of fees is a float64
-- in the code; the model takes the bits of the quotient of two numbers as a parameter, whose order
-- is that of the floats since a rate is not negative. It reads the chain through an optional
-- source of accounts, which Core.Chain.View fills. Where the code goes over a map, whose order Go
-- leaves open, the model takes the entries in their order.
--
-- Package wallet, the hash and the encodings are parameters (Core.Env). The script interpreter is
-- an interface there too, which Core.Script.Verify fills. The store, the state root, the filter
-- header, the accumulator's root and the clock are parameters of the chain (Core.Chain.Rules,
-- Core.Chain.Adopt). Not modelled: the storage formats, the state trie, block filters and ancestry
-- proofs, indexes, networking, the API and the user interfaces. Locks are left out: every
-- operation is one step. A timestamp is a number, not an int64; a ban score is an int in two's
-- complement.
pub mod Base
pub mod Core
pub mod Node
pub mod Samples
