-- ===== src/Lib.antt =====
-- blindrange: range queries over encrypted records that are kept on nodes which cannot read them.
--
-- The owner of a database encodes each field as a number of a domain [0, 2 ^ bits) and stores a
-- record under one pseudorandom key per dyadic interval that holds the value. A range query looks up
-- the chains of the few intervals that cover the range. Nodes keep keys and sealed values, place them
-- by consistent hashing, and take blind tokens as payment for writes; a Merkle log lets an auditor
-- check what was recorded. This library models the Python package, file by file.
--
-- - Prelude: the shared names, Boolean tests, lists over native numbers, results that may raise, bit
--   operations and powers of two, decimal numerals, and lists of numbers read as sets.
-- - Dyadic (blindrange/dyadic.py): max_level, levels_for and dyadic_cover; Dyadic/Text has the string
--   encodings _char5, encode_str and prefix_range, with str.lower of a character as a parameter.
--   Numbers are natural; the source is called with no others. The recursion of dyadic_cover has
--   fuel mlvl + 1, since a call at level mlvl ends.
-- - Merkle (blindrange/merkle.py): the hashes, root, inclusion_proof, verify_inclusion and the Log;
--   sha256 is a parameter. The fuel of the recursions is the number of leaves, which each call
--   splits into two smaller parts; the loop of _split has n rounds, and the inner loop of
--   verify_inclusion has as many as its size, which it halves.
-- - Merkle/Consistency: consistency_proof, _subproof, verify_consistency. Its two inner loops halve
--   a number and have as many rounds as the number says (strip-done: the first stops by its test).
-- - Client/Gallop (_discover_ends of blindrange/client.py): the state of a chain's search and a round
--   over all chains; what the network answers for an entry is a parameter. The fuel counts rounds.
-- - Client/Fetch (_mget_network and _mget): the rounds of requests, what they leave unresolved, the
--   attempts and the read repair, and the mirror in front of them. What an address answers in a round,
--   the order in which the requests complete and the routes of the ring are parameters; the attempts
--   are the four of the source.
-- - Client/Writes (_put, _put_nx, _delete and batch): the grouping of the entries by address, the wait for the
--   quorum, the rescue of weak keys, and the block that collects the calls. Routes, the success of a
--   request, at first and in the rescue, and the order of completion are parameters. The chunks of a deletion have the number of
--   keys as fuel.
-- - Client/Spending: what _post pays for a write, the purchases (_fetch_tokens, top_up), the refund, and
--   when the wallet is saved. The issuer and the reply of the node are parameters.
-- - Mirror (blindrange/mirror.py): the rows, the statements on chunks of 512 keys, and freshness. The
--   fuel of the chunks is the number of keys.
-- - Client/Index (insert_many, count, histogram and approx_sum of blindrange/client.py): chain lengths
--   and the counters of the entries written. The PRF, the cipher and JSON are left out, so an entry is
--   its word, counter and record id.
-- - Schema (blindrange/schema.py): bits_for, pow2_floor, leaf_for and the makers of field
--   specifications. The rounding of amounts to cents, text formatting and the inference of a schema
--   from CSV are left out.
-- - Ring (blindrange/ring.py): the ring that __init__ builds, route and _diversify. Node ids and
--   groups are numbers, the hashes are parameters. failure_group, which reads addresses, is left out.
-- - Token (blindrange/token.py): the full-domain hash and the blind signatures, and Wallet.balance and
--   take_for. sha256 and modular inversion are parameters, and the key is one whose two exponents undo
--   each other. mgf1 has as many rounds as it makes bytes, since a digest has a byte. Issuance and the
--   wire format are left out.
-- - Node (blindrange/node.py): the tables kv and spent of Store with put, put_nx, delete, mget, spend
--   and forget_epochs, and TokenGate.check, whose arguments say what a token is worth, its reference
--   and its epoch. An operation is one step, as the locks make it.
-- - Receipt (blindrange/receipt.py): the digests, the signed message, verify and matches, and the proof
--   of work. SHA-256, hex, Ed25519 and json.dumps are parameters; the fuel of solve is its limit.
-- - Sharded (blindrange/sharded.py): the handles of records, the buckets of an insert, the groups of a
--   delete, counts, sums and histograms, and the merged or interleaved reads. A shard is a state with
--   an interface, Owner; what is read of handles is more narrow than Python's int, which also takes
--   signs, blanks and underscores. heapq.merge is a parameter. One round of the interleaving more than
--   there are rows is enough. Sharded/Refine/Indexed is a shard whose records Client/Index indexes.
-- - Sql (blindrange/sql.py): the cursor _P over tokens; Sql/Where has _where, _narrow and _prefix,
--   Sql/Create _check_blur and the column list of _create, Sql/Insert _check_value, the rows of _insert
--   and the handles of KEY columns, Sql/Select the reads, Sql/Session the state of the connection,
--   Sql/Update the rows that are rewritten, Sql/Statements execute, and Sql/Raises what the reading of
--   statements raises. Statements start as tokens; the owner of a table is an interface, Engine; the
--   thread of a compaction is one step; the first four bytes of the HMAC are a parameter. A loop has
--   one round more than there are tokens, and each round reads one.
-- - Tests: runs on concrete inputs, and an instance of each theorem that has hypotheses.
--
-- The parts meet where they do in the source: Client/Index indexes a value under the labels of
-- Dyadic and counts over its cover, Schema makes the widths that Dyadic accepts, and the entries that
-- the Gallop searches are those that Client/Index numbers from 1 without a gap. Sharded reduces the
-- bars of its shards as Client/Index does, Sql/Create makes the schemas that Client/Index inserts by,
-- and what an INSERT stores for a handle is what a WHERE clause looks for.
--
-- A read of the client goes to the Mirror first and then to the network, and a write ends in it.
--
-- Not modelled: sockets, threads, files and clocks; the SQL tokenizer and REPL; gossip and repair;
-- the command line, the web pages, the examples, the prototype and the JavaScript client.
pub mod Prelude
pub mod Dyadic
pub mod Merkle
pub mod Client
pub mod Schema
pub mod Ring
pub mod Token
pub mod Node
pub mod Mirror
pub mod Receipt
pub mod Sharded
pub mod Sql
mod Tests
