-- ===== src/Lib.antt =====
-- Verification of the forensic tools of the Protocol Robustness Framework, the Python scripts of
-- scripts/forensic and the reader scripts/edn.py. They decide whether evidence about protocol runs can be accepted: whether a
-- receipt is in a block, whether balances reconcile with transfers, whether a run reproduces and
-- whether repeated runs agree. The scripts are separate programs that exchange JSON documents; each
-- is modelled as pure functions from the documents it reads to its verdict.
--
-- Inclusion (scripts/forensic/ethereum_receipt_inclusion.py): the check of one transaction and its
-- receipt against a trusted block hash. Inclusion/Bytes has the decoding of hexadecimal text, of
-- quantities and of compact trie paths (`_hex_bytes`, `_quantity`, `_rlp_int`, `_compact_path`);
-- Inclusion/Trie has `verify_indexed_trie_proof`, and
-- Inclusion/Trie/Held the trie that a proof shows; Inclusion/Receipt has `_logs_bloom` and
-- `encode_rpc_receipt`; Inclusion/Header has `_header_identity` and the loop over the ancestry;
-- Inclusion/Transaction has `_recover_transaction`; Inclusion/Context has the trusted context; and
-- Inclusion/Case composes them to `verify_case`. The packages rlp, eth_hash and eth_keys, SHA-256 and
-- `json.loads` are the record Inclusion/Libraries, a parameter of every definition that calls them.
-- Uniqueness is stated for documents in which no two different nodes or headers share a hash, since
-- nothing is assumed of the hash function. Exceptions are the values of Prelude/Result.
--
-- Accounting (scripts/forensic/pro29_token_accounting.py): `_validate_transaction_deltas`, with the
-- running totals that its loop keeps as a record. Accounting/Events and Accounting/Sums describe
-- what the loop computes.
--
-- Reproduce (scripts/forensic/reproduce.py): `classify_source_precheck`, `classify_mismatch` and
-- `compute_verdict`; Reproduce/Compare has `compare_bundle_fields`.
--
-- Counting and Quorum (scripts/forensic/quorum.py): `Counter` with `most_common(1)`, then
-- `extract_field`, `compute_field_agreement` and the status that `quorum` reports.
--
-- Consensus (scripts/forensic/consensus.py): `_build_summary`, `compute_agreement`,
-- `compute_verdict` and `agreed_hash`, on the same Counter. Python's `str`, which turns the values of
-- a summary into the texts that are counted, is a parameter.
--
-- Identity (scripts/forensic/identity.py): `IdentityRegistry`, two dicts of its entries by runner id
-- and by public key. Signatures (scripts/forensic/signatures.py): `sign_message`, `verify_message`
-- with all its outcomes, and the key files. `json`, `hashlib` and PyNaCl are the record
-- `Signatures.Libraries`; texts stand for their UTF-8 bytes.
--
-- Mailbox (scripts/forensic/mailbox.py): `deduplicate_submissions`, whose result the consensus
-- counts. Mailbox/Store has the content-addressed objects (`write_object`, `read_object`,
-- `write_self_addressed`, `write_consensus_outputs`) on a map from paths to texts; Mailbox/Messages
-- the messages that the runners write (`_make_message`, `write_result_submission` and the others) and
-- the format for the consensus. Mailbox/Submission has what `validate_mailbox` checks of every
-- submission and what it keeps to find equivocation, Mailbox/Outputs its checks of the consensus
-- outputs and of the object store, and Mailbox/Validate composes them on a snapshot of the files, up
-- to the exit code of `cmd_validate`. A submission whose hash or timestamp is present and no text is
-- outside the model, which then ends with an error of its own.
--
-- Ancestry (scripts/forensic/mechanism_persistence.py): `_ancestor_path`, the order in which the
-- nodes of a counterexample are listed.
--
-- Dag (scripts/forensic/verify.py): `_detect_dag_cycles`, the search for cycles in the evidence graph;
-- Dag/Acyclic and Dag/Detected have the state of the search as an invariant, Dag/Paths the paths of
-- the graph. Dag/Inventory has `_validate_evidence_dag_inventory`, which calls it, and
-- `_bundle_root_reference`, on an inventory whose hashes are texts.
--
-- Edn (scripts/edn.py): the reader of the conformance descriptors; Edn/Printer describes the texts
-- that hold a value.
--
-- Json has the dynamic values and Prelude the shared functions on lists, texts and integers.
--
-- Bounds: the loop of `verify_indexed_trie_proof` makes at most 128 rounds and the model's fuel is
-- that number, so running out of it is the error of the source. The minimal big-endian form of a
-- number n is computed with n as fuel, which is enough as each digit divides by 256. The recursion of
-- `_ancestor_path` has a depth as fuel, for which acyclic parents need no more than the greatest rank
-- plus one. The EDN reader has twice the length of the text and one as fuel, as each call of a value
-- reads a character or ends. The search for cycles has the number of nodes as fuel, since each
-- nested call opens another node, and its walk along the parents the number of their entries, since a
-- node is given one parent, which was opened before it. All other recursion is structural. Integers
-- are unbounded, as in Python; sizes and indices are natural.
--
-- Not modelled: the number of digits above which Python's `int` raises, in the EDN reader; file
-- access, processes, RPC and printing; the texts of reports; JSON numbers with a fraction; the other scripts of the repository and its parts in Clojure, Rust and Solidity.
pub mod Prelude
pub mod Json
pub mod Inclusion
pub mod Accounting
pub mod Reproduce
pub mod Counting
pub mod Quorum
pub mod Consensus
pub mod Identity
pub mod Signatures
pub mod Mailbox
pub mod Ancestry
pub mod Edn
pub mod Dag
