-- ===== src/Lib.antt =====
-- Bokken, a debugger for Solana programs: a validator process (solana-debug-validator) keeps a
-- ledger on disk and talks to programs, each in a process of its own (solana-debug-runtime), over
-- Unix sockets. The RPC endpoint hands transactions to the ledger; the ledger collects the accounts
-- that they name, has the programs called, and saves what changed under the next slot.
--
-- The files and what they model, with paths from the root of the repository:
--   * Errors: the error values of solana-debug-validator/src/error.rs;
--   * FileBytes: an open file as bytes, under the calls that the index file makes;
--   * IndexFile: solana-debug-validator/src/utils/indexable_file.rs. `IndexableFile` is the struct
--     of that name, less its lock; each method is the function of its name. The reading calls stand
--     in IndexFile, those that write in IndexFile/Editing. IndexFile/Layout says how bytes hold
--     entries (`Stores`); the other children prove what the calls do to them;
--   * Ipc: solana-debug-runtime/src/ipc_comm.rs. The handlers are state machines over what the
--     socket answers; `read_loop` and `write_loop` are the loops of the two tasks. Ipc/Receiving is
--     `IPCComm` for its holder, who takes turns with the reading task as a list of moves says;
--   * Account: the accounts of solana-debug-runtime/src/debug_env.rs, with `move_lamports`;
--   * SystemProgram: solana-debug-validator/src/native_program_stubs.rs and its system_program.rs,
--     every instruction of `exec`, on the map of accounts and the logs;
--   * LedgerFile: solana-debug-validator/src/debug_ledger/ledger_file.rs, blocks in an index file;
--   * Ledger: solana-debug-validator/src/debug_ledger.rs. Ledger/Execution has the methods of
--     `BokkenLedger`, as actions on its state; Ledger/Opening is its `new`, from what the directory
--     and its two files hold;
--   * AccountsBlob: `SolanaAccountsBlob` of solana-debug-runtime/src/executor.rs, the buffer of
--     accounts that a program reads and writes, byte for byte;
--   * ProgramCaller: solana-debug-validator/src/program_caller.rs. A call is an action on the state
--     of the caller, which takes what arrives from a list of events while it waits.
--     ProgramCaller/Listening is the task that registers programs, over what connects;
--   * Syscalls: solana-debug-runtime/src/sol_syscalls.rs, with the contexts and the end of a run of
--     executor.rs and what lib.rs does with a message, as actions on a stack of contexts.
--     Syscalls/Executing is the thread that runs an entry point;
--   * Runtime: the loop of solana-debug-runtime/src/lib.rs over the messages of a connection.
--     Runtime/Entry is `bokken_runtime_main`, which sends the program's id before the loop;
--   * Rpc: the requests of solana-debug-validator/src/rpc_endpoint.rs, as functions and actions on the
--     ledger, with the encodings (Rpc/Encodings) and the
--     messages (Rpc/Messages) of rpc_endpoint_structs.rs. Rpc/Requests is the
--     trait `SolanaDebuggerRpc`, and a session of requests in the order in which they take the lock;
--     Rpc/Subscriptions is the task that waits for a signature, over the ledger as it is in each
--     round;
--   * Validator: `main` of solana-debug-validator/src/main.rs, from the options to the addresses of
--     the two servers (`start_endpoint` of rpc_endpoint.rs);
--   * TestProgram: the sample program of test-program/src, as actions on the data of its accounts;
--   * Prelude: results, actions that keep what was written before an error, maps, bytes.
--
-- Numbers are natural numbers. A public key, an identifier and a signature are the numbers that
-- their bytes spell. `to_le_bytes` and the sum in `move_lamports` are cut to the width of the
-- source; slots, offsets and fees stay below 2^64 and are not cut. The bisection runs on fuel, one
-- unit for a round: the length of the file is enough, since a round leaves less than it was given.
-- The loop of the reading task runs over a list of the socket's choices. A call of a program runs
-- on fuel, one unit for a round and for a nested call: each round takes a message.
-- The sample program runs with a bound on nested runs; the depth that it is asked for and two are
-- enough.
--
-- Parameters are borsh and bincode (`Format`, `Codec`), seeds and texts (`Host`, `Natives`), what
-- programs, the clock and solana_sdk answer (`Environment`), and what the endpoint takes from the
-- crates that decode and verify (`Endpoint`, `Codecs`). The disk refuses the file of an account as
-- `Environment` says (`refuses`), and `save_account` then fails; accounts are read without errors of
-- the disk. In a call the threads of the validator are one sequence of events, so the locks that
-- they wait for are not seen.
--
-- The components meet in five places: the ledger asks that calls settle their accounts
-- (`CallsSettle`), which a caller with the native program alone does (ProgramCaller/Native); the
-- system calls of a program work on its blob; the endpoint runs the actions of the ledger; what a
-- program that starts writes to the socket is what the listener of the validator reads; what the
-- run of a program sends is what the call of the validator waits for.
--
-- Not modelled: how a program's entry point reaches its accounts through a raw pointer
-- (solana-debug-runtime/src/executor.rs), the JSON server round the endpoint with its loggers
-- (solana-debug-validator/src/rpc_endpoint.rs), the texts of errors and their conversions
-- (solana-debug-validator/src/error.rs), the paths of the ledger's files and the errors at reading
-- its account directory (solana-debug-validator/src/debug_ledger.rs), the locks of the tasks
-- (solana-debug-validator/src/program_caller.rs).
pub mod ProgramCaller
pub mod Syscalls
pub mod Runtime
pub mod Validator
pub mod TestProgram
pub mod Rpc
pub mod Prelude
pub mod Errors
pub mod FileBytes
pub mod IndexFile
pub mod Ipc
pub mod Account
pub mod SystemProgram
pub mod LedgerFile
pub mod Ledger
pub mod AccountsBlob
