-- ===== src/Lib.antt =====
-- mcpdial is a command-line client of the Model Context Protocol: it frames JSON-RPC messages over
-- HTTP or over the pipes of a child process, and puts a command line and a shell on top. This library
-- models the parts that decide: what a message is, when a request is sent again, which answer is taken,
-- how words and paths are read, and what a session remembers.
--
-- The parts, from the bottom up:
--
--   Base       What the modules share: Boolean tests on the native numbers, lists, texts as lists of
--              code points with the operations of Rust's `str` that the code calls, and integers.
--   Json       serde_json's `Value`: a map is its entries in the order of their keys, as in a
--              `BTreeMap`; a number that is no integer is kept as its text.
--   Protocol   src/protocol.rs. Version and Version/Order: `KnownVersion`, its order and the two eras
--              (`as_str`, `cmp`, `parse`, `Era::of`, `opens_at`). Errors: `Error` and `Result`; a message
--              is kept as data, not as English. Negotiate: `negotiate`. Incoming: `classify` and `check`.
--              Messages: `request`, `notification`, `answer`, `answer_with`, `reply`, `reply_error`.
--              Meta: `with_client_meta`, `with_input_responses`, `with_progress_token`.
--              Sse: `sse_events`, `decode_sse`, `decode_body`.
--   Transport  Retry: src/transport/retry.rs, `Retry::delay` and the tools it learns of. Http:
--              src/transport/http.rs, `attempt`, `send_watching` and `read_stream`, each taking the
--              transport's state and what the network does and giving the state after; the headers that
--              mirror a request. Framed: `Framed` of src/transport/stdio.rs, one message for each line, by
--              `take`, `exchange`, `poll` and `listen`. Words: `split_command` of the same file and
--              `shell_word` of src/diagnose.rs, which split and write command lines.
--   Arguments  src/args.rs: `form`, `split`, `parse_pairs`, `coerce` and `as_pairs`, which writes with
--              `shell_word` what `split_command` and `parse_pairs` read.
--   Path       src/path.rs: the filters of the shell, their parser, `select` and `apply`.
--   Notify     src/notify.rs: the notifications of a server, the log levels, `one_line`.
--   Subscriptions
--              src/subscribe.rs: what a session follows and what waits, by `follow`, `forget`, `record`
--              and `apply`; it takes the bodies that Notify reads.
--   Shell      History: src/shell/history.rs, `record`, `sending`, `find`, `last_call`, and `edit_target`
--              of src/shell/edit.rs.
--   Session    src/session.rs over a transport given by its operations: `send`, `request_watching` with the
--              rounds of input a server may ask for, in Opening `open` with `discover`, `initialize` and what
--              is tried instead of discovery, in Pages `list_paginated`, in Stdio the framed exchange as the
--              transport of a session.
--   Schema     src/schema.rs: what a schema says of a value, `type_name` with its two budgets.
--   Snapshot   src/snapshot.rs: `document`, `compare` and what its differences are printed as.
--   Search     src/search.rs: `rank` with `score` and `newest_per_repository`.
--   Elicit     src/elicit.rs. Forms: `Field::list`, `check`, `read`, `Kind::of`, `pick`. Elicit itself:
--              `respond` with `form`, `ask`, `fill` and `url`; what is typed is a list of lines.
--   Diagnosis  src/diagnose.rs: `edit_distance` and `closest`.
--   Config     src/config.rs. Glob: `matches_glob`. Expand: `expand` and `substitute`. Servers:
--              `ServerConfig` with its lists, `denial`, `refuse_denied`, `expanded`. Credentials:
--              `Credential`, and `Backend` of src/keychain.rs with the keychain as an interface. Files: a
--              file of the store is what it reads as and what a write to it ends in; an operation that holds
--              the lock of a file is one step. Notes: the probes and the tasks that invocations leave for
--              one another. Store: servers and credentials, in Backends `use_backend`.
--   Background src/tasks.rs over the connection of src/client.rs: Facts reads tasks, tools and what a server
--              declares; Watching is `seen_through` with the requests of src/session.rs that it makes;
--              Running is `call` with what `started` and `refuse_a_detach_nothing_can_answer` do; Listing is
--              `listed`, `shown`, `collected`, `cancelled` and `fetched`.
--   Client     src/client.rs. Tools: listings under the lists of a server. Statuses: `classify`. Eras:
--              `opening_for`, `remembered_era` and `note_era`.
--   Serve      src/serve.rs. Filtering: `ToolFilter` and `relayable`. Proxying: `handle`, `open`, `close` and
--              the sessions of a `Proxy`.
--   Oauth      src/oauth.rs. Encoding: `urlencode`, `urldecode`, `query_params`, with the reading of bytes as
--              UTF-8, broken bytes replaced, in Utf8. Callback: `callback_result`,
--              `ExpectedIssuer`, `escape_html`. Clients: `choose_client_id` and what goes with it,
--              `validated_issuer`, `credential_from_token_response`.
--   Tests      Each result of the list below at a concrete input, and runs of the definitions.
--
-- State is passed: an operation that changes a struct takes it and gives the one after it, and a
-- sequence of operations is a list of them. Errors are values of `Result`.
--
-- Loops are structural where the loop consumes a list, a text or the lines of a body; a wait for a
-- reply is the list of the lines that arrive before the time is up and how they end, and a poll, the
-- rounds of a request and the pages of a list count down from the 4096 lines, 4 rounds and 1000 pages that
-- the code allows. Three loops run on fuel. `match_loop` of Config/Glob, which steps back, has
-- (n + 2) * (p + n + 1) turns for a pattern of p characters and a name of n; `room` of Serve/Proxying has a
-- turn for each session, since a turn removes one; and `watch` of Background/Watching, which in the code
-- ends only when the server says so, is given the number of polls. A loop with
-- inner loops (`split_command`, the parser of paths) is one function for each place the inner loops
-- can stand in. Sizes and durations are natural numbers; where the code parses a `u64` or a `usize`,
-- the bound 2 ^ 64 - 1 is checked, and durations are in milliseconds, but for the times of the store
-- and of tasks, which are in seconds. The time is an argument, and so is whatever else the code asks
-- the system for.
--
-- What is outside the repository is a parameter: reading and printing JSON (serde_json), base64, the
-- HTTP client and what the network does, `jq`, the tables of Unicode. A theorem that depends on
-- one states what it needs of it as a hypothesis.
--
-- Not modelled: processes, sockets, terminals, the locking and the permissions of files, and the
-- bindings to keychains; the argument parser; the English of messages, which are kept as data; floating
-- point; what a watcher of a request is told; the rendering of media; cryptography, the discovery of an
-- authorization server and the exchange with it; the registry; the import and the export
-- of configurations; the listener of `serve`; and grep, whose regular expressions are another library's.
mod Base
pub mod Json
pub mod Protocol
pub mod Transport
pub mod Shell
pub mod Snapshot
pub mod Search
pub mod Elicit
pub mod Arguments
pub mod Path
pub mod Notify
pub mod Subscriptions
pub mod Session
pub mod Background
pub mod Client
pub mod Config
pub mod Oauth
pub mod Schema
pub mod Serve
pub mod Diagnosis
mod Tests
