-- ===== src/Lib.antt =====
-- wanctl: a device's command policy, its late approvals, the relay that carries its sessions, and the
-- releases that it updates from.
--
-- A controller asks a device's agent to run commands and to read and write files. The agent answers
-- from its policy, or asks the owner, on a portal or on a phone; the bytes of a session go through a
-- relay that both sides poll over HTTP.
--
-- * Policy (internal/policy/policy.go): Policy has the types and matchCommand, Policy.Paths what Go's
--   path/filepath does on a POSIX system and Within, Policy.Command the patterns of commands,
--   Policy.Engine the engine, its two files and every operation. The engine's state is the record
--   Engine, and what is on the disk is the record Disk. A string that is written to the rules file has
--   what is not valid UTF-8 replaced (Encoding.Utf8.Replaced), as Go's encoder does. The shell parser
--   of mvdan.cc/sh is the parameter parse.
-- * Script (internal/script/script.go): scripts carried as inert commands, their canonical names and
--   their abbreviation. sha256 is a parameter; base64, hex and UTF-8 are in Encoding, and what Go's
--   bytes and strings do is in Bytes, on texts that are lists of bytes.
-- * Trust (internal/transport/trust.go): the peers that a side knows, each operation a function on the
--   record Store; Pin's loop is the function scan. Go ranges over its map in any order: the list of a
--   call is the map in one order, and in Trust.Reordered two calls meet it in two orders.
-- * Approvals (internal/agent/approvals.go): Approvals.LateGrants the one-shot grants that late
--   approvals install, each operation a function on the record LateGrants; Approvals.Outbox the
--   phone's half of an approval.
-- * Session (internal/sessionauth/sessionauth.go): the capabilities of a session, as the number that
--   Go's uint8 holds, and what a device accepts.
-- * Relay (internal/relay): Relay.Residency the memory account (resident.go), Relay.SideQueue one
--   direction of a session (sideQueue in http.go), with child modules for draining, for the polls, and
--   for the order of what is carried. A Go method that holds the queue's locks is one
--   function on the record SideQueue, so that the calls of a direction are a sequence of steps: in
--   Relay.SideQueue.Run with acknowledged single polls (takeUpTo), and in Relay.SideQueue.Held with
--   every call. A poll is one such function, though it gives up the locks while it waits: its turn
--   keeps other polls out, and a write that arrives meanwhile is taken to arrive before it.
--   Relay.AgentEvents (agent_events.go) is what a device's agent reports, with the map of the events
--   that were seen as a list.
-- * Release (internal/release/release.go): Release.Version the versions and their order, Release.Json
--   the walk that finds a repeated key, Release.Manifest the manifest, its keys and its signature, and
--   Release.Select what an update takes. The JSON decoder, SHA-256 and Ed25519 are parameters.
-- * Lark (internal/lark/grants.go): the one-shot grants behind a card's buttons, as four maps.
-- * Adb (internal/adb/wire.go): the frames of the debug bridge's protocol.
-- * Agent (internal/agent/agent.go, internal/agent/jobs.go, internal/server/spill.go): Agent.Gate
--   what decides whether a request proceeds, which asks Policy.Engine, then Approvals.LateGrants,
--   then the owner, on the record Device; what one call meets, its clocks and the owner's answer, is
--   the record Course. Agent.Spill is the output of a command that is kept in a file, where what the
--   operating system does in each write is an argument; Agent.Jobs the commands that run on in the
--   background, whose map is a list and whose goroutine is the functions write_to, finish and
--   release.
-- * Termsafe (internal/termsafe/termsafe.go): what is shown on a terminal. A Writer's state is the text
--   that it holds; Encoding.Utf8.Prefix has what decoding a character reads.
--
-- Policy and Approvals meet in the request and in command_pattern: what a grant compares is what a
-- rule would store. Approvals use Policy.Paths for the working directory of a command. Agent.Gate
-- puts both together.
--
-- Clocks are arguments, in nanoseconds. Counts are natural numbers: the sums that the code keeps in
-- int64 stay below its budgets of at most 256 MiB. The loop of commitSeq has as fuel the number of
-- writes that are held, and every turn takes one of them out. The walk over JSON tokens has as fuel
-- their number. All other loops are recursions on lists.
--
-- Not modelled: the text of JSON, files, HTTP and the operating system, which are arguments or
-- results; waiting on a channel, which is the same call at a later moment; the rest of the program,
-- which needs them.
pub mod Prelude
pub mod Bytes
pub mod Encoding
pub mod Trust
pub mod Script
pub mod Policy
pub mod Release
pub mod Lark
pub mod Adb
pub mod Agent
pub mod Termsafe
pub mod Approvals
pub mod Session
pub mod Relay
pub mod Examples
