-- ===== src/Lib.antt =====
-- Verification of shell-picker: the program that lets fzf pick directories and paths for a shell.
--
-- How the program works. A session (internal/session) owns a state (mode, location, prompt) and a
-- snapshot of candidate records with a generation number. fzf shows the records; a key press comes
-- back as an event. Reduce (internal/session/events.go) turns the event and the snapshot into a
-- proposed transition, for which Handle may make new directories (internal/pathutil), and the actor
-- (internal/session/actor.go) decides: a proposal without a build is committed at once, one with a
-- build starts the generator and is published on completion, when its base generation is still the
-- current one. The effect of a transition is printed as fzf actions (internal/fzf/action.go);
-- records go to fzf as NUL-terminated frames (internal/protocol/codec.go) through an appendable
-- stream (internal/fzf/input.go); fzf's output is parsed (internal/fzf/output.go) and the accepted
-- lines are checked against the snapshot (internal/session/selection.go). Commands that fzf runs
-- are parsed and carried out by internal/callback. Candidates of several sources are merged by
-- internal/candidate/builder.go. The enrichment coordinator (internal/app/enrichment*.go) lets a
-- slow source add records while events and loads are in flight.
--
-- Where each part is modelled.
--   Base: shared names; byte strings are lists of numbers; Decimal is `%d` and strconv.
--   Protocol/Types, Base64, Display, Record: internal/protocol/types.go and codec.go (EncodePath,
--     DecodePath, EscapeDisplay, ParseRecord, FrameRecords); Utf8 is Go's utf8.DecodeRune.
--   Pathutil/Filepath, Location: internal/pathutil/location.go and location_unix.go, with the
--     functions of path/filepath that they call.
--   Pathutil/Tree: internal/pathutil/add_unix.go (CreateDirectoryTree) and Rollback, on a file system
--     that is a list of entries; the record System says which calls fail, and a directory with entries
--     cannot be removed.
--   Candidate/Entry, Merge, Limits: internal/candidate/record.go, mergeRecords of builder.go, and
--     zoxide_limits.go.
--   Fzf/Action, Render, Output, Input, Options: internal/fzf/action.go (RenderEffect), output.go
--     (ParseOutput), input.go (InputStream; each locked section is one step) and options.go.
--   Callback/Grammar: internal/callback/grammar.go (Parse) and validation.go (ValidateLocal).
--   Callback/Finder: internal/finderinfo/info.go, and the counts of internal/callback/display.go.
--   Callback/Dispatch, Telemetry: internal/callback/dispatch.go. The session's answers are a record
--     of functions; Telemetry is what a preview reports, from what was observed while it ran.
--   Sessionipc/Dto, Preview: the requests of internal/sessionipc/dto.go and validatePreview.
--   Session/State, Records, Proposal, Resolve, Reduce, Handle, Selection: internal/session/types.go,
--     record_set.go, events.go (Reduce, Handle), selection.go (ValidateCD, ValidateCP).
--   Session/Actor/State, Apply, Loop: the loop `run` of internal/session/actor.go. Its local
--     variables are the record Actor, its messages and signals are the data type Input, its replies
--     and side effects are a list of outputs, and one pass of the loop is `step`.
--   App/Failure, App/Enrichment: the coordinator of internal/app. The record Enrichment holds its
--     fields, each section that holds its mutex is a function (State, Event, Load, Lifecycle,
--     Commit, Trace), and Run.step is one of these sections; a section that waits is tried again, and
--     a function with two sections (a finalization that fails, finishCommit) is two steps.
--     Errors have addresses, since the code compares them with ==.
--   Fzfsidecar/State, Pages: internal/fzfsidecar/state.go and the loop over the pages of
--     state_client.go, for any server.
--   Preview/Limit: internal/preview/limit.go. Process/Env: internal/process/env.go.
--   Tests: the theorems at concrete inputs.
--
-- What is taken as a parameter. unicode.IsGraphic (`graphic`; where it matters the hypothesis is
-- that no ASCII control character is graphic), bytes.EqualFold and strings.EqualFold
-- (`equal_fold`), strings.ToUpper, the failures of system calls, the answers of fzf and of the
-- session's server, an io.Writer (where it matters the hypothesis is that the bytes it counts are
-- in its content), visibleHeader of display.go, and in World what context.Cause answers for the
-- callers and the session and what the clean-up of a created tree returns. `step` of the actor has
-- two worlds: one for the message, one for a start after it.
--
-- Numbers and fuel. Generations are Go's uint64: the counter stops at 2^64 - 1 with an error, as in
-- the source. escape_display runs on the length of the text as fuel, and each round consumes a byte
-- at least; decimal runs on the number, and each digit takes a tenth. The pages of a snapshot run
-- on the code's own bound of 100 pages, and writeAll on the length of its text, as each round
-- writes a byte at least: neither runs out.
--
-- What is not modelled. Files built for Windows; starting and stopping processes, terminals and
-- networking; the tools that render a preview and its cache on disk; wall-clock durations; how the
-- coordinator's run, commit and HandleEvent call its sections in turn; the sources of candidates
-- and the configuration of their builder; the visible header of internal/callback/display.go; the
-- command line; release tools.
mod Base
pub mod Protocol
pub mod Pathutil
pub mod Candidate
pub mod Fzf
pub mod Callback
pub mod Session
pub mod Sessionipc
pub mod Process
pub mod Preview
pub mod Fzfsidecar
pub mod App
mod Tests
