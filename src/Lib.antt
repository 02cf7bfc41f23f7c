-- ===== src/Lib.antt =====
-- cargo-instrument: OpenTelemetry spans woven into Rust crates while they compile.
--
-- The program replaces rustc for a Cargo build. For each invocation it classifies the arguments
-- (cargo-instrument/src/discovery.rs), finds the functions to instrument, plans edits of the source
-- text and applies them to a mirror copy (cargo-instrument/src/transform.rs), which is then compiled.
-- The code that it writes calls OpenTelemetry directly or, in dependencies, the runtime trampoline
-- (otel-shim/src/lib.rs). Stamps beside the artifacts (cargo-instrument/src/unit.rs) tell the command
-- (cargo-instrument/src/main.rs) what was instrumented. A second frontend edits the user's own source
-- (cargo-instrument/src/bin/instrument_rust.rs, tools/cargo-instrument-rust-driver/src/main.rs) by the
-- shared policy of instrument-semantics/src/lib.rs.
--
-- The files:
--   Semantics        `EligibilityPolicy::plan` and its data
--   Unit             `UnitId`, mirror directories and stamps
--   Candidate        what source analysis reports of a function
--   Bytes            source text as UTF-8 bytes, and the operations of `str` on byte offsets
--   Text             names and arguments as texts, and the operations of `str` on them
--   Strips           what it is to take a flag and its value out of arguments
--   Transform        the edits of one file: `Build` is `TransformationPlan::build*`, `Apply` is
--                    `TransformationPlan::apply`, `Pipeline` chains them, `Emit` has the emitters;
--                    `Build/Walk` describes the loop over the candidates
--   Shim             STACK, NEXT_HANDLE and IN_SHIM with the exported calls; `Utf8` is `from_utf8`
--   Discovery        `CompilationUnit` and `CrateInvocation::parse`; `Scan` is its loop
--   Ast              the attributes; `Tree` is the syntax tree, `Visit` is `CandidateFinder`, `Names` is
--                    `normalize_type_str`
--   Cli              `parse_cli_invocation`, flags that are forwarded, `artifact_stamp_name`; `Freshness`
--                    has the packages to instrument and those to retain, `Artifacts` reads Cargo's
--                    messages, `Invalidate` is `invalidate_packages`, `Acquire` is
--                    `acquire_native_artifacts`
--   Sets, Graph      hash sets, and the two searches through the graph of packages
--   Session          whether `tokio` is Tokio in a compilation; `Rustc` reads the arguments of rustc,
--                    `Otel` resolves the OpenTelemetry artifact, `Messages` and `Register` read the
--                    artifacts from Cargo's messages, `Gates` and `Closure` say what is left alone,
--                    `Specs` finds the packages a command selects
--   Paths            `paths_are_identical` and `normalize_path`
--   Wrapper          `WrapperConfig::from_args` and the gates of `run_wrapper`; `Choice` has the choice of
--                    the emitter, `Mirror` where a crate is copied to, `Run` is `run_wrapper`
--   Driver           the arguments that the source driver hands to the compiler; `Body` is
--                    `instrument_body`
--   InstrumentRust   `Options::parse` and `selected_workspace_packages`
--   Examples         concrete inputs, as Transform/Build/Examples has
--
-- The command line, before the last build, runs Cargo without the wrapper and reads its messages
-- (`Acquire`), and invalidates what was not instrumented; in the build itself each rustc passes through
-- the wrapper (`Run`), which parses its arguments (`Discovery`), asks the session plan (`Session`), takes
-- the candidates of the analysis (`Ast`) and leaves the stamps that the next pre-pass looks for.
--
-- A source text is a list of bytes and a panic of a slice is `none`. A Rust `Result` is `ok` or `err`.
-- Loops over a list are recursions on it; a loop that may consume two arguments carries whether the
-- next is to be passed over. The two searches through the graph run on fuel, `none` being a run that
-- is out of it: it is the number of packages in the queue and of the edges still to follow, which each
-- turn lowers. `chunks` has as much fuel as there are names, and `normalize_type_str` as there are bytes
-- in the name, since each pass that changes something removes one. The decimal digits of a line number
-- are bounded by the number itself. The counter of the shim wraps at 2 ^ 64.
--
-- Not modelled: OpenTelemetry; while the shim is inside its code, that code is any finite tree of calls
-- back into the shim that ends in a return or a panic, and a context is known by a number. The file
-- system, the environment, Cargo and rustc are arguments, and what `serde_json` and `syn` give is data.
-- Texts other than file contents are Unicode strings, and paths are Unix paths. Of
-- cargo-instrument/src/session.rs the construction of the plan from Cargo's metadata, its fingerprint and
-- its file; of cargo-instrument/src/wrapper.rs the copying of files and the rewriting of dependency
-- files; of cargo-instrument/src/ast.rs the discovery of submodules and the preflight check; of
-- cargo-instrument/src/main.rs the runs of Cargo; the compiler's visitor of the source driver; and
-- printing.
mod Prelude
pub mod Text
pub mod Strips
pub mod Semantics
pub mod Unit
pub mod Bytes
pub mod Candidate
pub mod Transform
pub mod Shim
pub mod Discovery
pub mod Cli
pub mod Sets
pub mod Graph
pub mod Session
pub mod Driver
pub mod InstrumentRust
pub mod Paths
pub mod Ast
pub mod Wrapper
mod Examples
