-- ===== src/Lib.antt =====
-- toy_brain: a model of the kernel of the `brain` package and of what its correctness rests on.
--
-- The program keeps a self-model: a profile of contents with values in [0, 1], the subset of them
-- that it counts as itself (the MSI), an evaluation of each content, and a registry of texts. A tick
-- takes one percept, asks a language model whether the percept preserves or damages the self-model,
-- and gives the next state with a record of what happened.
--
-- Which file models which part (paths from the repository's root):
--   Fraction: Python's `fractions.Fraction`, as far as the package uses it.
--   Tlica/Profile, Tlica/Msi, Tlica/PtCns, Tlica/Boundary, Tlica/Preservation, Tlica/Builders:
--     brain/tlica/{profile,msi,ptcns,modes,iboundary,preservation,pce,builders}.py and the partition
--     and equality tests of brain/validation.py. A constructor with a `__post_init__` is a function
--     into `Result`; the record is the dataclass.
--   Kernel/Toce, Kernel/Io: brain/toce_core.py and brain/io_types.py.
--   Kernel/State, Kernel/Tick, Kernel/Invariants: brain/tick.py. `tick` is built from its numbered
--     steps; Kernel/Exec has the effects they share (the client, the files of the semantic cache,
--     and the events of brain/trace.py).
--   Kernel/Valid: the well-formedness of a state; Kernel/Tick/{Ingest,Carry,Updates,Correct,Run,
--     Quiet,Reach,Answer} and Kernel/Invariants/{Rules,Rows,Sound}: proofs.
--   Llm/Parse, Llm/Prompt, Llm/Cache, Llm/Eval: brain/llm/parse.py, brain/llm/prompts.py and
--     brain/llm/ptcns_backed.py. Llm/Env lists what these take from outside the repository: the
--     transport of a client, SHA-256, `repr`, the parser of `Fraction(str)` and Unicode's tables.
--   Development/Ids, Development/Stream, Development/Features, Development/Segments and
--     Development/Patterns: brain/development/text_stream.py, with the test of identifiers in
--     brain/development/history.py. Its proofs are Stream/Ring and Segments/{Cover,Loop,Lines}.
--   Development/Ledger: brain/development/pattern_ledger.py, with the proofs in its folder.
--   Development/Promotion: brain/development/promotion.py and the candidate in
--     brain/development/proto_content.py; Promotion/Percept has the proofs.
--   Development/Repl: brain/development/repl.py, the Proto-BASIC surface. Repl/Classify has
--     `_classify_line` and `parse_line`, Repl/Lookup the searches that they make, Repl/Feedback the
--     scores, Repl/Command the commands and their execution, Repl/History the history and
--     Repl/Summary its summary; its other children are proofs.
--   Development/ReplBridge: brain/development/agent_repl_bridge.py; ReplBridge/Line has
--     `run_repl_line`, which takes one line through all of these, ReplBridge/Summary the summary for
--     a reply, and ReplBridge/{Run,Executes,Emissions} the proofs.
--   Composer: brain/ui/composer.py, the edit model of the operator's command line. Every handler of a
--     key is a function of the state; Composer/Keys runs a sequence of them.
--   Commands: brain/ui/commands.py, the payloads; Commands/Make has `make_command`.
--   CommandLine: brain/ui/command_line.py, the parser of a submitted line, which calls
--     `make_command`. CommandLine/Handlers has a function for each `_parse_` method.
--   Examples: runs at concrete inputs.
--
-- How the source is read:
--   A string is the list of its code points. A set is a list read through membership alone; a
--   mapping is an association list in the order of insertion. An exception is the constructor of
--   `Error` that its message's row or condition names, and a raise keeps the effects before it.
--   A fraction is not reduced; its tests multiply across, so they do not depend on that, and its
--   numerator and denominator in lowest terms are computed where the source reads them.
--   Tests of the type of an argument have no counterpart, since the models are typed. Readings of
--   the clock and the formatted text of errors are left out of the trace's events, and the sorted
--   lists in them are sets. A tracer is one that keeps its events in memory behind `SafeTracer`.
--   `tick` takes at most one event, so its loops over events are recursions on that list; the retry
--   loop is a recursion on the number of attempts left, which is `max_attempts` at the start, so no
--   bound is added to those of the source.
--
--   The ledger reaches its 64 entries and the stream its bound by recursion on the list of what is
--   observed or appended, and the cut of a text into segments by recursion on the text, so none of
--   them needs fuel. The digest behind a pattern's identifier is a parameter, and so are
--   `str.casefold` and `str.lower`. A line of the Proto-BASIC surface has four pieces at most, and its
--   parser recurs on them and on the shapes of the grammar.
--
-- Not modelled: the transports of brain/llm/client.py, the file tracer, the scenario runner and its
-- JSON, the catalog's fixture runner, the developmental modules but for the text stream, the pattern
-- ledger, the promotion of a candidate and the Proto-BASIC surface with its bridge, and the
-- operator's interface but for the composer, the commands and their parser: its session, its
-- rendering, its terminal and its files.
pub mod Prelude
pub mod Fraction
pub mod Tlica
pub mod Kernel
pub mod Llm
pub mod Development
pub mod Commands
pub mod CommandLine
pub mod Composer
pub mod Examples
