-- ===== src/Lib.antt =====
-- Brane: a framework that runs workflows written in BraneScript over packages.
--
-- What is modelled, and where:
--   * specifications/src/version.rs: Version.antt (the record, its order, `resolve_latest`, the
--     conversions of `semver::Version`) and Version/Text.antt (`FromStr` and `Display`).
--   * specifications/src/common.rs: Value.antt (the data of `Value`, `data_type`) and
--     Value/Show.antt (`Display`).
--   * specifications/src/package.rs: Packages.antt (`PackageInfo`, `PackageIndex` with
--     `from_packages`, `new` and `get`); Packages/Keys is about the keys of its map, Packages/Lookup
--     about `get` with a version, Packages/Latest about `get` without one, Packages/Duplicates about
--     the error of `from_packages`.
--   * brane-bvm/src/heap.rs: Heap/Defs.antt. `alloc` collects objects that nothing else refers to,
--     puts the new object in the place of the first, or at the end if there is space.
--   * brane-bvm/src/bytecode.rs: Bytecode/Opcodes.antt, Bytecode/Chunk.antt (code that is being
--     written) and Vm/Calls/Freeze.antt (`freeze`).
--   * brane-bvm/src/stack.rs, objects.rs and builtins.rs: Vm/Slot.antt, Vm/Stack.antt,
--     Vm/Convert.antt (`into_value`) and Vm/Calls/Values.antt (`from_value`).
--   * brane-bvm/src/executor.rs and builtins.rs: Vm/Calls/Executor.antt (the trait `VmExecutor` as a
--     record, and the builtin functions).
--   * brane-bvm/src/frames.rs: Vm/Frames.antt.
--   * brane-bvm/src/vm.rs: Vm/State.antt (the machine), Vm/Ops and below (a function for each
--     instruction), Vm/Run.antt (the loop) and Vm/Calls and below: Call (`arguments`, `call`, `op_call`),
--     Import (`op_import`), Parallel (`op_parallel`, `capture_state`), Main (`new_with_state`,
--     `main`, `anonymous`). Vm/Effects says what operations that succeed leave, Vm/Imports what an
--     import leaves.
--   * brane-dsl/src/parser/ast.rs: Dsl/Ast.antt.
--   * brane-dsl/src/scanner: Dsl/Scanner/Scan.antt (scanner.rs, literal.rs, comments.rs);
--     Dsl/Scanner/Words is about keywords and comments.
--   * brane-dsl/src/scanner/tokens.rs and brane-dsl/src/parser: Dsl/Syntax/Token.antt (`Token`),
--     Parsed (`tag_token!`), Operator (operator.rs, identifier.rs, literal.rs), Expression
--     (expression.rs, instance.rs) and Statement (bscript.rs). Dsl/Syntax/Grammar and Program are the
--     grammars of expressions and statements, as derivations, which do not mention the parser;
--     Operators, Pratt, Reaching, Lists and Precedence prove the expression parser against the
--     first, Alternatives, Starts, Dispatch, Constructs, Parts and Scripts the statement parser
--     against the second. Failures is about hanging and panics of the parser, Classes about the
--     tables of a class.
--   * brane-dsl/src/lib.rs: Dsl/Compiler.antt (`Compiler::compile`).
--   * brane-dsl/src/generator/generator.rs: Dsl/Generator and below (Writer: what is written to a
--     chunk; Compile: expressions; Statements: statements and functions).
--   * Dsl/Correct and below relate the compiler to the machine: Semantics says what an expression
--     denotes, by what the operators are documented to mean; Exchange and Kinds are about the four
--     comparisons `<`, `>`, `<=` and `>=`, whose operands the machine takes in the wrong order;
--     Machine and Operators say what the instructions do, Expressions joins compiler and machine,
--     Jumps is about patched jumps.
--   * Dsl/Run and below follow a script from its compilation to the end of `main`: Frozen is about
--     freezing, Start about calling, Denotation says what a script denotes, Scripts is about the
--     code of its statements, Session joins them, Source adds
--     the parser in front, and Branches is about `anonymous`. Dsl/Bytes and below are about the size
--     of what the compiler writes.
-- Prelude and below hold what these share: Boolean tests, lists that are vectors, results, `i64`, and
-- a state that changes while an operation may fail.
--
-- How the parts interact: the scanner turns characters into tokens, the parser tokens into a syntax
-- tree, and the compiler this tree into a chunk of byte code and constants;
-- the machine reads a function's code through its last call frame, keeps operands and locals on the
-- stack, and allocates objects on the heap, which collects what the machine no longer holds. `main`
-- freezes a compiled function, calls it and runs the loop; an import looks a package up in the index
-- and makes globals of its functions, and a call of one of these goes to the executor.
--
-- Conventions:
--   * Bytes and `u16`, `u64` and `usize` numbers are natural numbers, and every place where one can
--     wrap around says so with `%`. `i64` arithmetic is that of a release build: it wraps around, and
--     a division by zero, or of the least integer by -1, panics. The scope of the compiler, an `i32`,
--     is a natural number.
--   * An `f64` is its bit pattern; what the code does with it is the parameter `F64`.
--   * A `Handle`, that is, an `Arc`, is an address and the object behind it, which never changes. Its
--     strong count is computed: the vector's own reference, the handles that the program holds, and
--     those inside objects. The addresses that are held are a parameter of `alloc`, which the machine
--     fills with those of its stack, globals, frames and locations.
--   * A hash map is an association list. The end of a list is the end of a `Vec`, but for the frames
--     and locations of the machine, whose first is the last of the `Vec`.
--   * `Outcome` has a return, an error and a panic. A state that an error interrupts is kept as it
--     was then. Some of the texts in errors are shortened.
--   * `Parameter` has no default value, and an import of the syntax tree no version.
--
-- Fuel: `run` of Vm/Run.antt takes a number of rounds, for a script can loop forever; what is shown
-- of it gives the rounds. `show_digits` takes twenty digits, which a `u64` never exceeds. The loop
-- of `alloc` takes as many rounds as the vector had objects, and that of `drop_locals` as many as
-- there are locals, which are the bounds of the source's loops.
--
-- The parser's fuel is the depth of its calls, and in `expr_pratt` also the rounds of the loop: one
-- more than the input has tokens, which is enough for every script of the grammar. A parser that has
-- used it up gives `spent`.
--
-- Parameters: the combinators of nom (Nom of Dsl/Syntax/Nom.antt, with the laws NomLaws that nom
-- documents; Dsl/Syntax/Combinators shows that they can hold), its parsers of characters
-- (Characters of Dsl/Scanner/Characters.antt, with CharactersLaws), `f64::from_str` and what
-- `semver::Version::parse` accepts; the executor (Executor of Vm/Calls/Executor.antt), whose answers
-- are functions of what it is asked, without the texts of debug messages; and the machine that runs a
-- parallel branch (`branch` of Outside in Vm/Calls/Main.antt), a function of the captured state and
-- the branch. `Opcode::from_u8`, which `derive(FromPrimitive)` generates, is written out in
-- Bytecode/Opcodes.antt by the discriminants of the enum. The id and the time of a package are left out, and a key of the index is the list of
-- its characters.
--
-- Not modelled: the disassembler, whose text only debug messages read (`call` of the machine unwraps
-- it, which can panic on code that the compiler does not write), and logging; `from_path`,
-- `from_url` and the other readers and writers of package descriptions; the Bakery language, the
-- texts of the errors of the compiler and the positions in a span; and the services
-- (brane-api, brane-clb, brane-drv, brane-job, brane-let, brane-log, brane-net,
-- brane-plr) and tools (brane-cli, brane-oas), which are input and output around Docker, Kafka,
-- gRPC and HTTP.
pub mod Prelude
pub mod Version
pub mod Value
pub mod Packages
pub mod Heap
pub mod Bytecode
pub mod Vm
pub mod Dsl
