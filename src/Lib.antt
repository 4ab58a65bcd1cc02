-- ===== src/Lib.antt =====
-- pg_jitter: a JIT provider of PostgreSQL. This library models the functions that the generated code
-- calls or inlines, the tables that it searches, and the state that the program keeps between queries:
-- the cache of compiled patterns, the code of a parallel query, the records of a JIT context.
--
-- The program compiles an expression to machine code. For a function on scalar values the code calls
-- one of the functions of src/pg_jit_funcs.c; for a CASE over sorted constants it calls a search
-- helper of src/pg_jitter_common.c on a descriptor; for IN lists and LIKE patterns it calls
-- src/pg_jitter_simd.c on a table that was built when the expression was compiled. Each function is
-- modelled under its name.
--
-- Machine models the C integers: a signed value is the integer that it stands for, and each cast wraps
-- around. Prelude and Bits hold the helpers on numbers and lists.
--
-- Tier1 models src/pg_jit_funcs.c: Tier1.Checked the errors and PostgreSQL's overflow-checked
-- operations, a parameter with their documented behaviour; Tier1.Arith the arithmetic; Tier1.Compare
-- the comparisons, of intervals too, larger, smaller and the three-way comparisons; Tier1.Shift the
-- shifts and complements; Tier1.Cast the casts; Tier1.Words the bitwise operations and Booleans;
-- Tier1.Sum the sums, with an aggregate as the run over its rows.
--
-- CaseSearch models the search helpers of src/pg_jitter_common.c on the CaseBSearchDesc of
-- src/pg_jitter_common.h. The arrays behind the header are lists, and a read outside them is a fault.
-- The loops count rounds: one more than the number of thresholds, since each round shortens the rest
-- of the search by one at least. The helpers for each type share the loop that their bodies repeat.
--
-- CaseDetect models the detection of such CASE expressions in src/pg_jitter_common.c: CaseDetect.Steps
-- the steps of an expression with the meaning that PostgreSQL's interpreter gives them,
-- CaseDetect.Classify the table of comparison functions, CaseDetect.Branches the reading of branches
-- with one comparison, CaseDetect.Build the sort and the descriptor, CaseDetect.Detect the first pass,
-- CaseDetect.Ranges and CaseDetect.RangeBuild the second pass, for ranges, and CaseDetect.Select the
-- choice of the search helper. Where the code reads steps[i + k], the model reads the list of the
-- steps from i on, and the branches that the code counts are the list of what they hold. PostgreSQL's
-- functions, the comparisons of floating-point numbers, qsort and the lookup of direct functions are
-- parameters. A pass counts rounds: a round for each step and each place for a pattern is enough, in
-- the second pass on steps whose jumps lead forward, as PostgreSQL compiles them. The collection of
-- ranges counts the 128 branches of the code.
--
-- OpenTable holds the loops that the hash tables of src/pg_jitter_simd.c share, over any type of
-- slots, and what they keep. A probe counts as many rounds as the table has slots, and the doubling of
-- the size counts 32, as an int holds 31 doublings of 1. InList models the IN lists of integers:
-- InList.SortedArray the sorted array and its branch-free search, InList.HashTable the hash table,
-- whose hash function is a parameter, as the repository uses a processor instruction where there is
-- one. TextHash models the IN lists of texts: the table, and its building from a constant array.
--
-- Like models the LIKE matchers of src/pg_jitter_simd.c: Like.Pattern decodes a pattern to tokens and
-- says what text they match, Like.Fast is the fast path for one literal with `%` around it. Escapes
-- are backslashes, StringZilla's functions are parameters with their documented behaviour.
-- Like.Compiled is the compilation to segments and pieces and Like.Scan the matcher of the compiled
-- form, as definitions: the order of the passes over the pattern is the order of the functions. The
-- scan of a segment counts one round more than the text has bytes, as each round moves the scan to the
-- right.
--
-- Pcre2 models src/pg_jitter_pcre2.c. Pcre2.Cache is the cache of compiled patterns: the heap maps the
-- address of each live entry to it, and a use of a dead entry or a failed assertion is a fault; an
-- address is not used twice, so that a stale pointer is seen. Which allocations and calls of PCRE2
-- succeed is a parameter of each compilation. The loops over the cache count its 64 slots, a slot outside
-- them is a fault, and so is a reference count beyond an int. Pcre2.Regex
-- is like_to_regex, and a reader of the part of PCRE2's syntax that it uses; a text is a string of
-- bytes in it.
--
-- ScalarArray models the evaluation of an operator over an array in src/pg_jitter_simd.c: the
-- functions of the operators and the table of types are PostgreSQL's, and parameters; a null bitmap is
-- the list of its bytes, and the data area the list of the datums that PostgreSQL's macros read from
-- it by the layout of the type that is stored there; by another layout they read none.
--
-- NullBitmap models the bulk check of a null bitmap in src/pg_jitter_simd.c. Its vector loop takes the
-- least of sixteen bytes.
--
-- SharedCode models the area of a parallel query in which the leader stores its code and the workers
-- find it, in src/pg_jitter_common.c. An entry stands at its offset as a whole, and memory in which
-- none was written has none; a lookup gives its error code with its result. The lock is free when a
-- call starts or the call does not return, since the model has one process at a time. The sizes are those of a platform with pointers of 8 bytes.
--
-- Context models the life of a JIT context in src/pg_jitter_common.c: what is registered in it, its
-- auxiliary memory and its release. The calls of the free functions are recorded in a list.
--
-- Adaptive models the statistics table of src/pg_jitter_meta.c, which a backend keeps of the cost of
-- each code generator for each profile of an expression; Adaptive.Table the operations,
-- Adaptive.Lookup that the table maps hashes to slots, Adaptive.Profile the profile of the steps,
-- Adaptive.Select the choice of a backend, to which the doubles of the costs, their order, the
-- settings and a random number are parameters. A NULL table is none, and an index of -1 is none. The
-- proofs on the choice are in Adaptive.Cheapest (the loop for the least cost), Adaptive.Pools (the
-- backends to draw from), Adaptive.Costs (what is read of an entry) and Adaptive.Choice.
--
-- Not modelled: the code generators over sljit, asmjit and MIR, the loading of providers, the creation
-- of the shared memory of parallel workers and its deform code, and the steps that call back into
-- PostgreSQL, which are glue around code that is not in the repository; floating-point and numeric
-- functions, with the search helpers for floats; the storing of the descriptors of CASE expressions in
-- the steps; the calls that match with PCRE2, the conversion of PostgreSQL's own regular expressions,
-- and JSON parsing.
pub mod Prelude
pub mod Machine
pub mod Tier1
pub mod Bits
pub mod CaseSearch
pub mod CaseDetect
pub mod InList
pub mod Adaptive
pub mod Pcre2
pub mod ScalarArray
pub mod SharedCode
pub mod OpenTable
pub mod TextHash
pub mod Context
pub mod NullBitmap
pub mod Like
mod Examples
