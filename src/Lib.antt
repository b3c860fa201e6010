-- ===== src/Lib.antt =====
-- Basilisp: a Lisp on Python. This library models the parts of its runtime that keep state under
-- concurrency or under a bound (transactions, agents, atoms, channels, caches, chunked sequences and
-- multimethods), its specs, its memoization, its hashes and machine integers, its priority maps, the
-- stream of its reader and the optimizer of its compiler, and the cached bytecode of its importer.
--
-- Base: shared helpers. Base/Dict is Python's `dict` in insertion order; Base/Int the integers.
--
-- Stm: src/basilisp/lang/stm.py, with the validation of src/basilisp/lang/reference.py.
--   Stm/Ref holds the Refs (`Ref`, `_history_limit`), Stm/Transaction the staging operations of
--   `_Transaction`, Stm/Commit its `commit`, Stm/Attempts `run_transaction` with the watches and the
--   actions after a commit, Stm/Body the calls of a transaction's body while other threads commit.
--   A store maps the number of a Ref to its fields. A commit holds the lock of every Ref that it
--   touches, so it is one step; between two calls of a body the store may change. A function of the
--   program returns a `Result`, which is a value or what it raised, and does not touch the store.
--   The loop of `run_transaction` runs on fuel; without a limit on the attempts
--   it may go on for ever, and with a limit that number is enough. Sets are iterated in the order in
--   which their elements were put in.
--   Stm/Effect and Stm/Reads have the lemmas on commits and reads.
--
-- Channel: src/basilisp/concurrent_channel.py. Channel/Waiters holds `_Selection` and `_Waiter`,
--   Channel/Ops the class `Channel`, Channel/Alts `alts` over a system of channels and `timeout`. A
--   future is a number and a cell says what became of it; a coroutine that awaits a future is not
--   there, only the future that it waits on. Every call names the event loop that it runs in.
--   Channel/Queue and Channel/Puts relate a channel to the queue of the values that it is offered,
--   Channel/Closing has the end of a channel.
--   `pipe`, `transduce` and `pipeline` are not modelled.
--
-- Cache: src/basilisp/core_cache.py. Cache/Map is the interface of the persistent maps, whose trie
--   is a package, as a record of operations and a record of laws; the keys are the values of the
--   program up to their equality. `LRUCache` is given the equality of its dict of ticks, which is
--   Python's `==` and for which equal numbers of two types (1, 1.0 and True) are one key; the theorems
--   about it take those caches where this is the equality of the map. The dicts of `LUCache`,
--   `LIRSCache` and `TTLCacheQ` have the equality of the map. Cache/Fifo also has the operations that
--   all caches share and those of `FnCache`; Cache/Lru, Cache/Ttl, Cache/Lu and Cache/Lirs have one
--   policy each. The time in milliseconds is an argument. Cache/Mapping has the methods that make a
--   cache look like a map, without `cons`, `items` and `empty`. The soft cache is not modelled.
--
-- Range, Chunk: src/basilisp/lang/range.py over the integers, and src/basilisp/lang/chunk.py.
--   Metadata, `cons` and iterators are not modelled.
--
-- Agent: src/basilisp/lang/agent.py. Agent.antt has the operations of the class; what an executor
--   raises is an argument of each. Agent/Order has the sequences of calls, a restart that clears the
--   queue among them, and of turns of the executors, Agent/State what they make of the state. The run
--   of an action is one step, and a handler, a watch or an action does not change the agent by itself.
--   The thread's marker of the running agent and the time limits of waits are not modelled.
--
-- Atom: src/basilisp/lang/atom.py. The loop of `swap` runs on fuel, a turn for each unit, and what
--   other threads make of the state is an argument. States are compared by Python's `==`, which is a
--   parameter: a turn that finds a state equal to the one it read ends the loop, so fuel for that turn is
--   enough. Atom/Swap has the theorems.
--
-- Delay: src/basilisp/lang/delay.py, over the atoms. `none` is a delay that is not computed; the
--   function of the delay is given by what a call of it returns or raises, which may be another thing
--   at each call. The states are compared by a parameter too.
--
-- MultiFn: src/basilisp/lang/multifn.py. The hierarchy is a reference that others change, so each
--   operation is given the value that it holds then; `isa?` is a parameter, and the maps are those of
--   Cache/Map. MultiFn/Coherence compares the cache with a search without one, over sequences of
--   calls; MultiFn/Best has what the search finds.
--
-- Spec: `conform` and `unform` of src/basilisp/lang/spec.py. Spec.antt has the specs as data and the
--   values of the host as an interface; Spec/Conform has `_conform` and `_match_regex_all` with the
--   functions that they call, without the list of problems, and Spec/Unform has `unform`. A keyword
--   stands with the spec that the registry holds for it, so specs that refer to themselves are not
--   modelled. A position in the values is the list of the values from there on. A generator is the
--   list of what it yields with the exception that ends it; one that is left early is read no
--   further. The loop of a repeated spec has as much fuel as there are values left and one more:
--   each turn takes a value or ends the loop. Spec/Laws has the laws of the values and the specs
--   that can be turned back, Spec/Matching and Spec/RoundTrip the proof that `unform` does so,
--   Spec/Loops and Spec/Ends that the fuel is enough. Predicates, tests of membership and
--   conformers are functions of the host that do not raise; the law `vec-iter` leaves out sets and other
--   iterables where `unform` gives a vector back.
--   `explain`, generators of samples and instrumentation are not modelled.
--
-- Reader: `StreamReader` of src/basilisp/lang/reader.py. Reader.antt has the class, with
--   `IndexError` as `none` and the deques newest entry first; Reader/Window and Reader/Stands say how
--   its deques stand for the text at a place, Reader/Cursor follows moves of the reader, Reader/Text
--   reads a text to its end. The readers of forms are not modelled.
--
-- Number: src/basilisp/lang/numeric_coerce.py (Number.antt) and src/basilisp/lang/equality.py
--   (Number/Equality). A finite decimal or float is the fraction that it stands for. Equality of
--   values that are not numbers, and all hashes, are parameters. Number/Wrap has the wrap-around,
--   Number/Coerce the conversions, Number/Keys the storage keys and Number/Relation the symmetry and
--   transitivity of equality. Conversions to floats and decimals are not modelled.
--
-- PriorityMap: src/basilisp/lang/priority_map.py. The maps of the package `immutables` are an interface;
--   a comparator gives a Boolean or an integer, and Python's sort is a stable insertion. A key to
--   store is a wrapper around a number, or the key itself. PriorityMap/Least has the first entry, by the
--   order of the priorities that the comparator itself says,
--   PriorityMap/Wrapped the keys that `dissoc` does not find. Arguments come as pairs, so the error for
--   an odd number of them is not there.
--
-- Optimizer: src/basilisp/lang/compiler/optimizer.py. Optimizer.antt has Python's syntax trees as
--   far as the optimizer takes them apart, Optimizer/Rewrite the class `PythonASTOptimizer` with the
--   functions that it calls; names are numbers, a call has positional arguments only, an `except`
--   clause has a type, and the order in which a set is listed is that of the names. `none` is an
--   exception. Optimizer/Meaning is what such trees do: values, lookups, calls and operators are a
--   record `Python`, a program has a state, and a loop runs on fuel. It gives `global` no meaning, so
--   the statements that Optimizer/Preserves is about have no such declaration; a body without
--   statements and a `del` in the place of an expression are outcomes of their own, since Python does
--   not compile them. The optimizer itself runs no loop, and what it keeps holds for any fuel.
--   Optimizer/Calls has the calls of the module `operator`, whose behaviour is a hypothesis,
--   Optimizer/Visits the expressions, Optimizer/Flow dead code and branches, and Optimizer/Preserves
--   the statements without `global`.
--
-- Memo: src/basilisp/core_memoize.py. Memo.antt has the memoized function: its cache is an
--   interface, a `RetryingDelay` is a number with its fields in a table, and the memoized function is
--   given the calls of it made before, so it may fail and then succeed. The part of `__call__` under
--   the lock is one step, the end of a delay another, and so is `memo_clear`, which does not take the
--   lock. `__call__` calls itself when the cache lost the key; a turn for each unit of fuel, and one
--   is enough with a cache that keeps the laws. Memo/Right and Memo/Once follow calls among the steps
--   of others, Memo/Policies has the caches of `memo` and `lru`. A function that calls itself through
--   its own memo, `memo_swap` among such steps and the metadata are left out.
--
-- Hash: src/basilisp/lang/hashing.py. Hash.antt has its 32-bit arithmetic, with the wrap-around of
--   Number.antt and the bit operations of the native numbers, Hash/Values the values by the branches of
--   `clojure_hash`. Strings are UTF-16 units; the 64 bits of a float, the text of a decimal that is not
--   finite and Python's hash of a record or a host object come with the value. The loop over the words
--   of a magnitude has the magnitude as fuel, which Hash/Words shows to be enough.
--
-- Importer: src/basilisp/importer.py. Importer.antt has the files of cached bytecode and the
--   artifacts, as lists of bytes, with the functions that write and check them, and the loading of a
--   module from its cache or by a compilation. `marshal` is a pair of parameters, of which it is only
--   taken that an object that was written is read again; what the compiler makes of the source, and
--   the exception with which the code of a module may end, are arguments. Importer/Cached has the
--   theorems.
--
-- Tests: a map that has the laws, and the theorems at concrete inputs.
--
-- Not modelled: the readers of forms, the analyzer and the generator of the compiler and the
-- runtime, which need a semantics of the language; the persistent collections, which wrap packages;
-- input, output, servers and codecs.
pub mod Base
pub mod Optimizer
pub mod Memo
pub mod Hash
pub mod Importer
pub mod Delay
pub mod Stm
pub mod Channel
pub mod Cache
pub mod Range
pub mod Chunk
pub mod Spec
pub mod MultiFn
pub mod Reader
pub mod Number
pub mod PriorityMap
pub mod Agent
pub mod Atom
pub mod Tests
