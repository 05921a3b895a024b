-- ===== src/Lib.antt =====
-- Sturm: a C++ library for quantum programs whose integers and bits may be classical or quantum.
-- This library models its core, from the gate taxonomy up to the arithmetic routines, and the
-- passes of its transpiler on the transpiler's own data, and proves what each layer promises the
-- next.
--
-- The parts and the files that model them:
-- - Core/GateKind: the taxonomy of gates, include/sturm/core/gate_kind.h, src/sturm/core/gate_kind.c.
-- - Core/Pool: the qubit pool, include/sturm/core/qubit_pool.hpp; its laws in Core/Pool/Laws.
-- - Core/ControlStack: the stack of WHEN controls, include/sturm/core/control_stack.hpp.
-- - Core/Context: the backend context and the gate buffer, include/sturm/core/context.hpp and
--   include/sturm/backend/ir.hpp.
-- - Core/Execute: execute_gate with its three modes, src/sturm/core/execute_gate.cpp and
--   src/sturm/backend/exec_simulate.cpp; Core/Orkan has the calls that these make on the vendored
--   statevector library, whose state is seen as the log of those calls, and the rotation angles.
-- - Machine: the pool and the context as one state, a state monad in which `none` is a failed
--   assert or an exception, and the primitives of include/sturm/backend/primitives.hpp;
--   Machine/Emit: the lifted emitters of include/sturm/qtypes/qbool_ops.hpp.
-- - Circuit: the reference semantics of X, CX and CCX on basis states, and registers as numbers.
-- - Machine/Spec: what it means that a call does something to the state: `Effect` and `Performs`
--   speak of the state that the recorded gates lead to, with and without an active control, of
--   the pool after the call, and of the ancillas, which are |0> again.
-- - Library/Adder: include/sturm/detail/lib/adder_dsl.hpp and the reverse adder of div_dsl_adj.hpp;
--   Library/Logic: logic_dsl.hpp and swap_dsl.hpp. A routine on quantum bits is the list of its
--   statements, between the calls of the pool that it makes. These templates are modelled in
--   their instance with `Bit = BitProxy`, whose `^=` and `flip` emit one lifted gate each
--   (Library/Proxies), not in that with `Bit = qbool`, whose `a & b` takes a further ancilla.
-- - Qtypes/Bit: include/sturm/detail/qtypes/bit_proxy.hpp; Qtypes/Operators: the out-of-place
--   operators of include/sturm/qtypes/qbool_ops.hpp; Qtypes/Uncompute:
--   src/sturm/uncompute/uncompute_api.cpp; Qtypes/When: include/sturm/control/when.hpp.
-- - Core/Sink: include/sturm/core/sink.hpp, recording_sink.hpp and counter_sink.hpp; Core/Mask: the
--   masks of superposed bits, include/sturm/core/mask_ops.hpp, on words of 64 bits.
-- - Dispatch: the gate dispatch on classical operands, src/sturm/dispatch.
-- - Transpile/Qir, Transpile/Dump: the intermediate form of the transpiler and its dump,
--   transpiler/include/sturm/transpile/qir.hpp and transpiler/src/qir.cpp.
-- - Transpile/Render: render_uncompute, transpiler/src/uncompute_render.cpp;
--   Transpile/Synthesize: the uncompute pass, transpiler/src/uncompute_pass.cpp;
--   Transpile/SourceMap: line directives, transpiler/src/source_map.cpp; Transpile/Emitter and
--   Transpile/Skip: transpiler/src/emitter.cpp and skip.cpp; Transpile/Adjoint:
--   transpiler/src/adjoint_emitter.cpp; Transpile/Loop: transpiler/src/loop_reversal.cpp;
--   Transpile/Synthesis: transpiler/src/synthesis_registry.cpp; Transpile/Plugin:
--   transpiler/src/plugin_registry.cpp; Transpile/Rewrites: fresh_names.hpp,
--   lossy_rewrite_emitter.cpp, modular_rewrite_emitter.cpp and qram_emitter_assign.cpp there;
--   Transpile/Rewrites/Cleanup: lossy_scope_exit_emitter.cpp.
-- - Transpile/Meaning: what the statements that the passes read and write do to the variables of
--   a program, on values; the calls of uncompute_api.hpp add the value of their Boolean function.
--
-- A matcher fills the intermediate form, the uncompute pass turns it into insertions by rendering
-- each operation, and the emitter hands these to Clang's rewriter. Clang is not part of the
-- repository: what the code asks of its declarations, statements, source manager and rewriter is
-- a parameter, and a source location is its raw encoding.
--
-- Numbers are natural numbers; the gate counter, the counters of a sink and those of fresh names
-- wrap at 2^64, a loop in which an `int` overflows has no run, and qubit indices and the pool do
-- not wrap. Loops are structural recursion on a list; fuel has the printing of a number, with its
-- successor, the search for the lowest set bit of a word, with 64, its bits, and the rounds of a
-- C++ loop, with any number above that of the rounds. A routine is
-- specified on basis states: its gates permute them, and a superposition follows by linearity,
-- which is not stated here. Diagonal gates turn phases only, and are the identity in this view.
--
-- Not modelled: the matchers and the driver of the transpiler, which walk the Clang AST, the
-- drawing backends, QRAM, measurement, the operators that call the sinks, lift_under, phases and
-- rotations of bits, the comparisons and the many-control AND of the library, the modular,
-- multiplying and dividing routines, the front-end integers, and the vendored statevector
-- library, whose gates are calls in a log.
pub mod Common
pub mod Core
pub mod Circuit
pub mod Machine
pub mod Library
pub mod Dispatch
pub mod Qtypes
pub mod Transpile
