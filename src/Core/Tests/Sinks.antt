-- ===== src/Core/Tests/Sinks.antt =====
-- Both sinks, and nested scopes, on a few calls.

use sturm_cpp.Common.{ℕ, ◌==◌, ◌%◌, ◌^◌, if◌then◌else◌, ◌≡◌, ◌≢◌, refl, List, [], ◌∷◌, arith}
use sturm_cpp.Common.Int.{pos, negsuc}
use sturm_cpp.Common.Text.{String, eq_iff}
use sturm_cpp.Core.Sink.{
  SinkCall, quantum_binary, op_add, quantum_not, qram_read, theta_add, count, recording, counter,
  SinkState,
}
use sturm_cpp.Core.Sink.Agreement.{counter_all, recording_all, occurrences, sinks-agree}
use sturm_cpp.Core.Sink.Scoped.{done, call, scoped, SinkCode, run, route, deliver, run-routes}

abbrev some_calls : List (SinkCall ℕ)
some_calls =
    quantum_not (pos 1 ∷ []) (negsuc 0)
    ∷ qram_read
    ∷ quantum_binary op_add (pos 1 ∷ []) (pos 2 ∷ []) (negsuc 0)
    ∷ quantum_not (pos 3 ∷ []) (pos 0)
    ∷ []

two_nots : count (counter_all some_calls []) "quantum_not" ≡ 2
unfolding counter_all sturm_cpp.Core.Sink.counter_call count
two_nots = refl

abbrev not_name : String
not_name = "quantum_not"

not-qram_read : not_name ≢ "qram_read"
not-qram_read = ground (arith, eq_iff not_name "qram_read")

sinks-agree_example :
    count (counter_all some_calls []) not_name
    ≡ occurrences (recording_all some_calls []) not_name % 2 ^ 64
sinks-agree_example = sinks-agree some_calls not_name not-qram_read

-- Sink 0 counts, the others record.
abbrev start : SinkState ℕ
start = record { sinks = λ s. if s == 0 then counter [] else recording []; g_sink = 0 }

abbrev nested : SinkCode ℕ
nested = call qram_read (
    scoped 1
      (call (quantum_not (pos 1 ∷ []) (negsuc 0))
        (scoped 2 (call (theta_add (pos 3) 7 (negsuc 0)) done) (call qram_read done)))
      (call (quantum_not (pos 4 ∷ []) (negsuc 0)) done))

run-routes_example :
    ((run nested start).g_sink ≡ 0)
    × ((s : ℕ) → (run nested start).sinks s ≡ deliver (route nested 0) s (start.sinks s))
run-routes_example = run-routes nested start
