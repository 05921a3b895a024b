-- ===== src/Core/Sink/Scoped.antt =====
-- Code under nested scoped sinks.

use sturm_cpp.Common.{ℕ, ◌==◌, ◌≡◌, ◌∙◌, ap, refl, sym, List, [], ◌∷◌, ◌++◌, if◌then◌else◌}
use sturm_cpp.Core.Sink.{
  SinkCall, Sink, SinkState, method_call, set_current_sink, call_current, scoped_sink,
}

-- Code that calls the current sink and opens scopes: the rest of the code comes last.
pub data SinkCode (Double : Type 0) : Type 0 where
  done : SinkCode Double
  call : SinkCall Double → SinkCode Double → SinkCode Double
  scoped : ℕ → SinkCode Double → SinkCode Double → SinkCode Double

module _ {Double : Type 0} where
  unfoldable pub run : SinkCode Double → SinkState Double → SinkState Double
  unfolding scoped_sink call_current
  run done st = st
  run (call c rest) st = run rest (call_current c st)
  run (scoped s body rest) st = run rest (scoped_sink s (run body) st)

  -- The calls with the sink of the innermost scope around each.
  unfoldable pub route : SinkCode Double → ℕ → List (ℕ × SinkCall Double)
  route done here = []
  route (call c rest) here = (here, c) ∷ route rest here
  route (scoped s body rest) here = route body s ++ route rest here

  -- What one sink has after the calls that are routed to it.
  unfoldable pub deliver : List (ℕ × SinkCall Double) → ℕ → Sink Double → Sink Double
  unfolding method_call
  deliver [] s sink = sink
  deliver ((t, c) ∷ calls) s sink = deliver calls s (if s == t then method_call c sink else sink)

  deliver-append :
      (cs ds : List (ℕ × SinkCall Double)) (s : ℕ) (sink : Sink Double)
      → deliver (cs ++ ds) s sink ≡ deliver ds s (deliver cs s sink)
  unfolding deliver
  deliver-append [] ds s sink = refl
  deliver-append ((t, c) ∷ cs) ds s sink = deliver-append cs ds s _

  run-restores : (code : SinkCode Double) (st : SinkState Double) → (run code st).g_sink ≡ st.g_sink
  unfolding run call_current scoped_sink set_current_sink
  run-restores done st = refl
  run-restores (call c rest) st = run-restores rest (call_current c st)
  run-restores (scoped s body rest) st = run-restores rest (scoped_sink s (run body) st)

  run-delivers :
      (code : SinkCode Double) (st : SinkState Double) (s : ℕ)
      → (run code st).sinks s ≡ deliver (route code st.g_sink) s (st.sinks s)
  unfolding run call_current scoped_sink set_current_sink route deliver
  run-delivers done st s = refl
  run-delivers (call c rest) st s = run-delivers rest (call_current c st) s
  run-delivers (scoped t body rest) st s =
      run-delivers rest (scoped_sink t (run body) st) s
      ∙ ap (deliver (route rest st.g_sink) s) (run-delivers body (set_current_sink t st) s)
      ∙ sym (deliver-append (route body t) (route rest st.g_sink) s (st.sinks s))

  -- Code under nested scoped sinks leaves the sink of the thread as it found it, and every
  -- sink has received, in order, the calls made where its scope was the innermost one.
  pub run-routes :
      (code : SinkCode Double) (st : SinkState Double)
      → ((run code st).g_sink ≡ st.g_sink)
        × ((s : ℕ) → (run code st).sinks s ≡ deliver (route code st.g_sink) s (st.sinks s))
  run-routes code st = (run-restores code st, λ s. run-delivers code st s)
