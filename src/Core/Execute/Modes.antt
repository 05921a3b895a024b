-- ===== src/Core/Execute/Modes.antt =====
-- The three modes on the same calls.
use sturm_cpp.Common.{
  ℕ, suc, ◌+◌, ◌%◌, ◌^◌, ◌<◌, ◌≡◌, refl, arith, Option, none, some, List, [], ◌∷◌, ◌++◌,
}
use sturm_cpp.Common.{length, ap, ◌∙◌, All}
use mathlib.Core.Path.{ap₂}
use mathlib.Core.List.{append-nil, append_assoc}
use sturm_cpp.Core.GateKind.{GateKind, gate_info_of}
use sturm_cpp.Core.Orkan.{Angle, StateVector}
use sturm_cpp.Core.Context.{BackendContext, GateRecord, count_only, append, simulate}
use sturm_cpp.Core.Execute.{simulate_gate, gate_record, execute_gate}

-- The calls that the simulator makes for one record.
abbrev pub replay_record : StateVector → GateRecord → Option StateVector
replay_record sv r = simulate_gate sv r.kind (r.q0 ∷ r.q1 ∷ r.q2 ∷ []) r.n r.param

-- One call of `execute_gate`, as its caller states it.
pub record Call : Type 0 where
  pub kind : GateKind
  pub qubits : List ℕ
  pub param : Angle

-- `execute_gate` on each call in turn, with the arity that the caller passes.
pub run_calls : List Call → BackendContext → Option BackendContext
run_calls [] ctx = some ctx
run_calls (c ∷ cs) ctx = elim (execute_gate c.kind c.qubits (length c.qubits) c.param ctx) [
  | none ↦ none
  | some ctx' ↦ run_calls cs ctx'
]

-- The operands are as many as the gate's arity says.
abbrev pub IsCall : Call → Type 0
IsCall c = length c.qubits ≡ (gate_info_of c.kind).arity

-- A record holds all that the simulator reads of a call.
simulate-record :
    (sv : StateVector) (kind : GateKind) (qubits : List ℕ) (θ : Angle)
    → length qubits ≡ (gate_info_of kind).arity
    → (sv' : StateVector) × (simulate_gate sv kind qubits (length qubits) θ ≡ some sv')
      × (replay_record sv (gate_record kind qubits (length qubits) θ) ≡ some sv')
unfolding simulate_gate gate_record gate_info_of
simulate-record sv GateKind.gate_x qubits θ h = (_, refl, ground arith)
simulate-record sv kind qubits θ h = (_, refl, ground arith)

abbrev pub records : List Call → List GateRecord
records [] = []
records (c ∷ cs) = gate_record c.kind c.qubits (length c.qubits) c.param ∷ records cs

abbrev pub replay : StateVector → List GateRecord → Option StateVector
replay sv [] = some sv
replay sv (r ∷ rs) = elim (replay_record sv r) [ none ↦ none | some sv' ↦ replay sv' rs ]

module _ (ctx : BackendContext) where
  abbrev pub in_count : ℕ → BackendContext
  in_count k = record ctx { mode = count_only; gate_count = k }

  abbrev pub in_append : ℕ → List GateRecord → BackendContext
  in_append k rs = record ctx { mode = append; gate_count = k; ir = rs }

  abbrev pub in_simulate : ℕ → StateVector → BackendContext
  in_simulate k sv = record ctx { mode = simulate; gate_count = k; orkan_state = some sv }

  execute_gate-count :
      (c : Call) (k : ℕ)
      → execute_gate c.kind c.qubits (length c.qubits) c.param (in_count k)
        ≡ some (in_count ((k + 1) % 2 ^ 64))
  unfolding execute_gate
  execute_gate-count c k = refl

  execute_gate-append :
      (c : Call) (k : ℕ) (rs : List GateRecord)
      → execute_gate c.kind c.qubits (length c.qubits) c.param (in_append k rs)
        ≡ some (in_append ((k + 1) % 2 ^ 64) (rs ++ records (c ∷ [])))
  unfolding execute_gate
  execute_gate-append c k rs = refl

  execute_gate-simulate :
      (c : Call) (k : ℕ) (sv sv' : StateVector)
      → simulate_gate sv c.kind c.qubits (length c.qubits) c.param ≡ some sv'
      → execute_gate c.kind c.qubits (length c.qubits) c.param (in_simulate k sv)
        ≡ some (in_simulate ((k + 1) % 2 ^ 64) sv')
  unfolding execute_gate
  execute_gate-simulate c k sv sv' h = ground arith

-- From one context, the three modes take the same calls: each counts every gate modulo 2 ^ 64
-- and none fails; COUNT_ONLY changes nothing else, APPEND appends one record for each call, and
-- SIMULATE takes the statevector to what replaying those records gives.
pub modes_agree :
    (cs : List Call)
    → All IsCall cs
    → (ctx : BackendContext) (k : ℕ) (rs : List GateRecord) (sv : StateVector) → k < 2 ^ 64
    → (sv' : StateVector) × (replay sv (records cs) ≡ some sv')
      × (run_calls cs (in_count ctx k) ≡ some (in_count ctx ((k + length cs) % 2 ^ 64)))
      × (run_calls cs (in_append ctx k rs)
          ≡ some (in_append ctx ((k + length cs) % 2 ^ 64) (rs ++ records cs)))
      × (run_calls cs (in_simulate ctx k sv)
          ≡ some (in_simulate ctx ((k + length cs) % 2 ^ 64) sv'))
unfolding run_calls
modes_agree [] h ctx k rs sv lt = (
  sv,
  refl,
  ap (λ n. some (in_count ctx n)) (omega arith),
  ground (arith, append-nil rs),
  ap (λ n. some (in_simulate ctx n sv)) (omega arith),
)
modes_agree (c ∷ cs) h ctx k rs sv lt =
    let (mid, forward, replayed) = simulate-record sv c.kind c.qubits c.param h.0 in
    let (out, r, p, q, s) =
      modes_agree cs h.1 ctx ((k + 1) % 2 ^ 64) (rs ++ records (c ∷ [])) mid (omega arith) in
    let total : ((k + 1) % 2 ^ 64 + length cs) % 2 ^ 64 ≡ (k + suc (length cs)) % 2 ^ 64 =
      omega arith in
    (
      out,
      rw (replayed, replay) r,
      rw (execute_gate-count ctx c k, run_calls) (p ∙ ap (λ n. some (in_count ctx n)) total),
      rw (execute_gate-append ctx c k rs, run_calls)
          (q
            ∙ ap₂ (λ n xs. some (in_append ctx n xs)) total
                (append_assoc rs (records (c ∷ [])) (records cs))),
      rw (execute_gate-simulate ctx c k sv mid forward, run_calls)
          (s ∙ ap (λ n. some (in_simulate ctx n out)) total),
    )
