-- ===== src/Machine/Spec/Gates.antt =====
-- The gates that a call records, and the state that they lead to.
use sturm_cpp.Common.{
  ℕ, ◌+◌, ◌%◌, ◌^◌, ◌≡◌, refl, sym, ap, ◌∙◌, arith, Option, some, List, [], ◌∷◌, ◌++◌, length,
}
use sturm_cpp.Core.GateKind.{GateKind}
use sturm_cpp.Core.Orkan.{Angle}
use sturm_cpp.Core.Context.{GateRecord, append}
use sturm_cpp.Core.Execute.{execute_gate, gate_record, exec_append}
use sturm_cpp.Circuit.{Bits, Op, op_x, op_cx, op_ccx, run_op, run}
use sturm_cpp.Circuit.Laws.{run-append}
use sturm_cpp.Machine.{Machine, M, ◌>>=◌, ◌>>◌, gate, primitive_x, primitive_xor, primitive_and}
use sturm_cpp.Machine.Spec.{apply_gate, apply_records, state}

apply_records-append :
    (rs ps : List GateRecord) (s : Bits)
    → apply_records (rs ++ ps) s ≡ apply_records ps (apply_records rs s)
unfolding apply_records
apply_records-append [] ps s = refl
apply_records-append (r ∷ rs) ps s = apply_records-append rs ps (apply_gate r.kind r.q0 r.q1 r.q2 s)

-- The unlifted gate of a statement.
abbrev pub primitive : Op → M (Unit {0})
primitive (op_x t) = primitive_x t
primitive (op_cx c t) = primitive_xor c t
primitive (op_ccx c0 c1 t) = primitive_and c0 c1 t

module _ (init : Bits) where
  -- A call that recorded the listed gates, whatever the control.
  pub record Emitted (m : Machine) (os : List Op) (result : Option (Unit {0} × Machine))
      : Type 0 where
    pub after : Machine
    pub returns : result ≡ some (tt, after)
    pub same_pool : after.pool ≡ m.pool
    pub mode : after.ctx.mode ≡ append
    pub same_stack : after.ctx.control_stack ≡ m.ctx.control_stack
    pub reached : state init after ≡ run os (state init m)

  -- The machine after one more record.
  abbrev pub recorded : GateRecord → Machine → Machine
  recorded r m = record m {
    ctx = record m.ctx { gate_count = (m.ctx.gate_count + 1) % 2 ^ 64; ir = m.ctx.ir ++ (r ∷ []) };
  }

  pub gate-recorded :
      (kind : GateKind) (qubits : List ℕ) (θ : Angle) (m : Machine)
      → m.ctx.mode ≡ append
      → gate kind qubits θ m ≡ some (tt, recorded (gate_record kind qubits (length qubits) θ) m)
  unfolding gate execute_gate exec_append
  gate-recorded kind qubits θ m e = ground arith

  pub state-recorded :
      (r : GateRecord) (m : Machine)
      → state init (recorded r m) ≡ apply_gate r.kind r.q0 r.q1 r.q2 (state init m)
  unfolding state apply_records
  state-recorded r m = apply_records-append m.ctx.ir (r ∷ []) init

  pub primitive-Emitted :
      (o : Op) (m : Machine) → m.ctx.mode ≡ append → Emitted m (o ∷ []) (primitive o m)
  unfolding primitive_x primitive_xor primitive_and gate_record apply_gate run_op run
  primitive-Emitted (op_x t) m e = record {
    after = _;
    returns = gate-recorded _ _ _ m e;
    same_pool = refl;
    mode = e;
    same_stack = refl;
    reached = state-recorded _ m;
  }
  primitive-Emitted (op_cx c t) m e = record {
    after = _;
    returns = gate-recorded _ _ _ m e;
    same_pool = refl;
    mode = e;
    same_stack = refl;
    reached = state-recorded _ m;
  }
  primitive-Emitted (op_ccx c0 c1 t) m e = record {
    after = _;
    returns = gate-recorded _ _ _ m e;
    same_pool = refl;
    mode = e;
    same_stack = refl;
    reached = state-recorded _ m;
  }

  pub Emitted-seq :
      (m : Machine) (os ps : List Op) (r k : M (Unit {0}))
      → (e : Emitted m os (r m)) → Emitted e.after ps (k e.after)
      → Emitted m (os ++ ps) ((r >> k) m)
  Emitted-seq m os ps r k e f = record {
    after = f.after;
    returns = rw (e.returns, ◌>>=◌, ◌>>◌) f.returns;
    same_pool = f.same_pool ∙ e.same_pool;
    mode = f.mode;
    same_stack = f.same_stack ∙ e.same_stack;
    reached = f.reached ∙ ap (run ps) e.reached ∙ sym (run-append os ps (state init m));
  }
