-- ===== src/Dispatch/Promotion.antt =====
-- The promotion loop of a gate that makes superpositions.

use sturm_cpp.Common.{
  ℕ, ◌≡◌, refl, ap, ◌∙◌, arith, Bool, true, false, Option, none, some, List, [], ◌∷◌, if◌then◌else◌,
}
use sturm_cpp.Core.Pool.{is_live}
use sturm_cpp.Core.GateKind.{gate_x}
use sturm_cpp.Core.Orkan.{zero_angle}
use sturm_cpp.Circuit.{Bits, op_x, run, run_op, flip_if}
use sturm_cpp.Machine.{Machine, ◌>>=◌, pure, allocate, gate, primitive_x}
use sturm_cpp.Machine.Spec.{state, IsReady}
use sturm_cpp.Machine.Spec.Gates.{Emitted, primitive-Emitted}
use sturm_cpp.Machine.Spec.Ancilla.{Extended, index, extended, extended-Extended}
use sturm_cpp.Dispatch.Gate.{ClassicalOperand, is_odd, set_bit, promote_operand, promote_operands}

abbrev operand : ℕ → ℕ → Option ℕ → ClassicalOperand
operand v b o = record { value = v; bit_pos = b; qubit_idx = o }

module _ (init : Bits) where
  -- One operand afterwards: as before if it had a qubit, and with a qubit in use that holds its
  -- value if it had none.
  abbrev pub PromotedTo : Machine → ClassicalOperand → ClassicalOperand → Type 0
  PromotedTo m op op' = elim op.qubit_idx [
    | some q ↦ op' ≡ op
    | none ↦
        (q : ℕ) × (op' ≡ record op { qubit_idx = some q })
        × (is_live m.pool q ≡ true)
        × (state init m q ≡ is_odd op.value)
  ]

  abbrev pub AllPromotedTo : Machine → List ClassicalOperand → List ClassicalOperand → Type 0
  AllPromotedTo m [] [] = Unit
  AllPromotedTo m (op ∷ ops) (op' ∷ ops') = PromotedTo m op op' × AllPromotedTo m ops ops'
  AllPromotedTo m _ _ = ⊥

  -- What a call leaves: a ready machine on which the qubits in use before are in use, unchanged.
  pub record Keeps (m after : Machine) : Type 0 where
    pub ready : IsReady init after
    pub live : (q : ℕ) → is_live m.pool q ≡ true → is_live after.pool q ≡ true
    pub kept : (q : ℕ) → is_live m.pool q ≡ true → state init after q ≡ state init m q

  -- An X on the new qubit, or none.
  x_on_new :
      (m : Machine) (b : Bool)
      → IsReady init m
      → (after : Machine) × ((if b then gate gate_x (index init m ∷ []) zero_angle else pure tt)
            (extended init m)
          ≡ some (tt, after))
        × Keeps m after
        × (is_live after.pool (index init m) ≡ true)
        × (state init after (index init m) ≡ b)
  unfolding state primitive_x run run_op flip_if
  x_on_new m false ready =
      let x = extended-Extended init m ready in
      (
        extended init m,
        refl,
        record { ready = x.ready; live = λ q l. ground (arith, x.now_live q); kept = λ q l. refl },
        ground (arith, x.now_live (index init m)),
        ready.clean (index init m) x.new,
      )
  x_on_new m true ready = (
    e.after,
    e.returns,
    record {
      ready = record {
        mode = e.mode;
        sound = rw e.same_pool x.ready.sound;
        clean = λ q dead. ground (arith, at q, still q, ready.clean q, x.now_live q);
        controlled = rw (e.same_stack, e.same_pool) x.ready.controlled;
      };
      live = λ q l. ground (arith, still q, x.now_live q);
      kept = λ q l. ground (arith, at q, x.new, l, λ (s : q ≡ index init m). ap (is_live m.pool) s);
    },
    ground (arith, still (index init m), x.now_live (index init m)),
    ground (arith, at (index init m), ready.clean (index init m) x.new),
  )
    where
      x : Extended init m (index init m) (extended init m)
      x = extended-Extended init m ready

      e :
          Emitted init
            (extended init m)
            (op_x (index init m) ∷ [])
            (primitive_x (index init m) (extended init m))
      e = primitive-Emitted init (op_x (index init m)) (extended init m) x.ready.mode

      at : (q : ℕ) → state init e.after q ≡ flip_if true (index init m) (state init m) q
      at q = ap (λ s. s q) e.reached

      still : (q : ℕ) → is_live e.after.pool q ≡ is_live (extended init m).pool q
      still q = ap (λ r. is_live r q) e.same_pool

  -- What the loop does with the operands from a machine on.
  pub record Promotes (m : Machine) (ops : List ClassicalOperand)
      (result : Option ((ℕ × List ClassicalOperand) × Machine)) : Type 0 where
    pub mask : ℕ
    pub promoted : List ClassicalOperand
    pub after : Machine
    pub returns : result ≡ some ((mask, promoted), after)
    pub keeps : Keeps m after
    pub all : AllPromotedTo after ops promoted

  Keeps-refl : (m : Machine) → IsReady init m → Keeps m m
  Keeps-refl m ready = record { ready = ready; live = λ q l. l; kept = λ q l. refl }

  Keeps-trans : (m m' m'' : Machine) → Keeps m m' → Keeps m' m'' → Keeps m m''
  Keeps-trans m m' m'' j k = record {
    ready = k.ready;
    live = λ q l. k.live q (j.live q l);
    kept = λ q l. k.kept q (j.live q l) ∙ j.kept q l;
  }

  -- One turn of the loop before the others.
  turn :
      (ops : List ClassicalOperand) (mask : ℕ) (m : Machine)
      → ((mask : ℕ) (m : Machine) → IsReady init m → Promotes m ops (promote_operands ops mask m))
      → IsReady init m
      → (o : Option ℕ) (v b : ℕ)
      → Promotes m (operand v b o ∷ ops) (promote_operands (operand v b o ∷ ops) mask m)
  unfolding promote_operands promote_operand allocate
  turn ops mask m others ready (some q) v b =
      let rest = others mask m ready in
      record {
        mask = rest.mask;
        promoted = operand v b (some q) ∷ rest.promoted;
        after = rest.after;
        returns = rw (◌>>=◌, rest.returns) refl;
        keeps = rest.keeps;
        all = (refl, rest.all);
      }
  turn ops mask m others ready none v b =
      let (first, returns_first, keeps_first, live_first, holds_first) =
        x_on_new m (is_odd v) ready in
      let rest = others (set_bit mask b) first keeps_first.ready in
      record {
        mask = rest.mask;
        promoted = operand v b (some (index init m)) ∷ rest.promoted;
        after = rest.after;
        returns = rw (returns_first, ◌>>=◌, rest.returns) refl;
        keeps = Keeps-trans m first rest.after keeps_first rest.keeps;
        all = (
          (
            index init m,
            refl,
            rest.keeps.live (index init m) live_first,
            rest.keeps.kept (index init m) live_first ∙ holds_first,
          ),
          rest.all,
        );
      }

  -- On a ready machine, the promotion loop returns, gives each operand that had no qubit one that
  -- is in use and holds the operand's value, whatever the active control, keeps the other
  -- operands, leaves the machine ready, and changes no qubit that was in use.
  pub promote_operands-Promotes :
      (ops : List ClassicalOperand) (mask : ℕ) (m : Machine)
      → IsReady init m
      → Promotes m ops (promote_operands ops mask m)
  unfolding promote_operands
  promote_operands-Promotes [] mask m ready = record {
    mask = mask;
    promoted = [];
    after = m;
    returns = refl;
    keeps = Keeps-refl m ready;
    all = tt;
  }
  promote_operands-Promotes (op ∷ ops) mask m ready =
      turn ops mask m (promote_operands-Promotes ops) ready op.qubit_idx op.value op.bit_pos
