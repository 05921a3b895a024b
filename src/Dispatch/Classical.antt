-- ===== src/Dispatch/Classical.antt =====
-- Gates on classical operands against gates on basis states.
use sturm_cpp.Common.{
  ℕ, zero, suc, ◌≡◌, ◌≢◌, refl, sym, arith, false, Option, some, List, [], ◌∷◌, length,
}
use sturm_cpp.Core.GateKind.{
  GateKind, gate_x, gate_y, gate_z, gate_h, gate_s, gate_t, gate_p, gate_rx, gate_ry, gate_rz,
  gate_cx, gate_cy, gate_cz, gate_crx, gate_cry, gate_crz, gate_ccx, gate_swap, gate_info_of,
  ce_branch,
}
use sturm_cpp.Core.Orkan.{Angle}
use sturm_cpp.Circuit.{Bits, flip_if}
use sturm_cpp.Machine.Spec.{apply_gate}
use sturm_cpp.Dispatch.Gate.{
  ClassicalOperand, is_odd, dispatch_gate_classical, permute, perm_x, perm_y, perm_cx, perm_cy,
  perm_swap, perm_ccx,
}

-- The operands as a basis state of qubits numbered by position.
abbrev pub bits_of : List ClassicalOperand → Bits
bits_of [] q = false
bits_of (op ∷ ops) zero = is_odd op.value
bits_of (op ∷ ops) (suc q) = bits_of ops q

positions :
    (s t : Bits)
    → s 0 ≡ t 0
    → s 1 ≡ t 1
    → s 2 ≡ t 2
    → ((q : ℕ) → s (suc (suc (suc q))) ≡ t (suc (suc (suc q))))
    → (q : ℕ) → s q ≡ t q
positions s t e0 e1 e2 e zero = e0
positions s t e0 e1 e2 e (suc zero) = e1
positions s t e0 e1 e2 e (suc (suc zero)) = e2
positions s t e0 e1 e2 e (suc (suc (suc q))) = e q

-- Lists of one, two and three operands.
module _ (P : List ClassicalOperand → Type 0) where
  one :
      ((a : ClassicalOperand) → P (a ∷ [])) → (ops : List ClassicalOperand) → length ops ≡ 1 → P ops
  one f [] e = absurd (omega arith)
  one f (a ∷ []) e = f a
  one f (a ∷ b ∷ ops) e = absurd (omega arith)

  two :
      ((a b : ClassicalOperand) → P (a ∷ b ∷ []))
      → (ops : List ClassicalOperand) → length ops ≡ 2
      → P ops
  two f [] e = absurd (omega arith)
  two f (a ∷ []) e = absurd (omega arith)
  two f (a ∷ b ∷ []) e = f a b
  two f (a ∷ b ∷ c ∷ ops) e = absurd (omega arith)

  three :
      ((a b c : ClassicalOperand) → P (a ∷ b ∷ c ∷ []))
      → (ops : List ClassicalOperand) → length ops ≡ 3
      → P ops
  three f [] e = absurd (omega arith)
  three f (a ∷ []) e = absurd (omega arith)
  three f (a ∷ b ∷ []) e = absurd (omega arith)
  three f (a ∷ b ∷ c ∷ []) e = f a b c
  three f (a ∷ b ∷ c ∷ d ∷ ops) e = absurd (omega arith)

-- The call returned operands with the bits of `goal`.
pub record Holds (n : ℕ) (goal : Bits) (result : Option (List ClassicalOperand)) : Type 0 where
  pub after : List ClassicalOperand
  pub returns : result ≡ some after
  pub same_length : length after ≡ n
  pub bits : (q : ℕ) → bits_of after q ≡ goal q

abbrev Agrees : GateKind → Angle → List ClassicalOperand → Type 0
Agrees kind θ ops =
    Holds (length ops) (apply_gate kind 0 1 2 (bits_of ops)) (dispatch_gate_classical kind ops θ)

swap_at :
    (s : Bits)
    → (apply_gate gate_swap 0 1 2 s 0 ≡ s 1)
      × (apply_gate gate_swap 0 1 2 s 1 ≡ s 0)
      × ((q : ℕ) → apply_gate gate_swap 0 1 2 s (suc (suc q)) ≡ s (suc (suc q)))
unfolding apply_gate flip_if
swap_at s = (refl, refl, λ q. ground arith)

-- With as many operands as its arity, a gate that makes no superposition returns as many
-- operands, whose values are the bits that the gate on qubits leaves.
pub dispatch_gate_classical-bits :
    (kind : GateKind) (ops : List ClassicalOperand) (θ : Angle)
    → length ops ≡ (gate_info_of kind).arity
    → (gate_info_of kind).effect ≢ ce_branch
    → Holds (length ops) (apply_gate kind 0 1 2 (bits_of ops)) (dispatch_gate_classical kind ops θ)
unfolding gate_info_of dispatch_gate_classical permute perm_x perm_y perm_cx perm_cy perm_swap
    perm_ccx apply_gate flip_if
dispatch_gate_classical-bits gate_x ops θ n e =
    one (Agrees gate_x θ)
      (λ a. record {
        after = _;
        returns = refl;
        same_length = refl;
        bits = positions _ _ (ground arith) (ground arith) (ground arith) (λ q. ground arith);
      })
      ops n
dispatch_gate_classical-bits gate_y ops θ n e =
    one (Agrees gate_y θ)
      (λ a. record {
        after = _;
        returns = refl;
        same_length = refl;
        bits = positions _ _ (ground arith) (ground arith) (ground arith) (λ q. ground arith);
      })
      ops n
dispatch_gate_classical-bits gate_cx ops θ n e =
    two (Agrees gate_cx θ)
      (λ a b. record {
        after = _;
        returns = refl;
        same_length = refl;
        bits = positions _ _ (ground arith) (ground arith) (ground arith) (λ q. ground arith);
      })
      ops n
dispatch_gate_classical-bits gate_cy ops θ n e =
    two (Agrees gate_cy θ)
      (λ a b. record {
        after = _;
        returns = refl;
        same_length = refl;
        bits = positions _ _ (ground arith) (ground arith) (ground arith) (λ q. ground arith);
      })
      ops n
dispatch_gate_classical-bits gate_swap ops θ n e =
    two (Agrees gate_swap θ)
      (λ a b. record {
        after = _;
        returns = refl;
        same_length = refl;
        bits =
            positions _ _ (sym (swap_at (bits_of (a ∷ b ∷ []))).0)
              (sym (swap_at (bits_of (a ∷ b ∷ []))).1) (sym ((swap_at (bits_of (a ∷ b ∷ []))).2 0))
              (λ q. sym ((swap_at (bits_of (a ∷ b ∷ []))).2 (suc q)));
      })
      ops n
dispatch_gate_classical-bits gate_ccx ops θ n e =
    three (Agrees gate_ccx θ)
      (λ a b c. record {
        after = _;
        returns = refl;
        same_length = refl;
        bits = positions _ _ (ground arith) (ground arith) (ground arith) (λ q. ground arith);
      })
      ops n
dispatch_gate_classical-bits gate_z ops θ n e = record {
  after = ops;
  returns = refl;
  same_length = refl;
  bits = λ q. refl;
}
dispatch_gate_classical-bits gate_s ops θ n e = record {
  after = ops;
  returns = refl;
  same_length = refl;
  bits = λ q. refl;
}
dispatch_gate_classical-bits gate_t ops θ n e = record {
  after = ops;
  returns = refl;
  same_length = refl;
  bits = λ q. refl;
}
dispatch_gate_classical-bits gate_p ops θ n e = record {
  after = ops;
  returns = refl;
  same_length = refl;
  bits = λ q. refl;
}
dispatch_gate_classical-bits gate_rz ops θ n e = record {
  after = ops;
  returns = refl;
  same_length = refl;
  bits = λ q. refl;
}
dispatch_gate_classical-bits gate_cz ops θ n e = record {
  after = ops;
  returns = refl;
  same_length = refl;
  bits = λ q. refl;
}
dispatch_gate_classical-bits gate_crz ops θ n e = record {
  after = ops;
  returns = refl;
  same_length = refl;
  bits = λ q. refl;
}
dispatch_gate_classical-bits gate_h ops θ n e = absurd (e refl)
dispatch_gate_classical-bits gate_rx ops θ n e = absurd (e refl)
dispatch_gate_classical-bits gate_ry ops θ n e = absurd (e refl)
dispatch_gate_classical-bits gate_crx ops θ n e = absurd (e refl)
dispatch_gate_classical-bits gate_cry ops θ n e = absurd (e refl)
