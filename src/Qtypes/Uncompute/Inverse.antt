-- ===== src/Qtypes/Uncompute/Inverse.antt =====
-- The gates that the inverses of the materialized operators record.
use sturm_cpp.Common.{
  ℕ, ◌≡◌, ◌≢◌, refl, fun_ext, arith, Bool, true, false, ◌&&◌, ◌||◌, Option, none, some, List, [],
  ◌∷◌,
}
use sturm_cpp.Core.Context.{append}
use sturm_cpp.Circuit.{Bits, Op, op_x, op_cx, op_ccx, run_op, run, flip_if}
use sturm_cpp.Machine.{Machine, M, ◌>>◌, pure, primitive_x, primitive_xor, primitive_and}
use sturm_cpp.Machine.Spec.Gates.{Emitted, primitive-Emitted, Emitted-seq}
use sturm_cpp.Qtypes.Bit.{BitProxy}
use sturm_cpp.Qtypes.Uncompute.{uncompute_and_gates, uncompute_or_gates}

-- The bit of an operand: of its qubit, or its value.
abbrev pub bit_of : Bits → BitProxy → Bool
bit_of s x = elim x.qubit_index [ none ↦ x.bit_value | some q ↦ s q ]

-- The operand is not the qubit.
abbrev pub Avoids : ℕ → BitProxy → Type 0
Avoids i x = elim x.qubit_index [ none ↦ Unit {0} | some q ↦ q ≢ i ]

-- The gates, as statements.
abbrev pub bit_ops : Option ℕ → Bool → ℕ → List Op
bit_ops (some q) v i = op_cx q i ∷ []
bit_ops none true i = op_x i ∷ []
bit_ops none false i = []

abbrev pub and_ops : Option ℕ → Option ℕ → Bool → Bool → ℕ → List Op
and_ops (some p) (some q) v w i = op_ccx p q i ∷ []
and_ops (some p) none v true i = op_cx p i ∷ []
and_ops none (some q) true w i = op_cx q i ∷ []
and_ops none none true true i = op_x i ∷ []
and_ops _ _ _ _ i = []

abbrev pub or_adj_ops : Option ℕ → Option ℕ → Bool → Bool → ℕ → List Op
or_adj_ops (some p) (some q) v w i = op_ccx p q i ∷ op_cx q i ∷ op_cx p i ∷ []
or_adj_ops (some p) none v true i = op_cx p i ∷ op_x i ∷ op_cx p i ∷ []
or_adj_ops (some p) none v false i = op_cx p i ∷ []
or_adj_ops none (some q) true w i = op_cx q i ∷ op_cx q i ∷ op_x i ∷ []
or_adj_ops none (some q) false w i = op_cx q i ∷ []
or_adj_ops none none true true i = op_x i ∷ op_x i ∷ op_x i ∷ []
or_adj_ops none none true false i = op_x i ∷ []
or_adj_ops none none false true i = op_x i ∷ []
or_adj_ops none none false false i = []

abbrev pub proxy : Option ℕ → Bool → Bool → BitProxy
proxy o m v = record { qubit_index = o; superposed = m; bit_value = v }

module _ (init : Bits) where
  pub Emitted-none : (m : Machine) → m.ctx.mode ≡ append → Emitted init m [] (pure tt m)
  unfolding run
  Emitted-none m e = record {
    after = m;
    returns = refl;
    same_pool = refl;
    mode = e;
    same_stack = refl;
    reached = refl;
  }

  pub Emitted-two :
      (o p : Op) (r k : M (Unit {0})) (m : Machine)
      → ((m : Machine) → m.ctx.mode ≡ append → Emitted init m (o ∷ []) (r m))
      → ((m : Machine) → m.ctx.mode ≡ append → Emitted init m (p ∷ []) (k m))
      → m.ctx.mode ≡ append
      → Emitted init m (o ∷ p ∷ []) ((r >> k) m)
  Emitted-two o p r k m f g e =
      let first = f m e in Emitted-seq init m (o ∷ []) (p ∷ []) r k first (g first.after first.mode)

  pub Emitted-three :
      (o p l : Op) (r k j : M (Unit {0})) (m : Machine)
      → ((m : Machine) → m.ctx.mode ≡ append → Emitted init m (o ∷ []) (r m))
      → ((m : Machine) → m.ctx.mode ≡ append → Emitted init m (p ∷ []) (k m))
      → ((m : Machine) → m.ctx.mode ≡ append → Emitted init m (l ∷ []) (j m))
      → m.ctx.mode ≡ append
      → Emitted init m (o ∷ p ∷ l ∷ []) ((r >> (k >> j)) m)
  Emitted-three o p l r k j m f g h e =
      let first = f m e in
      Emitted-seq init m (o ∷ []) (p ∷ l ∷ []) r (k >> j) first
        (Emitted-two p l k j first.after g h first.mode)

  pub x_at :
      (i : ℕ) (m : Machine) → m.ctx.mode ≡ append → Emitted init m (op_x i ∷ []) (primitive_x i m)
  x_at i = primitive-Emitted init (op_x i)

  pub cx_at :
      (q i : ℕ) (m : Machine)
      → m.ctx.mode ≡ append
      → Emitted init m (op_cx q i ∷ []) (primitive_xor q i m)
  cx_at q i = primitive-Emitted init (op_cx q i)

  pub ccx_at :
      (p q i : ℕ) (m : Machine)
      → m.ctx.mode ≡ append
      → Emitted init m (op_ccx p q i ∷ []) (primitive_and p q i m)
  ccx_at p q i = primitive-Emitted init (op_ccx p q i)

  pub uncompute_or_gates-Emitted :
      (ox oy : Option ℕ) (mx my v w : Bool) (i : ℕ) (m : Machine)
      → m.ctx.mode ≡ append
      → Emitted init m
          (or_adj_ops ox oy v w i)
          (uncompute_or_gates i (proxy ox mx v) (proxy oy my w) m)
  unfolding uncompute_or_gates
  uncompute_or_gates-Emitted (some p) (some q) mx my v w i m =
      Emitted-three _ _ _ _ _ _ m (ccx_at p q i) (cx_at q i) (cx_at p i)
  uncompute_or_gates-Emitted (some p) none mx my v true i m =
      Emitted-three _ _ _ _ _ _ m (cx_at p i) (x_at i) (cx_at p i)
  uncompute_or_gates-Emitted (some p) none mx my v false i m = cx_at p i m
  uncompute_or_gates-Emitted none (some q) mx my true w i m =
      Emitted-three _ _ _ _ _ _ m (cx_at q i) (cx_at q i) (x_at i)
  uncompute_or_gates-Emitted none (some q) mx my false w i m = cx_at q i m
  uncompute_or_gates-Emitted none none mx my true true i m =
      Emitted-three _ _ _ _ _ _ m (x_at i) (x_at i) (x_at i)
  uncompute_or_gates-Emitted none none mx my true false i m = x_at i m
  uncompute_or_gates-Emitted none none mx my false true i m = x_at i m
  uncompute_or_gates-Emitted none none mx my false false i m = Emitted-none m

  -- All the gates flip the ancilla if the disjunction holds.
  pub run-or_adj_ops :
      (ox oy : Option ℕ) (mx my v w : Bool) (i : ℕ) (s : Bits)
      → Avoids i (proxy ox mx v)
      → Avoids i (proxy oy my w)
      → run (or_adj_ops ox oy v w i) s
        ≡ flip_if (bit_of s (proxy ox mx v) || bit_of s (proxy oy my w)) i s
  unfolding run run_op flip_if
  run-or_adj_ops (some p) (some q) mx my v w i s hx hy = fun_ext λ k. ground arith
  run-or_adj_ops (some p) none mx my v true i s hx hy = fun_ext λ k. ground arith
  run-or_adj_ops (some p) none mx my v false i s hx hy = fun_ext λ k. ground arith
  run-or_adj_ops none (some q) mx my true w i s hx hy = fun_ext λ k. ground arith
  run-or_adj_ops none (some q) mx my false w i s hx hy = fun_ext λ k. ground arith
  run-or_adj_ops none none mx my true true i s hx hy = fun_ext λ k. ground arith
  run-or_adj_ops none none mx my true false i s hx hy = fun_ext λ k. ground arith
  run-or_adj_ops none none mx my false true i s hx hy = fun_ext λ k. ground arith
  run-or_adj_ops none none mx my false false i s hx hy = fun_ext λ k. ground arith

  pub uncompute_and_gates-Emitted :
      (ox oy : Option ℕ) (mx my v w : Bool) (i : ℕ) (m : Machine)
      → m.ctx.mode ≡ append
      → Emitted init m
          (and_ops ox oy v w i)
          (uncompute_and_gates i (proxy ox mx v) (proxy oy my w) m)
  unfolding uncompute_and_gates
  uncompute_and_gates-Emitted (some p) (some q) mx my v w i m = ccx_at p q i m
  uncompute_and_gates-Emitted (some p) none mx my v true i m = cx_at p i m
  uncompute_and_gates-Emitted (some p) none mx my v false i m = Emitted-none m
  uncompute_and_gates-Emitted none (some q) mx my true w i m = cx_at q i m
  uncompute_and_gates-Emitted none (some q) mx my false w i m = Emitted-none m
  uncompute_and_gates-Emitted none none mx my true true i m = x_at i m
  uncompute_and_gates-Emitted none none mx my true false i m = Emitted-none m
  uncompute_and_gates-Emitted none none mx my false w i m = Emitted-none m

  pub run-and_ops :
      (ox oy : Option ℕ) (mx my v w : Bool) (i : ℕ) (s : Bits)
      → Avoids i (proxy ox mx v)
      → Avoids i (proxy oy my w)
      → run (and_ops ox oy v w i) s
        ≡ flip_if (bit_of s (proxy ox mx v) && bit_of s (proxy oy my w)) i s
  unfolding run run_op flip_if
  run-and_ops (some p) (some q) mx my v w i s hx hy = fun_ext λ k. ground arith
  run-and_ops (some p) none mx my v true i s hx hy = fun_ext λ k. ground arith
  run-and_ops (some p) none mx my v false i s hx hy = fun_ext λ k. ground arith
  run-and_ops none (some q) mx my true w i s hx hy = fun_ext λ k. ground arith
  run-and_ops none (some q) mx my false w i s hx hy = fun_ext λ k. ground arith
  run-and_ops none none mx my true true i s hx hy = fun_ext λ k. ground arith
  run-and_ops none none mx my true false i s hx hy = fun_ext λ k. ground arith
  run-and_ops none none mx my false w i s hx hy = fun_ext λ k. ground arith
