-- ===== src/Machine/Spec/Usable.antt =====
-- Routines on qubits that are in use and are not the active control: what a routine needs of
-- its operands, and what it performs.
use mathlib.Core.Path.{subst}
use sturm_cpp.Common.{
  ℕ, ◌≡◌, refl, sym, fun_ext, ◌∙◌, ap, arith, true, false, Option, List, [], ◌∷◌, All, IsFresh,
}
use sturm_cpp.Core.ControlStack.{ControlStack}
use sturm_cpp.Core.Pool.{is_live}
use sturm_cpp.Circuit.{Bits, Op, op_x, op_cx, op_ccx, run}
use sturm_cpp.Circuit.Laws.{Uses}
use sturm_cpp.Machine.{Machine, M, ◌>>=◌, ◌>>◌, allocate, release}
use sturm_cpp.Machine.Emit.{emits}
use sturm_cpp.Machine.Spec.{state, IsReady, Effect, IsControlled}
use sturm_cpp.Machine.Spec.Ancilla.{Extended, index, extended, extended-Extended}
use sturm_cpp.Machine.Spec.Lifted.{CanEmit, IsOff}
use sturm_cpp.Machine.Spec.Routine.{emits-Effect, Effect-routine}

pub record IsUsable (m : Machine) (q : ℕ) : Type 0 where
  pub live : is_live m.pool q ≡ true
  pub off : IsOff m.ctx.control_stack q

pub Uses→CanEmit : (m : Machine) (os : List Op) → All (Uses (IsUsable m)) os → All (CanEmit m) os
Uses→CanEmit m [] h = tt
Uses→CanEmit m (op_x t ∷ os) h =
    (record { wires = h.0.live; proper = tt; off = h.0.off }, Uses→CanEmit m os h.1)
Uses→CanEmit m (op_cx c t ∷ os) h = (
  record { wires = (h.0.0.live, h.0.1.live); proper = h.0.2; off = h.0.1.off },
  Uses→CanEmit m os h.1,
)
Uses→CanEmit m (op_ccx c0 c1 t ∷ os) h = (
  record { wires = (h.0.0.live, h.0.1.live, h.0.2.live); proper = (h.0.3, h.0.4); off = h.0.2.off },
  Uses→CanEmit m os h.1,
)

-- A routine that takes one ancilla around its statements.
abbrev pub routine : (ℕ → List Op) → M (Unit {0})
routine ops = allocate >>= λ i. emits (ops i) >> release i

module _ (init : Bits) where
  -- A call returned and did what `R` says of the state before and the state after, under an
  -- active control; under one that is not active, it changed nothing.
  pub record Performs (m : Machine) (R : Bits → Bits → Type 0)
      (result : Option (Unit {0} × Machine)) : Type 0 where
    pub goal : Bits
    pub effect : Effect init m goal result
    pub meets : R (state init m) goal

  pub Performs-emits :
      (m : Machine) (R : Bits → Bits → Type 0) (os : List Op)
      → IsReady init m
      → All (Uses (IsUsable m)) os
      → R (state init m) (run os (state init m))
      → Performs m R (emits os m)
  Performs-emits m R os ready uses r = record {
    goal = run os (state init m);
    effect = emits-Effect init os m ready (Uses→CanEmit m os uses);
    meets = r;
  }

  IsOff-new :
      (cs : ControlStack) (m : Machine) (i : ℕ)
      → IsControlled cs m.pool
      → is_live m.pool i ≡ false
      → IsOff cs i
  IsOff-new [] m i c n = tt
  IsOff-new (c ∷ []) m i h n = λ e. ground (arith, ap (is_live m.pool) e, n, h)
  IsOff-new (c ∷ d ∷ cs) m i h n = absurd h

  -- The qubit from the pool is usable, and so are the others still.
  pub new-IsUsable :
      (m m' : Machine) (i : ℕ) → IsReady init m → Extended init m i m' → IsUsable m' i
  new-IsUsable m m' i ready x = record {
    live = ground (arith, x.now_live i);
    off = rw x.same_ctx (IsOff-new m.ctx.control_stack m i ready.controlled x.new);
  }

  All-IsUsable-Extended :
      (m m' : Machine) (i : ℕ) (qs : List ℕ)
      → Extended init m i m'
      → All (IsUsable m) qs
      → All (IsUsable m') qs
  All-IsUsable-Extended m m' i [] x h = tt
  All-IsUsable-Extended m m' i (q ∷ qs) x h = (
    record { live = ground (arith, x.now_live q, h.0.live); off = rw x.same_ctx h.0.off },
    All-IsUsable-Extended m m' i qs x h.1,
  )

  new-IsFresh :
      (m m' : Machine) (i : ℕ) (qs : List ℕ)
      → Extended init m i m'
      → All (IsUsable m) qs
      → IsFresh i qs
  new-IsFresh m m' i [] x h = tt
  new-IsFresh m m' i (q ∷ qs) x h =
      (λ e. ground (arith, ap (is_live m.pool) e, x.new, h.0.live), new-IsFresh m m' i qs x h.1)

  -- The ancilla is a qubit that is none of the operands, is |0> before, and is left |0>.
  pub Performs-run :
      (m : Machine) (R : Bits → Bits → Type 0) (ops : ℕ → List Op) (qs : List ℕ)
      → IsReady init m
      → All (IsUsable m) qs
      → ((i : ℕ) (P : ℕ → Type 0) → IsFresh i qs → All P (i ∷ qs) → All (Uses P) (ops i))
      → ((i : ℕ)
          → IsFresh i qs
          → state init m i ≡ false
          → (run (ops i) (state init m) i ≡ false) × R (state init m) (run (ops i) (state init m)))
      → Performs m R (routine ops m)
  Performs-run m R ops qs ready usable uses runs =
      let i = index init m in
      let x = extended-Extended init m ready in
      let fresh = new-IsFresh m (extended init m) i qs x usable in
      let (clean, r) = runs i fresh (ready.clean i x.new) in
      record {
        goal = run (ops i) (state init m);
        effect = Effect-routine init m ops (run (ops i) (state init m)) ready λ y. (
          Uses→CanEmit (extended init m) (ops i) (
              uses i (IsUsable (extended init m)) fresh (
                new-IsUsable m (extended init m) i ready x,
                All-IsUsable-Extended m (extended init m) i qs x usable,
              )),
          λ q. refl,
          clean,
        );
        meets = r;
      }

  -- The same, with the state described.
  pub Performs-routine :
      (m : Machine) (R : Bits → Bits → Type 0) (ops : ℕ → List Op) (qs : List ℕ) (goal : Bits)
      → IsReady init m
      → All (IsUsable m) qs
      → ((i : ℕ) (P : ℕ → Type 0) → IsFresh i qs → All P (i ∷ qs) → All (Uses P) (ops i))
      → ((i : ℕ)
          → IsFresh i qs
          → state init m i ≡ false
          → ((q : ℕ) → run (ops i) (state init m) q ≡ goal q) × (goal i ≡ false))
      → R (state init m) goal
      → Performs m R (routine ops m)
  Performs-routine m R ops qs goal ready usable uses runs r =
      Performs-run m R ops qs ready usable uses λ i f zero.
        let (leads, clean) = runs i f zero in
        (leads i ∙ clean, subst (R (state init m)) (sym (fun_ext leads)) r)
