-- ===== src/Machine/Spec/Sequence.antt =====
-- Effects compose.
use sturm_cpp.Common.{ℕ, ◌≡◌, refl, ap, fun_ext, ◌∙◌, arith, Option, [], ◌∷◌}
use sturm_cpp.Common.{Bool-cases, inl, inr, if◌then◌else◌}
use sturm_cpp.Core.ControlStack.{ControlStack}
use sturm_cpp.Circuit.{Bits}
use sturm_cpp.Machine.{Machine, M, ◌>>=◌, ◌>>◌, pure}
use sturm_cpp.Machine.Spec.{state, active, active_on, SameControl, IsReady, Effect}

active_on-eq :
    (cs : ControlStack) (s s' goal : Bits)
    → SameControl cs goal s
    → ((q : ℕ) → s' q ≡ (if active_on cs s then goal q else s q))
    → active_on cs s' ≡ active_on cs s
active_on-eq [] s s' goal keeps r = refl
active_on-eq (c ∷ cs) s s' goal keeps r = ground (arith, keeps, r c)

module _ (init : Bits) where
  pub active_after :
      (m : Machine) (goal : Bits) {result : Option (Unit {0} × Machine)}
      → SameControl m.ctx.control_stack goal (state init m)
      → (e : Effect init m goal result) → active init e.after ≡ active init m
  active_after m goal keeps e =
      ap (λ cs. active_on cs (state init e.after)) e.same_stack
      ∙ active_on-eq m.ctx.control_stack (state init m) (state init e.after) goal keeps e.reached

  -- What an effect leaves, as a whole state.
  pub state_after :
      (m : Machine) (goal : Bits) {result : Option (Unit {0} × Machine)}
      → (e : Effect init m goal result)
      → state init e.after ≡ (if active init m then goal else state init m)
  state_after m goal e = elim (Bool-cases (active init m)) [
    | inl on ↦ fun_ext λ q. ground (arith, e.reached q)
    | inr off ↦ fun_ext λ q. ground (arith, e.reached q)
  ]

  -- One routine after another; the second is specified on the state that the first leaves.
  pub Effect-seq :
      (m : Machine) (goal : Bits) (then_goal : Bits → Bits) (r k : M (Unit {0}))
      → SameControl m.ctx.control_stack goal (state init m)
      → (e : Effect init m goal (r m))
      → Effect init e.after (then_goal (state init e.after)) (k e.after)
      → Effect init m (then_goal goal) ((r >> k) m)
  Effect-seq m goal then_goal r k keeps e f = record {
    after = f.after;
    returns = rw (e.returns, ◌>>◌, ◌>>=◌) f.returns;
    ready = f.ready;
    same_stack = f.same_stack ∙ e.same_stack;
    same_live = λ q. f.same_live q ∙ e.same_live q;
    reached = λ q. ground (
      arith,
      f.reached q,
      active_after m goal keeps e,
      ap (λ s. then_goal s q) (state_after m goal e),
      ap (λ s. s q) (state_after m goal e),
    );
  }

  pub Effect-pure : (m : Machine) → IsReady init m → Effect init m (state init m) (pure tt m)
  Effect-pure m ready = record {
    after = m;
    returns = refl;
    ready = ready;
    same_stack = refl;
    same_live = λ q. refl;
    reached = λ q. ground arith;
  }
