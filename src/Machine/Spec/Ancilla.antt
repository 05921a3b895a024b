-- ===== src/Machine/Spec/Ancilla.antt =====
-- A routine that takes an ancilla from the pool and gives it back clean.
use sturm_cpp.Common.{ℕ, ◌≡◌, refl, ◌∙◌, arith, true, false, ◌||◌, [], ◌∷◌, ◌==◌}
use sturm_cpp.Core.Pool
use sturm_cpp.Core.Pool.{QubitPool, is_live}
use sturm_cpp.Core.Pool.Laws.{allocate-Allocated, release-Released, Allocated, Released}
use sturm_cpp.Core.ControlStack.{ControlStack}
use sturm_cpp.Circuit.{Bits}
use sturm_cpp.Machine.{Machine, M, ◌>>=◌, ◌>>◌, allocate, release}
use sturm_cpp.Machine.Spec.{state, IsControlled, IsReady, Effect}

IsControlled-mono :
    (cs : ControlStack) (p p' : QubitPool)
    → ((j : ℕ) → is_live p j ≡ true → is_live p' j ≡ true)
    → IsControlled cs p
    → IsControlled cs p'
IsControlled-mono [] p p' more h = tt
IsControlled-mono (c ∷ []) p p' more h = more c h
IsControlled-mono (c ∷ d ∷ cs) p p' more h = h

module _ (init : Bits) where
  -- A machine that differs from `m` by one more qubit in use, which is |0>.
  pub record Extended (m : Machine) (i : ℕ) (m' : Machine) : Type 0 where
    pub ready : IsReady init m'
    pub same_ctx : m'.ctx ≡ m.ctx
    pub new : is_live m.pool i ≡ false
    pub now_live : (j : ℕ) → is_live m'.pool j ≡ ((j == i) || is_live m.pool j)

  -- The machine after `allocate`, and the index.
  abbrev pub index : Machine → ℕ
  index m = (Pool.allocate m.pool).0

  abbrev pub extended : Machine → Machine
  extended m = record m { pool = (Pool.allocate m.pool).1 }

  -- Taking an index keeps the machine ready, since what the pool hands out is |0>.
  pub extended-Extended : (m : Machine) → IsReady init m → Extended m (index m) (extended m)
  unfolding state
  extended-Extended m ready = record {
    ready = record {
      mode = ready.mode;
      sound = a.sound;
      clean = λ q dead. ready.clean q (ground (arith, a.now_live q));
      controlled =
          IsControlled-mono m.ctx.control_stack m.pool (extended m).pool
            (λ j l. ground (arith, a.now_live j)) ready.controlled;
    };
    same_ctx = refl;
    new = a.new;
    now_live = a.now_live;
  }
    where
      a : Allocated m.pool (index m) (extended m).pool
      a = allocate-Allocated m.pool ready.sound

  -- A routine around its body: what the body does with the ancilla in reach, if it leaves the
  -- ancilla |0>.
  pub Effect-ancilla :
      (m : Machine) (goal : Bits) (body : ℕ → M (Unit {0}))
      → IsReady init m
      → (e : Extended m (index m) (extended m)
          → Effect init (extended m) goal (body (index m) (extended m)))
      → goal (index m) ≡ false
      → Effect init m goal ((allocate >>= λ i. body i >> release i) m)
  unfolding allocate release state
  Effect-ancilla m goal body ready e zero_again = record {
    after = released;
    returns = rw (f.returns, ◌>>=◌, ◌>>◌);
    ready = record {
      mode = f.ready.mode;
      sound = r.sound;
      clean = λ q dead.
          ground (
            arith,
            r.now_live q,
            f.reached (index m),
            ready.clean (index m) x.new,
            f.ready.clean q,
          );
      controlled = rw f.same_stack (
          IsControlled-mono m.ctx.control_stack m.pool released.pool (λ q l. live_again q ∙ l)
            ready.controlled);
    };
    same_stack = f.same_stack;
    same_live = live_again;
    reached = f.reached;
  }
    where
      x : Extended m (index m) (extended m)
      x = extended-Extended m ready

      f : Effect init (extended m) goal (body (index m) (extended m))
      f = e x

      released : Machine
      released = record f.after { pool = Pool.release (index m) f.after.pool }

      r : Released f.after.pool (index m)
      r =
          release-Released f.after.pool (index m) f.ready.sound
            (ground (arith, f.same_live (index m), x.now_live (index m)))

      live_again : (q : ℕ) → is_live released.pool q ≡ is_live m.pool q
      live_again q = ground (arith, r.now_live q, f.same_live q, x.now_live q, x.new)
