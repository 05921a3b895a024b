-- ===== src/Qtypes/Bit/Promotion.antt =====
-- What `ensure_quantum` makes of a classical bit.
use mathlib.Core.Path.{subst}
use sturm_cpp.Common.{
  ℕ, ◌≡◌, ◌≢◌, refl, sym, ap, ◌∙◌, arith, Bool, true, false, ◌&&◌, Option, none, some,
}
use sturm_cpp.Core.Pool.{is_live}
use sturm_cpp.Circuit.{Bits, op_x, run_op, flip_if}
use sturm_cpp.Machine.{Machine, ◌>>=◌, ◌>>◌, allocate}
use sturm_cpp.Machine.Emit.{emit_x_lifted}
use sturm_cpp.Machine.Spec.{state, active, IsReady, Effect}
use sturm_cpp.Machine.Spec.Ancilla.{Extended, index, extended, extended-Extended}
use sturm_cpp.Machine.Spec.Lifted.{emit_x-Effect}
use sturm_cpp.Machine.Spec.Usable.{IsUsable, new-IsUsable}
use sturm_cpp.Qtypes.Bit.{BitProxy, ensure_quantum}
use sturm_cpp.Qtypes.Bit.Folding.{proxy}

module _ (init : Bits) where
  -- The call returned the bit with a qubit that was free before and that now holds `v`.
  pub record Promoted (m : Machine) (b : BitProxy) (v : Bool)
      (result : Option ((BitProxy × ℕ) × Machine)) : Type 0 where
    pub new : ℕ
    pub after : Machine
    pub returns :
        result ≡ some ((record b { qubit_index = some new; superposed = true }, new), after)
    pub ready : IsReady init after
    pub fresh : is_live m.pool new ≡ false
    pub taken : is_live after.pool new ≡ true
    pub holds : state init after new ≡ v
    pub others : (q : ℕ) → q ≢ new → state init after q ≡ state init m q

  promotes_at :
      (mb v : Bool) (m : Machine)
      → IsReady init m
      → Promoted m (proxy none mb v) (active init m && v) (ensure_quantum (proxy none mb v) m)
  unfolding ensure_quantum allocate state run_op flip_if
  promotes_at mb false m ready =
      let x = extended-Extended init m ready in
      record {
        new = index init m;
        after = extended init m;
        returns = refl;
        ready = x.ready;
        fresh = x.new;
        taken = ground (arith, x.now_live (index init m));
        holds = ground (arith, ready.clean (index init m) x.new);
        others = λ q ne. refl;
      }
  promotes_at mb true m ready = record {
    new = index init m;
    after = e.after;
    returns = rw (e.returns, ◌>>◌, ◌>>=◌) refl;
    ready = e.ready;
    fresh = x.new;
    taken = e.same_live (index init m) ∙ ground (arith, x.now_live (index init m));
    holds =
        ground (
          arith,
          e.reached (index init m),
          flipped (index init m),
          ready.clean (index init m) x.new,
        );
    others = λ q ne. ground (arith, e.reached q, flipped q);
  }
    where
      x : Extended init m (index init m) (extended init m)
      x = extended-Extended init m ready

      u : IsUsable (extended init m) (index init m)
      u = new-IsUsable init m (extended init m) (index init m) ready x

      e :
          Effect init
            (extended init m)
            (run_op (op_x (index init m)) (state init (extended init m)))
            (emit_x_lifted (index init m) (extended init m))
      e =
          emit_x-Effect init (extended init m) (index init m) x.ready
            (record { wires = u.live; proper = tt; off = u.off })

      flipped :
          (q : ℕ)
          → run_op (op_x (index init m)) (state init (extended init m)) q
            ≡ flip_if true (index init m) (state init m) q
      flipped q = refl

  -- On a ready machine, `ensure_quantum` on a bit without a qubit returns, with a qubit that was
  -- free before, and leaves the machine ready; the qubit holds the value of the bit if the active
  -- control is |1> or there is none, and is |0> under a control that is |0>; no other qubit
  -- changes.
  pub ensure_quantum-promotes :
      (m : Machine) (b : BitProxy)
      → IsReady init m
      → b.qubit_index ≡ none
      → Promoted m b (active init m && b.bit_value) (ensure_quantum b m)
  ensure_quantum-promotes m b ready e =
      subst (λ b. Promoted m b (active init m && b.bit_value) (ensure_quantum b m))
        (ap (λ o. proxy o b.superposed b.bit_value) (sym e))
        (promotes_at b.superposed b.bit_value m ready)
