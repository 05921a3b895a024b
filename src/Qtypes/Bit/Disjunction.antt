-- ===== src/Qtypes/Bit/Disjunction.antt =====
-- `c ^= (a | b)` on a bit that has a qubit, as three assignments.
use mathlib.Core.Path.{subst}
use sturm_cpp.Common.{
  ℕ, ◌≡◌, refl, sym, ap, ◌∙◌, fun_ext, arith, Bool, true, false, ◌&&◌, ◌||◌, [], ◌∷◌, Option, none,
  some, xor,
}
use sturm_cpp.Circuit.{Bits, flip_if}
use sturm_cpp.Core.ControlStack.{ControlStack}
use sturm_cpp.Machine.{Machine, M, ◌>>=◌, ◌>>◌}
use sturm_cpp.Machine.Spec.{state, IsReady, Effect, SameControl}
use sturm_cpp.Machine.Spec.Lifted.{IsOff}
use sturm_cpp.Machine.Spec.Sequence.{Effect-seq}
use sturm_cpp.Machine.Spec.Usable.{IsUsable}
use sturm_cpp.Qtypes.Bit.{BitProxy, xor_assign, xor_assign_and, xor_assign_or}
use sturm_cpp.Qtypes.Bit.Folding.{
  operand_bit, CanRead, proxy, Assigns, xor_assign-folds, xor_assign_and-folds,
}

SameControl-flip :
    (cs : ControlStack) (f : Bool) (t : ℕ) (s : Bits)
    → IsOff cs t
    → SameControl cs (flip_if f t s) s
unfolding flip_if
SameControl-flip [] f t s off = tt
SameControl-flip (c ∷ cs) f t s off = ground (arith, off)

flip-xor : (f g : Bool) (t : ℕ) (s : Bits) → flip_if g t (flip_if f t s) ≡ flip_if (xor f g) t s
unfolding flip_if
flip-xor true true t s = fun_ext λ q. ground arith
flip-xor true false t s = fun_ext λ q. ground arith
flip-xor false true t s = fun_ext λ q. ground arith
flip-xor false false t s = fun_ext λ q. ground arith

or_of : (x y : Bool) → xor x (xor y (x && y)) ≡ (x || y)
or_of true true = refl
or_of true false = refl
or_of false true = refl
or_of false false = refl

module _ (init : Bits) where
  -- What the next assignment needs is there after the first.
  IsUsable-after :
      (m : Machine) (goal : Bits) (r : Option (Unit {0} × Machine)) (q : ℕ)
      → (e : Effect init m goal r) → IsUsable m q
      → IsUsable e.after q
  IsUsable-after m goal r q e u = record {
    live = e.same_live q ∙ u.live;
    off = rw e.same_stack u.off;
  }

  CanRead-after :
      (m : Machine) (goal : Bits) (r : Option (Unit {0} × Machine)) (t : ℕ) (o : Option ℕ)
      (mk v : Bool)
      → (e : Effect init m goal r) → CanRead m t (proxy o mk v)
      → CanRead e.after t (proxy o mk v)
  CanRead-after m goal r t none mk v e h = tt
  CanRead-after m goal r t (some q) mk v e h = (IsUsable-after m goal r q e h.0, h.1)

  -- Flipping the target leaves the operands.
  operand_bit-after :
      (m : Machine) (f : Bool) (r : Option (Unit {0} × Machine)) (t : ℕ) (o : Option ℕ)
      (mk v : Bool)
      → (e : Effect init m (flip_if f t (state init m)) r) → CanRead m t (proxy o mk v)
      → operand_bit (state init e.after) (proxy o mk v) ≡ operand_bit (state init m) (proxy o mk v)
  unfolding flip_if
  operand_bit-after m f r t none mk v e h = refl
  operand_bit-after m f r t (some q) mk v e h = ground (arith, e.reached q, h.1)

  -- Two assignments to one bit.
  Assigns-seq :
      (m : Machine) (b : BitProxy) (t : ℕ) (f g : Bool) (r : Option (BitProxy × Machine))
      (k : BitProxy → M BitProxy)
      → IsUsable m t
      → (first : Assigns init m b t f r)
      → Assigns init first.effect.after b t g (k b first.effect.after)
      → Assigns init m b t
          (xor f g)
          (elim r as (λ _. Option (BitProxy × Machine)) [ none ↦ none | some (a, m') ↦ k a m' ])
  Assigns-seq m b t f g r k u first second = record {
    unit_result = both m;
    effect = e;
    returns = rw first.returns second.returns ∙ ap (λ m. some (b, m)) same_after;
  }
    where
      both : M (Unit {0})
      both = (λ _. first.unit_result) >> (λ _. second.unit_result)

      e : Effect init m (flip_if (xor f g) t (state init m)) (both m)
      e =
          subst (λ s. Effect init m s (both m)) (flip-xor f g t (state init m))
            (Effect-seq init m (flip_if f t (state init m)) (flip_if g t) (λ _. first.unit_result)
              (λ _. second.unit_result)
              (SameControl-flip m.ctx.control_stack f t (state init m) u.off) first.effect
              second.effect)

      machine : Option (Unit {0} × Machine) → Machine
      machine o = elim o [ none ↦ m | some (a, m') ↦ m' ]

      runs : both m ≡ some (tt, second.effect.after)
      runs = rw (◌>>◌, ◌>>=◌, first.effect.returns) second.effect.returns

      same_after : second.effect.after ≡ e.after
      same_after = ap machine (sym runs ∙ e.returns)

  -- On a ready machine, `c ^= (a | b)` on a bit with a usable qubit, with operands that are
  -- classical or usable and not `c`, returns `c`, with the qubit of `c` flipped if one of the
  -- operands is 1, by value or by qubit, and the active control is |1> or there is none.
  pub xor_assign_or-folds :
      (m : Machine) (c a b : BitProxy) (t : ℕ)
      → IsReady init m
      → c.qubit_index ≡ some t
      → IsUsable m t
      → CanRead m t a
      → CanRead m t b
      → Assigns init m c t
          (operand_bit (state init m) a || operand_bit (state init m) b)
          (xor_assign_or c a b m)
  unfolding xor_assign_or
  xor_assign_or-folds m c a b t ready e u ha hb =
      subst (λ f. Assigns init m c t f (xor_assign_or c a b m)) same
        (Assigns-seq m c t _ _ (xor_assign c a m)
          (λ b1. xor_assign b1 b >>= λ b2. xor_assign_and b2 a b) u first
          (Assigns-seq m1 c t _ _ (xor_assign c b m1) (λ b2. xor_assign_and b2 a b) u1 second
            third))
    where
      first : Assigns init m c t (operand_bit (state init m) a) (xor_assign c a m)
      first = xor_assign-folds init m c a t ready e u ha

      m1 : Machine
      m1 = first.effect.after

      u1 : IsUsable m1 t
      u1 = IsUsable-after m _ first.unit_result t first.effect u

      a1 : CanRead m1 t a
      a1 =
          CanRead-after m _ first.unit_result t a.qubit_index a.superposed a.bit_value first.effect
            ha

      b1 : CanRead m1 t b
      b1 =
          CanRead-after m _ first.unit_result t b.qubit_index b.superposed b.bit_value first.effect
            hb

      second : Assigns init m1 c t (operand_bit (state init m1) b) (xor_assign c b m1)
      second = xor_assign-folds init m1 c b t first.effect.ready e u1 b1

      m2 : Machine
      m2 = second.effect.after

      third :
          Assigns init m2 c t
            (operand_bit (state init m2) a && operand_bit (state init m2) b)
            (xor_assign_and c a b m2)
      third =
          xor_assign_and-folds init m2 c a b t second.effect.ready e
            (IsUsable-after m1 _ second.unit_result t second.effect u1)
            (CanRead-after m1 _ second.unit_result t a.qubit_index a.superposed a.bit_value
              second.effect a1)
            (CanRead-after m1 _ second.unit_result t b.qubit_index b.superposed b.bit_value
              second.effect b1)

      same_a : operand_bit (state init m2) a ≡ operand_bit (state init m) a
      same_a =
          operand_bit-after m1 _ second.unit_result t a.qubit_index a.superposed a.bit_value
            second.effect a1
          ∙ operand_bit-after m _ first.unit_result t a.qubit_index a.superposed a.bit_value
              first.effect ha

      same_b1 : operand_bit (state init m1) b ≡ operand_bit (state init m) b
      same_b1 =
          operand_bit-after m _ first.unit_result t b.qubit_index b.superposed b.bit_value
            first.effect hb

      same_b : operand_bit (state init m2) b ≡ operand_bit (state init m) b
      same_b =
          operand_bit-after m1 _ second.unit_result t b.qubit_index b.superposed b.bit_value
            second.effect b1
          ∙ same_b1

      same :
          xor (operand_bit (state init m) a) (
            xor
              (operand_bit (state init m1) b)
              (operand_bit (state init m2) a && operand_bit (state init m2) b))
          ≡ (operand_bit (state init m) a || operand_bit (state init m) b)
      same =
          rw (same_a, same_b, same_b1)
            (or_of (operand_bit (state init m) a) (operand_bit (state init m) b))
