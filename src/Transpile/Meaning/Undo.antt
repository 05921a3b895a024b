-- ===== src/Transpile/Meaning/Undo.antt =====
-- Running the inverse statements of an operation after the operation.
use native.Mathlib.Nat.{mod-eq_of_lt, mul-div_cancel, mod-add-div'}
use sturm_cpp.Common.{
  wrap_sub-add, wrap_add-sub, ℕ, ◌+◌, ◌-◌, ◌*◌, ◌/◌, ◌%◌, ◌^◌, ◌<◌, ◌≡◌, ◌≢◌, ◌∙◌, refl, ap, Bool,
  true, false, xor, List, [], ◌∷◌, arith,
}
use sturm_cpp.Common.Text.{String}
use sturm_cpp.Transpile.Qir.{QOpKind, QOperation, QValueRef}
use sturm_cpp.Transpile.Meaning.Variables.{
  Store, put, put_bit, put_int, put-at, put-other, put-put, put_self,
}
use sturm_cpp.Transpile.Meaning.Statements.{
  BitCall, uncompute_or, uncompute_and, ccnot, uncompute_eq, uncompute_ne, uncompute_lt,
  uncompute_le, uncompute_gt, uncompute_ge, times_assign, over_assign, call_bit, flip_by, forward,
  forward_on, exec, exec_all, bit_value, int_value, assign_value, add_value, sub_value,
}
use sturm_cpp.Transpile.Meaning.Inverse.{inverse, inverse_on, CanUndo, CanUndoOn}

put_bit-put_bit :
    (x : String) (u v : Bool) (s : Store) → put_bit x u (put_bit x v s) ≡ put_bit x u s
unfolding put_bit
put_bit-put_bit x u v s = ap (λ f. record s { bit = f }) (put-put x u v s.bit)

put_bit_back : (x : String) (u v : Bool) (s : Store) → u ≡ s.bit x → put_bit x u (put_bit x v s) ≡ s
unfolding put_bit
put_bit_back x u v s e =
    ap (λ f. record s { bit = f })
      (put-put x u v s.bit ∙ ap (λ b. put x b s.bit) e ∙ put_self x s.bit)

put_int_back : (x : String) (u v : ℕ) (s : Store) → u ≡ s.int x → put_int x u (put_int x v s) ≡ s
unfolding put_int
put_int_back x u v s e =
    ap (λ f. record s { int = f })
      (put-put x u v s.int ∙ ap (λ b. put x b s.int) e ∙ put_self x s.int)

bit-put_bit_at : (x : String) (b : Bool) (s : Store) → (put_bit x b s).bit x ≡ b
unfolding put_bit
bit-put_bit_at x b s = put-at x b s.bit

bit-put_bit : (x y : String) (b : Bool) (s : Store) → x ≢ y → (put_bit x b s).bit y ≡ s.bit y
unfolding put_bit
bit-put_bit x y b s n = put-other x y b s.bit n

int-put_int_at : (x : String) (n : ℕ) (s : Store) → (put_int x n s).int x ≡ n
unfolding put_int
int-put_int_at x n s = put-at x n s.int

int-put_int : (x y : String) (n : ℕ) (s : Store) → x ≢ y → (put_int x n s).int y ≡ s.int y
unfolding put_int
int-put_int x y n s d = put-other x y n s.int d

bit_value-put_bit :
    (c : BitCall) (r a b : String) (v : Bool) (s : Store)
    → r ≢ a
    → r ≢ b
    → bit_value c a b (put_bit r v s) ≡ bit_value c a b s
unfolding bit_value
bit_value-put_bit uncompute_or r a b v s p q = rw (bit-put_bit r a v s p, bit-put_bit r b v s q)
bit_value-put_bit uncompute_and r a b v s p q = rw (bit-put_bit r a v s p, bit-put_bit r b v s q)
bit_value-put_bit ccnot r a b v s p q = rw (bit-put_bit r a v s p, bit-put_bit r b v s q)
bit_value-put_bit uncompute_eq r a b v s p q = unfold put_bit in refl
bit_value-put_bit uncompute_ne r a b v s p q = unfold put_bit in refl
bit_value-put_bit uncompute_lt r a b v s p q = unfold put_bit in refl
bit_value-put_bit uncompute_le r a b v s p q = unfold put_bit in refl
bit_value-put_bit uncompute_gt r a b v s p q = unfold put_bit in refl
bit_value-put_bit uncompute_ge r a b v s p q = unfold put_bit in refl

xor-xor : (u v : Bool) → xor (xor u v) v ≡ u
xor-xor true true = refl
xor-xor true false = refl
xor-xor false true = refl
xor-xor false false = refl

xor_self : (v : Bool) → xor v v ≡ false
xor_self true = refl
xor_self false = refl

module _ (width constant : String → ℕ) where
  -- A call adds the same value to a bit that was |0>.
  call_bit_undoes :
      (c : BitCall) (r a b : String) (s : Store)
      → s.bit r ≡ false
      → r ≢ a
      → r ≢ b
      → exec width constant (call_bit c r a b) (put_bit r (bit_value c a b s) s) ≡ s
  unfolding exec
  call_bit_undoes c r a b s z p q = put_bit_back r _ _ s (
      rw
        (
          bit_value-put_bit c r a b (bit_value c a b s) s p q,
          bit-put_bit_at r (bit_value c a b s) s,
          z,
        )
        (xor_self (bit_value c a b s)))

  call_bit_twice :
      (c : BitCall) (r a b : String) (s : Store)
      → r ≢ a
      → r ≢ b
      → exec width constant (call_bit c r a b) (put_bit r (xor (s.bit r) (bit_value c a b s)) s) ≡ s
  unfolding exec
  call_bit_twice c r a b s p q =
      let v = xor (s.bit r) (bit_value c a b s) in
      put_bit_back r _ _ s (
        rw (bit_value-put_bit c r a b v s p q, bit-put_bit_at r v s)
          (xor-xor (s.bit r) (bit_value c a b s)))

  flip_by_twice :
      (r a : String) (s : Store)
      → r ≢ a
      → exec width constant (flip_by r a) (put_bit r (xor (s.bit r) (s.bit a)) s) ≡ s
  unfolding exec
  flip_by_twice r a s p =
      let v = xor (s.bit r) (s.bit a) in
      put_bit_back r _ _ s
        (rw (bit-put_bit r a v s p, bit-put_bit_at r v s) (xor-xor (s.bit r) (s.bit a)))

  -- `r ^= a; r ^= b` on a bit that holds `a ^ b`.
  flip_by_both_undoes :
      (r a b : String) (s : Store)
      → s.bit r ≡ false
      → r ≢ a
      → r ≢ b
      → exec_all width constant
          (flip_by r a ∷ flip_by r b ∷ [])
          (put_bit r (xor (s.bit a) (s.bit b)) s)
        ≡ s
  unfolding exec_all exec
  flip_by_both_undoes r a b s z p q =
      let v = xor (s.bit a) (s.bit b) in
      rw (bit-put_bit_at r v s, bit-put_bit r a v s p, put_bit-put_bit r (xor v (s.bit a)) v s)
        (put_bit_back r _ _ s (
          rw (bit-put_bit_at r (xor v (s.bit a)) s, bit-put_bit r b (xor v (s.bit a)) s q, z)
            (ground arith)))

  module _ (x : String) (s : Store) where
    add_undoes :
        (k : ℕ)
        → s.int x < 2 ^ width x
        → sub_value width constant k x (put_int x (add_value width constant k x s) s) ≡ s.int x
    unfolding add_value sub_value
    add_undoes k h =
        rw (int-put_int_at x ((s.int x + k) % 2 ^ width x) s)
          (wrap_sub-add (s.int x) k (2 ^ width x) h)

    sub_undoes :
        (k : ℕ)
        → s.int x < 2 ^ width x
        → add_value width constant k x (put_int x (sub_value width constant k x s) s) ≡ s.int x
    unfolding add_value sub_value
    sub_undoes k h =
        rw (int-put_int_at x ((s.int x + 2 ^ width x - k % 2 ^ width x) % 2 ^ width x) s)
          (wrap_add-sub (s.int x) k (2 ^ width x) h)

    times_undoes :
        (e : String)
        → 0 < constant e
        → s.int x * constant e < 2 ^ width x
        → assign_value width constant over_assign x e
            (put_int x (assign_value width constant times_assign x e s) s)
          ≡ s.int x
    unfolding assign_value
    times_undoes e p h =
        rw (int-put_int_at x ((s.int x * constant e) % 2 ^ width x) s, mod-eq_of_lt h)
          (mul-div_cancel (s.int x) p)

    over_undoes :
        (e : String)
        → s.int x % constant e ≡ 0
        → s.int x < 2 ^ width x
        → assign_value width constant times_assign x e
            (put_int x (assign_value width constant over_assign x e s) s)
          ≡ s.int x
    unfolding assign_value
    over_undoes e z h =
        let whole : s.int x / constant e * constant e ≡ s.int x =
          omega (arith, mod-add-div' (s.int x) (constant e), z) in
        rw (int-put_int_at x (s.int x / constant e) s, whole) (mod-eq_of_lt h)

  undo_on :
      (k : QOpKind) (r : String) (os : List QValueRef) (s : Store)
      → CanUndoOn width constant k r os s
      → exec_all width constant (inverse_on k r os) (forward_on width constant k r os s) ≡ s
  unfolding inverse_on forward_on exec_all
  undo_on QOpKind.or r (a ∷ b ∷ []) s h = call_bit_undoes uncompute_or r a.name b.name s h.0 h.1 h.2
  undo_on QOpKind.and r (a ∷ b ∷ []) s h =
      call_bit_undoes uncompute_and r a.name b.name s h.0 h.1 h.2
  undo_on QOpKind.eq_qint r (a ∷ b ∷ []) s h =
      call_bit_undoes uncompute_eq r a.name b.name s h.0 h.1 h.2
  undo_on QOpKind.ne_qint r (a ∷ b ∷ []) s h =
      call_bit_undoes uncompute_ne r a.name b.name s h.0 h.1 h.2
  undo_on QOpKind.lt_qint r (a ∷ b ∷ []) s h =
      call_bit_undoes uncompute_lt r a.name b.name s h.0 h.1 h.2
  undo_on QOpKind.le_qint r (a ∷ b ∷ []) s h =
      call_bit_undoes uncompute_le r a.name b.name s h.0 h.1 h.2
  undo_on QOpKind.gt_qint r (a ∷ b ∷ []) s h =
      call_bit_undoes uncompute_gt r a.name b.name s h.0 h.1 h.2
  undo_on QOpKind.ge_qint r (a ∷ b ∷ []) s h =
      call_bit_undoes uncompute_ge r a.name b.name s h.0 h.1 h.2
  undo_on QOpKind.ccnot_inplace r (a ∷ b ∷ []) s h = call_bit_twice ccnot r a.name b.name s h.0 h.1
  undo_on QOpKind.xor r (a ∷ b ∷ []) s h = flip_by_both_undoes r a.name b.name s h.0 h.1 h.2
  undo_on QOpKind.xor_assign r (a ∷ []) s h = flip_by_twice r a.name s h
  undo_on QOpKind.add_assign_const x (e ∷ []) s h =
      unfold exec assign_value in put_int_back x _ _ s (add_undoes x s (constant e.name) h)
  undo_on QOpKind.sub_assign_const x (e ∷ []) s h =
      unfold exec assign_value in put_int_back x _ _ s (sub_undoes x s (constant e.name) h)
  undo_on QOpKind.mul_assign_const x (e ∷ []) s h =
      unfold exec in put_int_back x _ _ s (times_undoes x s e.name h.0 h.1)
  undo_on QOpKind.div_assign_const x (e ∷ []) s h =
      unfold exec in put_int_back x _ _ s (over_undoes x s e.name h.1 h.2)
  undo_on QOpKind.add_assign_qint x (y ∷ []) s h =
      unfold exec int_value in
      put_int_back x _ _ s (
        rw (int-put_int x y.name (add_value width constant (s.int y.name) x s) s h.0)
          (add_undoes x s (s.int y.name) h.1))
  undo_on QOpKind.sub_assign_qint x (y ∷ []) s h =
      unfold exec int_value in
      put_int_back x _ _ s (
        rw (int-put_int x y.name (sub_value width constant (s.int y.name) x s) s h.0)
          (sub_undoes x s (s.int y.name) h.1))
  undo_on _ r _ s h = elim h [ ]

  pub undo :
      (op : QOperation) (s : Store)
      → CanUndo width constant op s
      → exec_all width constant (inverse op) (forward width constant op s) ≡ s
  unfolding inverse forward
  undo op s h = undo_on op.kind op.result.name op.operands s h
