-- ===== src/Qtypes/Uncompute.antt =====
-- src/sturm/uncompute/uncompute_api.cpp: the inverses of the materialized operators. `none` is a
-- failed `assert`.
pub mod Inverse
pub mod Materialize
pub mod RoundTrip
use sturm_cpp.Common.{ℕ, ◌&&◌, ◌||◌, none, some, if◌then◌else◌}
use sturm_cpp.Machine.{M, pure, ◌>>=◌, ◌>>◌, primitive_x, primitive_xor, primitive_and}
use sturm_cpp.Qtypes.Bit.{BitProxy}

-- The gates that `uncompute_or` emits once `r` is known to have the qubit `qr`.
unfoldable pub uncompute_or_gates : ℕ → BitProxy → BitProxy → M (Unit {0})
uncompute_or_gates qr a b = elim a.qubit_index [
  | some qa ↦ elim b.qubit_index [
    | some qb ↦ primitive_and qa qb qr >> (primitive_xor qb qr >> primitive_xor qa qr)
    | none ↦
        if b.bit_value
        then primitive_xor qa qr >> (primitive_x qr >> primitive_xor qa qr)
        else primitive_xor qa qr
  ]
  | none ↦ elim b.qubit_index [
    | some qb ↦
        if a.bit_value
        then primitive_xor qb qr >> (primitive_xor qb qr >> primitive_x qr)
        else primitive_xor qb qr
    | none ↦
        if a.bit_value && b.bit_value
        then primitive_x qr >> (primitive_x qr >> primitive_x qr)
        else if a.bit_value || b.bit_value
        then primitive_x qr
        else pure tt
  ]
]

-- Without a qubit in `r` there is nothing to undo if both operands are classical.
unfoldable pub uncompute_or : BitProxy → BitProxy → BitProxy → M (Unit {0})
unfolding uncompute_or_gates
uncompute_or r a b m = elim r.qubit_index [
  | some qr ↦ uncompute_or_gates qr a b m
  | none ↦ elim a.qubit_index [
    | none ↦ elim b.qubit_index [ none ↦ pure tt m | some qb ↦ none ]
    | some qa ↦ none
  ]
]

unfoldable pub uncompute_and_gates : ℕ → BitProxy → BitProxy → M (Unit {0})
uncompute_and_gates qr a b = elim a.qubit_index [
  | some qa ↦ elim b.qubit_index [
    | some qb ↦ primitive_and qa qb qr
    | none ↦ if b.bit_value then primitive_xor qa qr else pure tt
  ]
  | none ↦ elim b.qubit_index [
    | some qb ↦ if a.bit_value then primitive_xor qb qr else pure tt
    | none ↦ if a.bit_value && b.bit_value then primitive_x qr else pure tt
  ]
]

unfoldable pub uncompute_and : BitProxy → BitProxy → BitProxy → M (Unit {0})
unfolding uncompute_and_gates
uncompute_and r a b m = elim r.qubit_index [
  | some qr ↦ uncompute_and_gates qr a b m
  | none ↦ elim a.qubit_index [
    | none ↦ elim b.qubit_index [ none ↦ pure tt m | some qb ↦ none ]
    | some qa ↦ none
  ]
]

unfoldable pub ccnot_inplace : BitProxy → BitProxy → BitProxy → M (Unit {0})
ccnot_inplace x a b m = elim a.qubit_index [
  | none ↦ none
  | some qa ↦ elim b.qubit_index [
    | none ↦ none
    | some qb ↦ elim x.qubit_index [ none ↦ none | some qx ↦ primitive_and qa qb qx m ]
  ]
]
