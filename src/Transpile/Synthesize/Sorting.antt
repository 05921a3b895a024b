-- ===== src/Transpile/Synthesize/Sorting.antt =====
-- The sort of the operations of a scope by their place in the source.
use sturm_cpp.Common.{◌≤◌, ltb, List, [], ◌∷◌, All, arith, Bool-cases, inl, inr}
use sturm_cpp.Transpile.Qir.{QOperation}
use sturm_cpp.Transpile.Synthesize.{begin_of, insert_op, stable_sort}

-- Each operation starts no later than those that follow it.
abbrev pub IsSorted : List QOperation → Type 0
IsSorted [] = Unit {0}
IsSorted (op ∷ ops) = All (λ x. begin_of op ≤ begin_of x) ops × IsSorted ops

pub All-insert_op :
    (P : QOperation → Type 0) (op : QOperation) (xs : List QOperation)
    → P op
    → All P xs
    → All P (insert_op op xs)
unfolding insert_op
All-insert_op P op [] p h = (p, tt)
All-insert_op P op (x ∷ xs) p h = elim (Bool-cases (ltb (begin_of x) (begin_of op))) [
  | inl e ↦ rw e (h.0, All-insert_op P op xs p h.1)
  | inr e ↦ rw e (p, h)
]

pub All-stable_sort :
    (P : QOperation → Type 0) (ops : List QOperation) → All P ops → All P (stable_sort ops)
unfolding stable_sort
All-stable_sort P [] h = tt
All-stable_sort P (op ∷ ops) h =
    All-insert_op P op (stable_sort ops) h.0 (All-stable_sort P ops h.1)

All-le_trans :
    (m n : QOperation) (xs : List QOperation)
    → begin_of m ≤ begin_of n
    → All (λ x. begin_of n ≤ begin_of x) xs
    → All (λ x. begin_of m ≤ begin_of x) xs
All-le_trans m n [] l h = tt
All-le_trans m n (x ∷ xs) l h = (omega (arith, h.0), All-le_trans m n xs l h.1)

insert_op-IsSorted :
    (op : QOperation) (xs : List QOperation) → IsSorted xs → IsSorted (insert_op op xs)
unfolding insert_op
insert_op-IsSorted op [] h = (tt, tt)
insert_op-IsSorted op (x ∷ xs) h = elim (Bool-cases (ltb (begin_of x) (begin_of op))) [
  | inl e ↦ rw e (
    All-insert_op (λ y. begin_of x ≤ begin_of y) op xs (ground arith) h.0,
    insert_op-IsSorted op xs h.1,
  )
  | inr e ↦
      let l : begin_of op ≤ begin_of x = ground arith in rw e ((l, All-le_trans op x xs l h.0), h)
]

pub stable_sort-IsSorted : (ops : List QOperation) → IsSorted (stable_sort ops)
unfolding stable_sort
stable_sort-IsSorted [] = tt
stable_sort-IsSorted (op ∷ ops) = insert_op-IsSorted op (stable_sort ops) (stable_sort-IsSorted ops)
