-- ===== src/Circuit/Laws.antt =====
-- Laws of circuits: composition, frame and reverse.
use mathlib.Core.List.{reverse-cons}
use sturm_cpp.Common.{ℕ, ◌≡◌, ◌≢◌, refl, ap, ◌∙◌, fun_ext, arith, List, [], ◌∷◌, ◌++◌, reverse, All}
use sturm_cpp.Circuit.{Bits, Op, op_x, op_cx, op_ccx, run_op, run, target}

pub run-append : (os ps : List Op) (s : Bits) → run (os ++ ps) s ≡ run ps (run os s)
unfolding run
run-append [] ps s = refl
run-append (o ∷ os) ps s = run-append os ps (run_op o s)

pub run_op-frame : (o : Op) (s : Bits) (q : ℕ) → q ≢ target o → run_op o s q ≡ s q
unfolding run_op
run_op-frame (op_x t) s q h = ground arith
run_op-frame (op_cx c t) s q h = ground arith
run_op-frame (op_ccx c0 c1 t) s q h = ground arith

abbrev pub Untouched : ℕ → List Op → Type 0
Untouched q os = All (λ o. q ≢ target o) os

-- A qubit that is no target keeps its bit.
pub run-frame : (os : List Op) (s : Bits) (q : ℕ) → Untouched q os → run os s q ≡ s q
unfolding run
run-frame [] s q h = refl
run-frame (o ∷ os) s q h = run-frame os (run_op o s) q h.1 ∙ run_op-frame o s q h.0

-- The target of a gate is none of its controls.
abbrev pub IsProper : Op → Type 0
IsProper (op_x t) = Unit {0}
IsProper (op_cx c t) = c ≢ t
IsProper (op_ccx c0 c1 t) = (c0 ≢ t) × (c1 ≢ t)

run_op-run_op : (o : Op) (s : Bits) → IsProper o → run_op o (run_op o s) ≡ s
unfolding run_op
run_op-run_op (op_x t) s h = fun_ext λ q. ground arith
run_op-run_op (op_cx c t) s h = fun_ext λ q. ground arith
run_op-run_op (op_ccx c0 c1 t) s h = fun_ext λ q. ground arith

pub run-reverse : (os : List Op) (s : Bits) → All IsProper os → run (reverse os) (run os s) ≡ s
unfolding run
run-reverse [] s h = refl
run-reverse (o ∷ os) s h = rw reverse-cons (
    run-append (reverse os) (o ∷ []) (run os (run_op o s))
    ∙ ap (run_op o) (run-reverse os (run_op o s) h.1)
    ∙ run_op-run_op o s h.0)

-- Undone by the reverse, from the other end.
pub run-run-reverse : (os : List Op) (s : Bits) → All IsProper os → run os (run (reverse os) s) ≡ s
unfolding run
run-run-reverse [] s h = refl
run-run-reverse (o ∷ os) s h = rw reverse-cons (
    ap (λ r. run os (run_op o r)) (run-append (reverse os) (o ∷ []) s)
    ∙ ap (run os) (run_op-run_op o (run (reverse os) s) h.0)
    ∙ run-run-reverse os s h.1)

-- The qubits of a statement satisfy `P`, and it is a proper gate.
abbrev pub Uses : (ℕ → Type 0) → Op → Type 0
Uses P (op_x t) = P t
Uses P (op_cx c t) = P c × P t × (c ≢ t)
Uses P (op_ccx c0 c1 t) = P c0 × P c1 × P t × (c0 ≢ t) × (c1 ≢ t)

pub Uses→IsProper : (P : ℕ → Type 0) (os : List Op) → All (Uses P) os → All IsProper os
Uses→IsProper P [] h = tt
Uses→IsProper P (op_x t ∷ os) h = (tt, Uses→IsProper P os h.1)
Uses→IsProper P (op_cx c t ∷ os) h = (h.0.2, Uses→IsProper P os h.1)
Uses→IsProper P (op_ccx c0 c1 t ∷ os) h = ((h.0.3, h.0.4), Uses→IsProper P os h.1)
