-- ===== src/Transpile/Adjoint/Emission.antt =====
-- When an adjoint is emitted, and what its body does.

use sturm_cpp.Common.{
  ◌≡◌, ◌≢◌, refl, sym, true, false, Bool, not, Option, none, some, List, [], ◌∷◌, map, All, arith,
  if◌then◌else◌,
}
use sturm_cpp.Common.Text.{String, ◌<<◌, is_empty, is_empty-append, eq_iff}
use sturm_cpp.Transpile.Qir.{QOperation}
use sturm_cpp.Transpile.Plugin.{FindRenderFn}
use sturm_cpp.Transpile.Adjoint.{
  FunctionDecl, AdjointEmissionResult, AdjointRejectReason, accepted, recover_parameter_texts,
  join_parameter_texts, render_reverse_body, assemble_adjoint, emit_adjoint_for_decl,
}

-- The source text of the parameter was found.
abbrev pub IsRecovered : Option String → Type 0
IsRecovered none = ⊥
IsRecovered (some text) = text ≢ ""

recover-some :
    (ps : List (Option String))
    → All IsRecovered ps
    → (ts : List String) × (recover_parameter_texts ps ≡ some ts) × (ps ≡ map some ts)
unfolding recover_parameter_texts
recover-some [] h = ([], refl, refl)
recover-some (none ∷ ps) h = absurd h.0
recover-some (some t ∷ ps) h =
    let (ts, e, f) = recover-some ps h.1 in (t ∷ ts, ground (arith, e, eq_iff t ""), cc)

recover-All :
    (ps : List (Option String)) {ts : List String}
    → recover_parameter_texts ps ≡ some ts
    → All IsRecovered ps
unfolding recover_parameter_texts
recover-All [] e = tt
recover-All (none ∷ ps) e = cc
recover-All (some t ∷ ps) e =
    elim (recover_parameter_texts ps)
        as (λ o. o ≡ recover_parameter_texts ps → All IsRecovered (some t ∷ ps)) [
          | none ↦ λ q. absurd (ground (arith, eq_iff t ""))
          | some us ↦ λ q. (ground (arith, eq_iff t ""), recover-All ps (sym q))
        ]
      refl

abbrev pub CanEmit : Option FunctionDecl → Type 0
CanEmit none = ⊥
CanEmit (some fd) = (fd.is_reversible ≡ true) × (fd.has_body ≡ true) × All IsRecovered fd.params

abbrev pub is_accepted : AdjointRejectReason → Bool
is_accepted accepted = true
is_accepted _ = false

-- What the result of an emission says.
pub record Reports (fd : Option FunctionDecl) (res : AdjointEmissionResult) : Type 0 where
  pub emitted : CanEmit fd → res.synthesized ≡ true
  pub only_then : res.synthesized ≡ true → CanEmit fd
  pub told : is_accepted res.reason ≡ res.synthesized
  pub has_text : is_empty res.source ≡ not res.synthesized

assemble-ne-nil :
    (name signature body : String) → is_empty (assemble_adjoint name signature body) ≡ false
unfolding assemble_adjoint
assemble-ne-nil name signature body = is_empty-append _ "}\n" refl

-- The source is empty exactly if nothing was synthesized.
abbrev IsConsistent : AdjointEmissionResult → Type 0
IsConsistent res = is_empty res.source ≡ not res.synthesized

pick-IsConsistent :
    (b : Bool) (x y : AdjointEmissionResult)
    → IsConsistent x
    → IsConsistent y
    → IsConsistent (if b then x else y)
pick-IsConsistent true x y p q = p
pick-IsConsistent false x y p q = q

outcome :
    (fd : FunctionDecl) (ops : List QOperation) (registry : Option FindRenderFn)
    (texts : Option (List String))
    → recover_parameter_texts fd.params ≡ texts
    → Reports (some fd) (emit_adjoint_for_decl (some fd) ops registry)
unfolding emit_adjoint_for_decl
outcome fd ops registry none e = record {
  emitted = λ h. let (ts, f, _) = recover-some fd.params h.2 in absurd (cc);
  only_then = λ h. absurd (ground (arith, e));
  told = ground (arith, e);
  has_text =
      pick-IsConsistent (not fd.is_reversible) _ _ refl
        (pick-IsConsistent (not fd.has_body) _ _ refl (rw e refl));
}
outcome fd ops registry (some texts) e = record {
  emitted = λ h. ground (arith, e, h.0, h.1);
  only_then = λ h. (ground (arith, e), ground (arith, e), recover-All fd.params e);
  told = ground (arith, e);
  has_text = pick-IsConsistent (not fd.is_reversible) _ _ refl (
      pick-IsConsistent (not fd.has_body) _ _ refl (
        rw e (
          assemble-ne-nil ("__" << fd.name << "_adj") (join_parameter_texts texts)
            (render_reverse_body ops registry))));
}

-- The result says that an adjoint was synthesized exactly if there is a declaration that is
-- marked reversible, has a body, and has the source text of each parameter; the reason is "none"
-- exactly then, and the source is not empty exactly then.
pub emit_adjoint_for_decl-Reports :
    (fd : Option FunctionDecl) (ops : List QOperation) (registry : Option FindRenderFn)
    → Reports fd (emit_adjoint_for_decl fd ops registry)
emit_adjoint_for_decl-Reports none ops registry =
    unfold emit_adjoint_for_decl in
    record { emitted = λ h. absurd h; only_then = λ h. cc; told = refl; has_text = refl }
emit_adjoint_for_decl-Reports (some fd) ops registry =
    outcome fd ops registry (recover_parameter_texts fd.params) refl
