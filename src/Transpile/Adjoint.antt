-- ===== src/Transpile/Adjoint.antt =====
-- The synthesis of adjoint functions, transpiler/src/adjoint_emitter.cpp. Of a declaration of
-- Clang's the code asks for the parts of `FunctionDecl` below; a parameter is its source text,
-- and `none` where there is no declaration of it.
pub mod Emission
use sturm_cpp.Common.{
  Bool, true, false, not, ◌||◌, Option, none, some, List, [], ◌∷◌, reverse, if◌then◌else◌,
}
use sturm_cpp.Common.Text.{String, ◌<<◌, is_empty}
use sturm_cpp.Transpile.Qir.{QOperation}
use sturm_cpp.Transpile.Plugin.{FindRenderFn}
use sturm_cpp.Transpile.Render.{render_uncompute}

pub record FunctionDecl : Type 0 where
  pub name : String
  pub is_reversible : Bool
  pub has_body : Bool
  pub params : List (Option String)

pub data AdjointRejectReason : Type 0 where
  accepted null_decl not_reversible no_body source_recovery_failed : AdjointRejectReason

unfoldable pub reason_text : AdjointRejectReason → String
reason_text accepted = "none"
reason_text null_decl = "null_decl"
reason_text not_reversible = "not_reversible"
reason_text no_body = "no_body"
reason_text source_recovery_failed = "source_recovery_failed"

pub record AdjointEmissionResult : Type 0 where
  pub source : String
  pub adjoint_name : String
  pub synthesized : Bool
  pub reason : AdjointRejectReason

unfoldable pub recover_parameter_texts : List (Option String) → Option (List String)
recover_parameter_texts [] = some []
recover_parameter_texts (none ∷ ps) = none
recover_parameter_texts (some text ∷ ps) =
    let rest = recover_parameter_texts ps in
    if is_empty text then none else elim rest [ none ↦ none | some ts ↦ some (text ∷ ts) ]

unfoldable pub join_parameter_texts : List String → String
join_parameter_texts [] = ""
join_parameter_texts (p ∷ []) = p
join_parameter_texts (p ∷ q ∷ ps) = p << ", " << join_parameter_texts (q ∷ ps)

-- The lines of the operations, which come reversed.
unfoldable pub lines : Option FindRenderFn → List QOperation → String
lines registry [] = ""
lines registry (op ∷ ops) =
    let rest = lines registry ops in
    let line = render_uncompute op registry in
    if op.skip_uncompute || is_empty line then rest else line << rest

unfoldable pub render_reverse_body : List QOperation → Option FindRenderFn → String
unfolding lines
render_reverse_body ops registry = lines registry (reverse ops)

unfoldable pub assemble_adjoint : String → String → String → String
assemble_adjoint adjoint_name signature_text body_text =
    "void " << adjoint_name << "(" << signature_text << ") {\n" << body_text << "}\n"

unfoldable pub emit_adjoint_body : String → String → List QOperation → Option FindRenderFn → String
unfolding render_reverse_body assemble_adjoint
emit_adjoint_body fn_name signature_text ops registry =
    if is_empty fn_name
    then ""
    else assemble_adjoint ("__" << fn_name << "_adj") signature_text
        (render_reverse_body ops registry)

abbrev rejected : AdjointRejectReason → AdjointEmissionResult
rejected why = record { source = ""; adjoint_name = ""; synthesized = false; reason = why }

unfoldable pub emit_adjoint_for_decl :
    Option FunctionDecl → List QOperation → Option FindRenderFn → AdjointEmissionResult
unfolding recover_parameter_texts join_parameter_texts render_reverse_body assemble_adjoint
emit_adjoint_for_decl none ops registry = rejected null_decl
emit_adjoint_for_decl (some fd) ops registry =
    let adjoint = "__" << fd.name << "_adj" in
    let emitted : AdjointEmissionResult = elim (recover_parameter_texts fd.params) [
      | none ↦ rejected source_recovery_failed
      | some texts ↦ record {
        source =
            assemble_adjoint adjoint (join_parameter_texts texts)
              (render_reverse_body ops registry);
        adjoint_name = adjoint;
        synthesized = true;
        reason = accepted;
      }
    ] in
    if not fd.is_reversible
    then rejected not_reversible
    else (if not fd.has_body then rejected no_body else emitted)
