-- ===== src/Transpile/Plugin.antt =====
-- The plugin registry, transpiler/src/plugin_registry.cpp. `none` is an abort; a matcher's
-- registration function acts on the match finder, whose type is a parameter, and on the unit.
pub mod Registration
pub mod Accepted
pub mod Lookup
use sturm_cpp.Common.{
  Bool, false, ◌||◌, Option, none, some, List, [], ◌∷◌, ◌++◌, map, if◌then◌else◌,
}
use sturm_cpp.Common.Text.{String, str_eq}
use sturm_cpp.Transpile.Qir.{QOperation, QUnit}

abbrev pub UncomputeRenderFn : Type 0
UncomputeRenderFn = QOperation → String

-- `find_render_fn` of a registry; the function found may be empty.
abbrev pub FindRenderFn : Type 0
FindRenderFn = String → Option (Option UncomputeRenderFn)

abbrev pub MatcherRegisterFn : Type 0 → Type 0
MatcherRegisterFn Finder = Finder × QUnit → Finder × QUnit

pub record Registry (Finder : Type 0) : Type 0 where
  pub matcher_names : List String
  pub render_fns : List (String × Option UncomputeRenderFn)
  pub matchers : List (MatcherRegisterFn Finder)

unfoldable pub contains : String → List String → Bool
contains key [] = false
contains key (name ∷ names) = str_eq name key || contains key names

unfoldable pub find {ℓ} : {A : Type ℓ} → String → List (String × A) → Option A
find key [] = none
find key ((name, a) ∷ rest) = if str_eq name key then some a else find key rest

module _ {Finder : Type 0} where
  unfoldable pub register_matcher :
      String → MatcherRegisterFn Finder → Registry Finder → Option (Registry Finder)
  unfolding contains
  register_matcher name fn r =
      if contains name r.matcher_names
      then none
      else some
          (record r { matcher_names = name ∷ r.matcher_names; matchers = r.matchers ++ fn ∷ [] })

  unfoldable pub find_render_fn : Registry Finder → FindRenderFn
  unfolding find
  find_render_fn r kind_id = find kind_id r.render_fns

  unfoldable pub register_op :
      String
      → MatcherRegisterFn Finder
      → Option UncomputeRenderFn
      → Registry Finder
      → Option (Registry Finder)
  unfolding find_render_fn
  register_op kind_id fn render_fn r = elim (find_render_fn r kind_id) [
    | some _ ↦ none
    | none ↦ some (record r {
      render_fns = (kind_id, render_fn) ∷ r.render_fns;
      matchers = r.matchers ++ fn ∷ [];
    })
  ]

  unfoldable pub run_all : List (MatcherRegisterFn Finder) → Finder × QUnit → Finder × QUnit
  run_all [] state = state
  run_all (fn ∷ fns) state = run_all fns (fn state)

  unfoldable pub invoke_all : Registry Finder → Finder × QUnit → Finder × QUnit
  unfolding run_all
  invoke_all r state = run_all r.matchers state

  unfoldable pub kind_ids : Registry Finder → List String
  kind_ids r = map (λ entry. entry.0) r.render_fns
