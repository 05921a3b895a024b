-- ===== src/Transpile/Plugin/Registration.antt =====
-- Sequences of registrations at the plugin registry.

use sturm_cpp.Common.{Option, none, some, List, [], ◌∷◌}
use sturm_cpp.Common.Text.{String}
use sturm_cpp.Transpile.Qir.{QUnit}
use sturm_cpp.Transpile.Plugin.{
  UncomputeRenderFn, MatcherRegisterFn, Registry, register_matcher, register_op,
}

-- One call that a plugin makes on the registry.
pub data Registration (Finder : Type 0) : Type 0 where
  matcher : String → MatcherRegisterFn Finder → Registration Finder
  op : String → MatcherRegisterFn Finder → Option UncomputeRenderFn → Registration Finder

module _ {Finder : Type 0} where
  abbrev pub empty : Registry Finder
  empty = record { matcher_names = []; render_fns = []; matchers = [] }

  abbrev pub apply : Registration Finder → Registry Finder → Option (Registry Finder)
  apply (matcher name fn) r = register_matcher name fn r
  apply (op kind_id fn render_fn) r = register_op kind_id fn render_fn r

  unfoldable pub register_all :
      List (Registration Finder) → Registry Finder → Option (Registry Finder)
  register_all [] r = some r
  register_all (c ∷ cs) r = elim (apply c r) [ none ↦ none | some r' ↦ register_all cs r' ]

  abbrev pub matcher_fn : Registration Finder → MatcherRegisterFn Finder
  matcher_fn (matcher _ fn) = fn
  matcher_fn (op _ fn _) = fn

  unfoldable pub matcher_names_of : List (Registration Finder) → List String
  matcher_names_of [] = []
  matcher_names_of (matcher name _ ∷ cs) = name ∷ matcher_names_of cs
  matcher_names_of (op _ _ _ ∷ cs) = matcher_names_of cs

  unfoldable pub ops_of : List (Registration Finder) → List (String × Option UncomputeRenderFn)
  ops_of [] = []
  ops_of (matcher _ _ ∷ cs) = ops_of cs
  ops_of (op kind_id _ render_fn ∷ cs) = (kind_id, render_fn) ∷ ops_of cs

  unfoldable pub kinds_of : List (Registration Finder) → List String
  kinds_of [] = []
  kinds_of (matcher _ _ ∷ cs) = kinds_of cs
  kinds_of (op kind_id _ _ ∷ cs) = kind_id ∷ kinds_of cs

  -- The matchers act one after the other in the order of the calls.
  unfoldable pub run_calls : List (Registration Finder) → Finder × QUnit → Finder × QUnit
  run_calls [] state = state
  run_calls (c ∷ cs) state = run_calls cs (matcher_fn c state)
