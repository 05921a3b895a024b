-- ===== src/Transpile/Tests/Plugins.antt =====
-- Two plugins at the registry.

use sturm_cpp.Common.{ℕ, ◌+◌, ◌≡◌, refl, false, ◌&&◌, none, some, List, [], ◌∷◌}
use sturm_cpp.Common.Text.{String}
use sturm_cpp.Transpile.Qir.{QUnit}
use sturm_cpp.Transpile.Plugin.{UncomputeRenderFn, Registry, find, find_render_fn, invoke_all}
use sturm_cpp.Transpile.Plugin.Registration.{
  Registration, matcher, op, empty, register_all, matcher_names_of, ops_of, kinds_of, run_calls,
}
use sturm_cpp.Transpile.Plugin.Accepted.{is_some, is_distinct, register_all-succeeds}
use sturm_cpp.Transpile.Plugin.Lookup.{register_all-finds}

-- The finder counts the matchers that were installed.
abbrev install : ℕ → ℕ × QUnit → ℕ × QUnit
install k (n, u) = (n + k, u)

abbrev swap_op : Registration ℕ
swap_op = op "swap" (install 1) (some (λ q. "swap_back();"))

abbrev phase_op : Registration ℕ
phase_op = op "phase" (install 2) none

abbrev plugins : List (Registration ℕ)
plugins = swap_op ∷ matcher "swap" (install 4) ∷ phase_op ∷ []

abbrev loaded : Registry ℕ
loaded = record {
  matcher_names = "swap" ∷ [];
  render_fns = ("phase", none) ∷ ("swap", some (λ q. "swap_back();")) ∷ [];
  matchers = install 1 ∷ install 4 ∷ install 2 ∷ [];
}

twice-aborts : is_some (register_all (swap_op ∷ phase_op ∷ swap_op ∷ []) empty) ≡ false
unfolding register_all sturm_cpp.Transpile.Plugin.register_op
twice-aborts = refl

register_all-succeeds_example :
    is_some (register_all plugins empty)
    ≡ is_distinct (matcher_names_of plugins) && is_distinct (kinds_of plugins)
register_all-succeeds_example = register_all-succeeds plugins

loaded-plugins : register_all plugins empty ≡ some loaded
unfolding register_all sturm_cpp.Transpile.Plugin.register_op
    sturm_cpp.Transpile.Plugin.register_matcher
loaded-plugins = refl

register_all-finds_example :
    ((key : String) → find_render_fn loaded key ≡ find key (ops_of plugins))
    × ((state : ℕ × QUnit) → invoke_all loaded state ≡ run_calls plugins state)
register_all-finds_example = register_all-finds plugins loaded-plugins
