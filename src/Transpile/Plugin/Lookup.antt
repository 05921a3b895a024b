-- ===== src/Transpile/Plugin/Lookup.antt =====
-- What a sequence of registrations leaves in the registry.

use mathlib.Core.Option.{none-ne-some, some-injective}
use sturm_cpp.Common.{
  ◌≡◌, refl, sym, ap, ◌∙◌, Bool, true, false, Option, none, some, List, [], ◌∷◌, ◌++◌, arith,
  if◌then◌else◌,
}
use sturm_cpp.Common.Text.{String, str_eq, eq_iff}
use sturm_cpp.Transpile.Qir.{QUnit}
use sturm_cpp.Transpile.Plugin.{
  UncomputeRenderFn, MatcherRegisterFn, Registry, contains, find, register_matcher, register_op,
  find_render_fn, run_all, invoke_all,
}
use sturm_cpp.Transpile.Plugin.Registration.{
  Registration, matcher, op, empty, apply, register_all, matcher_fn, ops_of, run_calls,
}

-- The first of the two that there is.
unfoldable pub or_else {ℓ} : {A : Type ℓ} → Option A → Option A → Option A
or_else none b = b
or_else (some a) b = some a

or_else-none : {A : Type 0} (a : Option A) → or_else a none ≡ a
unfolding or_else
or_else-none none = refl
or_else-none (some a) = refl

or_else_assoc : {A : Type 0} (a b c : Option A) → or_else (or_else a b) c ≡ or_else a (or_else b c)
unfolding or_else
or_else_assoc none b c = refl
or_else_assoc (some a) b c = refl

unless-some :
    {A : Type 0} (b : Bool) {x y : A}
    → (if b then none else some x) ≡ some y
    → (b ≡ false) × (x ≡ y)
unless-some true e = absurd (none-ne-some _ e)
unless-some false e = (refl, some-injective _ _ e)

unless_found-some :
    {A B : Type 0} (o : Option B) {x y : A}
    → (elim o [ some _ ↦ none | none ↦ some x ]) ≡ some y
    → (o ≡ none) × (x ≡ y)
unless_found-some (some _) e = absurd (none-ne-some _ e)
unless_found-some none e = (refl, some-injective _ _ e)

-- An entry with a new key, put in front, is found only where nothing was found before.
added :
    {A : Type 0} (es : List (String × A)) (name : String) (a : A)
    → find name es ≡ none
    → (key : String)
    → find key ((name, a) ∷ es) ≡ or_else (find key es) (if str_eq name key then some a else none)
unfolding find or_else
added es name a h key =
    elim (str_eq name key)
        as (λ b.
          str_eq name key ≡ b
          → (if b then some a else find key es)
            ≡ or_else (find key es) (if b then some a else none)) [
              | true ↦ λ e. sym (
                  ap (λ o. or_else o (some a))
                    (ap (λ k. find k es) (sym ((eq_iff name key).0 e)) ∙ h))
              | false ↦ λ e. sym (or_else-none (find key es))
            ]
      refl

module _ {Finder : Type 0} where
  run_all-append :
      (fs gs : List (MatcherRegisterFn Finder)) (state : Finder × QUnit)
      → run_all (fs ++ gs) state ≡ run_all gs (run_all fs state)
  unfolding run_all
  run_all-append [] gs state = refl
  run_all-append (f ∷ fs) gs state = run_all-append fs gs (f state)

  call_op : Registration Finder → String → Option (Option UncomputeRenderFn)
  call_op (matcher _ _) key = none
  call_op (op kind_id _ render_fn) key = if str_eq kind_id key then some render_fn else none

  apply-some :
      (c : Registration Finder) (r : Registry Finder) {r' : Registry Finder}
      → apply c r ≡ some r'
      → (r'.matchers ≡ r.matchers ++ matcher_fn c ∷ [])
        × ((key : String) → find_render_fn r' key ≡ or_else (find_render_fn r key) (call_op c key))
  unfolding register_matcher register_op find_render_fn call_op or_else find
  apply-some (matcher name fn) r e =
      let q = (unless-some (contains name r.matcher_names) e).1 in
      (
        ap (λ t. t.matchers) (sym q),
        λ key. ap (λ t. find key t.render_fns) (sym q) ∙ sym (or_else-none (find key r.render_fns)),
      )
  apply-some (op kind_id fn render_fn) r e =
      let (h, q) = unless_found-some (find kind_id r.render_fns) e in
      (
        ap (λ t. t.matchers) (sym q),
        λ key. ap (λ t. find key t.render_fns) (sym q) ∙ added r.render_fns kind_id render_fn h key,
      )

  call_ops : List (Registration Finder) → String → Option (Option UncomputeRenderFn)
  call_ops cs key = find key (ops_of cs)

  call_ops-cons :
      (c : Registration Finder) (cs : List (Registration Finder)) (key : String)
      → call_ops (c ∷ cs) key ≡ or_else (call_op c key) (call_ops cs key)
  unfolding call_ops call_op ops_of find or_else
  call_ops-cons (matcher _ _) cs key = refl
  call_ops-cons (op kind_id _ render_fn) cs key = ground arith

  register_all-nil :
      (r : Registry Finder) {r' : Registry Finder}
      → register_all [] r ≡ some r'
      → Path (Option (Registry Finder)) (some r) (some r')
  unfolding register_all
  register_all-nil r e = e

  register_all-cons :
      (c : Registration Finder) (cs : List (Registration Finder)) (r : Registry Finder)
      {r' : Registry Finder}
      → register_all (c ∷ cs) r ≡ some r'
      → (r1 : Registry Finder) × (apply c r ≡ some r1) × (register_all cs r1 ≡ some r')
  unfolding register_all
  register_all-cons c cs r {r' = r'} e =
      elim (apply c r)
          as (λ o.
            (elim o [ none ↦ none | some t ↦ register_all cs t ]) ≡ some r'
            → (r1 : Registry Finder) × (o ≡ some r1) × (register_all cs r1 ≡ some r')) [
              | none ↦ λ e. absurd (none-ne-some _ e)
              | some t ↦ λ e. (t, refl, e)
            ]
        e

  found_after :
      (cs : List (Registration Finder)) (r : Registry Finder) {r' : Registry Finder} (key : String)
      → register_all cs r ≡ some r'
      → find_render_fn r' key ≡ or_else (find_render_fn r key) (find key (ops_of cs))
  unfolding call_ops find ops_of or_else
  found_after [] r key e =
      ap (λ t. find_render_fn t key) (sym (some-injective _ _ (register_all-nil r e)))
      ∙ sym (or_else-none (find_render_fn r key))
  found_after (c ∷ cs) r key e =
      let (r1, h, g) = register_all-cons c cs r e in
      found_after cs r1 key g
      ∙ ap (λ o. or_else o (call_ops cs key)) ((apply-some c r h).1 key)
      ∙ or_else_assoc (find_render_fn r key) (call_op c key) (call_ops cs key)
      ∙ ap (or_else (find_render_fn r key)) (sym (call_ops-cons c cs key))

  run_after :
      (cs : List (Registration Finder)) (r : Registry Finder) {r' : Registry Finder}
      (state : Finder × QUnit)
      → register_all cs r ≡ some r'
      → invoke_all r' state ≡ run_calls cs (invoke_all r state)
  unfolding run_calls invoke_all run_all
  run_after [] r state e =
      ap (λ t. invoke_all t state) (sym (some-injective _ _ (register_all-nil r e)))
  run_after (c ∷ cs) r state e =
      let (r1, h, g) = register_all-cons c cs r e in
      run_after cs r1 state g
      ∙ ap (run_calls cs) (
          ap (λ fs. run_all fs state) (apply-some c r h).0
          ∙ run_all-append r.matchers (matcher_fn c ∷ []) state)

  -- When a sequence of registrations that starts from an empty registry does not abort, the
  -- registry finds under every key the render function that the sequence gives for it, none
  -- where it gives none, and it runs the matchers in the order of the registrations.
  pub register_all-finds :
      (cs : List (Registration Finder)) {r : Registry Finder}
      → register_all cs empty ≡ some r
      → ((key : String) → find_render_fn r key ≡ find key (ops_of cs))
        × ((state : Finder × QUnit) → invoke_all r state ≡ run_calls cs state)
  unfolding find_render_fn find or_else invoke_all run_all
  register_all-finds cs e = (λ key. found_after cs empty key e, λ state. run_after cs empty state e)
