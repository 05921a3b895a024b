-- ===== src/Transpile/Plugin/Accepted.antt =====
-- When a sequence of registrations aborts.

use sturm_cpp.Common.{
  ◌≡◌, refl, Bool, true, false, not, ◌&&◌, ◌||◌, Option, none, some, List, [], ◌∷◌, map, ◌++◌,
  arith, if◌then◌else◌,
}
use sturm_cpp.Common.Text.{String, str_eq, eq_iff}
use sturm_cpp.Transpile.Plugin.{
  Registry, contains, find, register_matcher, register_op, find_render_fn, kind_ids,
}
use sturm_cpp.Transpile.Plugin.Registration.{
  Registration, matcher, op, empty, register_all, matcher_names_of, kinds_of,
}

-- No text stands in the list twice.
unfoldable pub is_distinct : List String → Bool
unfolding contains
is_distinct [] = true
is_distinct (s ∷ ss) = not (contains s ss) && is_distinct ss

-- No text of the first list stands in the second.
unfoldable pub is_apart : List String → List String → Bool
unfolding contains
is_apart [] seen = true
is_apart (s ∷ ss) seen = not (contains s seen) && is_apart ss seen

is_apart-cons :
    (ss : List String) (s : String) (seen : List String)
    → is_apart ss (s ∷ seen) ≡ not (contains s ss) && is_apart ss seen
unfolding is_apart contains
is_apart-cons [] s seen = refl
is_apart-cons (t ∷ ss) s seen = ground (arith, is_apart-cons ss s seen, eq_iff s t, eq_iff t s)

is_apart-nil : (ss : List String) → is_apart ss [] ≡ true
unfolding is_apart contains
is_apart-nil [] = refl
is_apart-nil (s ∷ ss) = is_apart-nil ss

abbrev pub is_some {ℓ} : {A : Type ℓ} → Option A → Bool
is_some none = false
is_some (some _) = true

is_some-find :
    {A : Type 0} (key : String) (es : List (String × A))
    → is_some (find key es) ≡ contains key (map (λ e. e.0) es)
unfolding find contains
is_some-find key [] = refl
is_some-find key ((name, a) ∷ es) =
    elim (str_eq name key)
      as (λ b.
        is_some (if b then some a else find key es) ≡ b || contains key (map (λ e. e.0) es)) [
          | true ↦ refl
          | false ↦ is_some-find key es
        ]

module _ {Finder : Type 0} where
  is_accepted : List (Registration Finder) → Registry Finder → Bool
  is_accepted cs r =
      is_distinct (matcher_names_of cs)
      && (is_apart (matcher_names_of cs) r.matcher_names
          && (is_distinct (kinds_of cs) && is_apart (kinds_of cs) (kind_ids r)))

  is_some-register_all :
      (cs : List (Registration Finder)) (r : Registry Finder)
      → is_some (register_all cs r) ≡ is_accepted cs r
  unfolding register_all register_matcher register_op find_render_fn kind_ids matcher_names_of
      kinds_of is_accepted is_distinct is_apart
  is_some-register_all [] r = refl
  is_some-register_all (matcher name fn ∷ cs) r =
      let rest =
        is_some-register_all cs
          (record r { matcher_names = name ∷ r.matcher_names; matchers = r.matchers ++ fn ∷ [] }) in
      ground (arith, rest, is_apart-cons (matcher_names_of cs) name r.matcher_names)
  is_some-register_all (op kind_id fn render_fn ∷ cs) r =
      let rest = is_some-register_all cs (record r {
        render_fns = (kind_id, render_fn) ∷ r.render_fns;
        matchers = r.matchers ++ fn ∷ [];
      }) in
      ground (
        arith,
        rest,
        is_some-find kind_id r.render_fns,
        is_apart-cons (kinds_of cs) kind_id (kind_ids r),
      )

  -- From an empty registry a sequence of registrations ends without an abort exactly when no
  -- two of its matchers have one name and no two of its kinds have one identifier.
  pub register_all-succeeds :
      (cs : List (Registration Finder))
      → is_some (register_all cs empty)
        ≡ is_distinct (matcher_names_of cs) && is_distinct (kinds_of cs)
  unfolding is_accepted kind_ids
  register_all-succeeds cs = ground (
    arith,
    is_some-register_all cs empty,
    is_apart-nil (matcher_names_of cs),
    is_apart-nil (kinds_of cs),
  )
