-- ===== src/Transpile/Synthesize/Placed.antt =====
-- The text that the insertions of the uncompute pass put at a closing brace.
use mathlib.Core.List.{append-nil as list-append-nil}
use sturm_cpp.Common.{
  ◌≡◌, ◌≢◌, ◌∙◌, refl, ap, false, Option, none, List, [], ◌∷◌, ◌++◌, reverse, map, All, All-reverse,
  IsFresh, arith,
}
use sturm_cpp.Common.Text.{◌<<◌, eq_iff, append_assoc, append-nil, nil-append}
use sturm_cpp.Transpile.Qir.{SourceLocation, QOperation, QScope, UncomputeInsertion, QUnit}
use sturm_cpp.Transpile.Plugin.{FindRenderFn}
use sturm_cpp.Transpile.Render.{render_uncompute}
use sturm_cpp.Transpile.Emitter.Order.{text_at}
use sturm_cpp.Transpile.Meaning.Lifo.{render_all}
use sturm_cpp.Transpile.Synthesize.{
  has_override, anchor, is_emitted, op_insertion, walk_ops, restore_at, scope_insertions,
  all_scopes, synthesize, stable_sort, drain,
}
use sturm_cpp.Transpile.Synthesize.Sorting.{All-stable_sort}

pub text_at-append :
    (loc : SourceLocation) (xs ys : List UncomputeInsertion)
    → text_at loc (xs ++ ys) ≡ text_at loc xs << text_at loc ys
unfolding text_at
text_at-append loc [] ys = rw nil-append
text_at-append loc (x ∷ xs) ys =
    ground (arith, text_at-append loc xs ys, append_assoc x.code (text_at loc xs) (text_at loc ys))

abbrev pub HasNoOverride : QOperation → Type 0
HasNoOverride op = has_override op ≡ false

anchor_close :
    (close : SourceLocation) (op : QOperation) → HasNoOverride op → anchor close op ≡ close
unfolding has_override anchor
anchor_close close op h = ground arith

module _ (registry : Option FindRenderFn) where
  -- Without a source manager, the operations of a scope render at its closing brace one after
  -- the other.
  text_at-walk_ops :
      (close : SourceLocation) (ops : List QOperation)
      → All HasNoOverride ops
      → text_at close (walk_ops none registry close ops) ≡ render_all registry ops
  unfolding text_at walk_ops render_all is_emitted op_insertion
  text_at-walk_ops close [] h = refl
  text_at-walk_ops close (op ∷ ops) h = ground (
    arith,
    anchor_close close op h.0,
    eq_iff (render_uncompute op registry) "",
    nil-append (render_uncompute op registry),
    nil-append (render_all registry ops),
    text_at-walk_ops close ops h.1,
  )

  text_at-walk_ops_other :
      (loc close : SourceLocation) (ops : List QOperation)
      → loc ≢ close
      → All HasNoOverride ops
      → text_at loc (walk_ops none registry close ops) ≡ ""
  unfolding text_at walk_ops is_emitted op_insertion
  text_at-walk_ops_other loc close [] n h = refl
  text_at-walk_ops_other loc close (op ∷ ops) n h =
      ground (arith, anchor_close close op h.0, text_at-walk_ops_other loc close ops n h.1)

  restore_none : (close : SourceLocation) → restore_at none registry close ≡ []
  unfolding restore_at
  restore_none close = refl

  scope_insertions-none :
      (scope : QScope)
      → scope_insertions none registry scope
        ≡ walk_ops none registry scope.close_brace (reverse (stable_sort scope.ops))
  unfolding scope_insertions
  scope_insertions-none scope = ground (
    arith,
    restore_none scope.close_brace,
    list-append-nil (walk_ops none registry scope.close_brace (reverse (stable_sort scope.ops))),
  )

  text_at_scope :
      (scope : QScope)
      → All HasNoOverride scope.ops
      → text_at scope.close_brace (scope_insertions none registry scope)
        ≡ render_all registry (reverse (stable_sort scope.ops))
  text_at_scope scope h = rw (scope_insertions-none scope) (
      text_at-walk_ops scope.close_brace (reverse (stable_sort scope.ops)) (
        All-reverse HasNoOverride (stable_sort scope.ops)
          (All-stable_sort HasNoOverride scope.ops h)))

  text_at_other :
      (loc : SourceLocation) (scope : QScope)
      → loc ≢ scope.close_brace
      → All HasNoOverride scope.ops
      → text_at loc (scope_insertions none registry scope) ≡ ""
  text_at_other loc scope n h = rw (scope_insertions-none scope) (
      text_at-walk_ops_other loc scope.close_brace (reverse (stable_sort scope.ops)) n (
        All-reverse HasNoOverride (stable_sort scope.ops)
          (All-stable_sort HasNoOverride scope.ops h)))

  text_at_others :
      (loc : SourceLocation) (scopes : List QScope)
      → IsFresh loc (map (λ s. s.close_brace) scopes)
      → All (λ s. All HasNoOverride s.ops) scopes
      → text_at loc (all_scopes none registry scopes) ≡ ""
  unfolding all_scopes
  text_at_others loc [] n h = unfold text_at in refl
  text_at_others loc (scope ∷ scopes) n h =
      rw
        (
          text_at-append loc (scope_insertions none registry scope)
              (all_scopes none registry scopes),
          text_at_other loc scope n.0 h.0,
          text_at_others loc scopes n.1 h.1,
        )
        refl

  text_at_among :
      (scope : QScope) (before after : List QScope)
      → IsFresh scope.close_brace (map (λ s. s.close_brace) before)
      → IsFresh scope.close_brace (map (λ s. s.close_brace) after)
      → All (λ s. All HasNoOverride s.ops) before
      → All HasNoOverride scope.ops
      → All (λ s. All HasNoOverride s.ops) after
      → text_at scope.close_brace (all_scopes none registry (before ++ scope ∷ after))
        ≡ render_all registry (reverse (stable_sort scope.ops))
  unfolding all_scopes
  text_at_among scope [] after f g hb h ha =
      rw
        (
          text_at-append scope.close_brace (scope_insertions none registry scope)
              (all_scopes none registry after),
          text_at_others scope.close_brace after g ha,
          append-nil,
        )
        (text_at_scope scope h)
  text_at_among scope (b ∷ before) after f g hb h ha =
      rw
        (
          text_at-append scope.close_brace (scope_insertions none registry b)
              (all_scopes none registry (before ++ scope ∷ after)),
          text_at_other scope.close_brace b f.0 hb.0,
          nil-append,
        )
        (text_at_among scope before after f.1 g hb.1 h ha)

text_at_elsewhere :
    (loc : SourceLocation) (is : List UncomputeInsertion)
    → All (λ i. loc ≢ i.insert_before) is
    → text_at loc is ≡ ""
unfolding text_at
text_at_elsewhere loc [] h = refl
text_at_elsewhere loc (i ∷ is) h = ground (arith, text_at_elsewhere loc is h.1)

-- The operations of a unit have no anchors of their own, and the closing brace of the scope is
-- that of no other scope and the anchor of no insertion that a matcher prepared.
pub record Isolates (before : List QScope) (scope : QScope) (after : List QScope)
    (raw : List UncomputeInsertion) : Type 0 where
  pub fresh_before : IsFresh scope.close_brace (map (λ s. s.close_brace) before)
  pub fresh_after : IsFresh scope.close_brace (map (λ s. s.close_brace) after)
  pub plain_before : All (λ s. All HasNoOverride s.ops) before
  pub plain_scope : All HasNoOverride scope.ops
  pub plain_after : All (λ s. All HasNoOverride s.ops) after
  pub raw_elsewhere : All (λ i. scope.close_brace ≢ i.insert_before) raw

pub text_at-synthesize :
    (registry : Option FindRenderFn) (unit : QUnit) (before : List QScope) (scope : QScope)
    (after : List QScope)
    → unit.scopes ≡ before ++ scope ∷ after
    → Isolates before scope after unit.raw_insertions
    → text_at scope.close_brace (synthesize none registry unit []).insertions
      ≡ render_all registry (reverse (stable_sort scope.ops))
unfolding synthesize drain
text_at-synthesize registry unit before scope after e h =
    text_at-append scope.close_brace (all_scopes none registry unit.scopes)
      (unit.raw_insertions ++ [])
    ∙ ap
        (λ l.
          text_at scope.close_brace (all_scopes none registry unit.scopes)
          << text_at scope.close_brace l)
        (list-append-nil unit.raw_insertions)
    ∙ ap (λ t. text_at scope.close_brace (all_scopes none registry unit.scopes) << t)
        (text_at_elsewhere scope.close_brace unit.raw_insertions h.raw_elsewhere)
    ∙ append-nil (text_at scope.close_brace (all_scopes none registry unit.scopes))
    ∙ ap (λ l. text_at scope.close_brace (all_scopes none registry l)) e
    ∙ text_at_among registry scope before after h.fresh_before h.fresh_after h.plain_before
        h.plain_scope h.plain_after
