-- ===== src/Transpile/Rewrites/Cleanup/Lifo.antt =====
-- The cleanups of a block run in last-in first-out order.

use sturm_cpp.Common.{
  ℕ, ◌==◌, ◌≡◌, ◌∙◌, ap, sym, refl, Bool, true, false, ◌||◌, Option, none, some, List, [], ◌∷◌,
  ◌++◌, reverse, if◌then◌else◌, length, arith,
}
use sturm_cpp.Common.Text.{String, ◌<<◌, is_empty, append_assoc, append-nil, nil-append, eq_iff}
use sturm_cpp.Transpile.Rewrites.Lossy.{LossyEmission}
use sturm_cpp.Transpile.Rewrites.Cleanup.{
  LossyOpHit, BlockCleanup, Parents, emit_lossy_cleanup, is_suppressed, has_block, open_slot, slots,
  put_cleanup, add_text, fill, zip, group_cleanups_by_block,
}

-- The text of the slot of a block.
unfoldable pub text_of : ℕ → List BlockCleanup → Option String
text_of b [] = none
text_of b (bc ∷ out) = if bc.block == b then some bc.text else text_of b out

unfoldable pub is_at : Option ℕ → ℕ → Bool
is_at none b = false
is_at (some a) b = a == b

-- One of the hits is in the block.
unfoldable pub has_hit : ℕ → List LossyOpHit → Bool
unfolding is_at
has_hit b [] = false
has_hit b (hit ∷ hits) = is_at hit.enclosing_block b || has_hit b hits

-- The cleanups of the hits in the block, one after the other.
unfoldable pub cleanups_of : ℕ → List (LossyOpHit × LossyEmission) → String
unfolding is_at
cleanups_of b [] = ""
cleanups_of b ((hit, forward) ∷ rest) =
    let texts = cleanups_of b rest in
    if is_at hit.enclosing_block b then emit_lossy_cleanup hit forward << texts else texts

abbrev append_to : String → Option String → Option String
append_to t none = none
append_to t (some s) = some (s << t)

if-append : (c : Bool) (s t : String) → ((if c then s else "") << t) ≡ (if c then s << t else t)
if-append true s t = refl
if-append false s t = nil-append t

text_of-if :
    (b : ℕ) (c : Bool) (x y : List BlockCleanup)
    → text_of b (if c then x else y) ≡ (if c then text_of b x else text_of b y)
text_of-if b true x y = refl
text_of-if b false x y = refl

text_of-add_text :
    (b c : ℕ) (t : String) (out : List BlockCleanup)
    → text_of b (add_text c t out) ≡ (if c == b then append_to t (text_of b out) else text_of b out)
unfolding text_of add_text
text_of-add_text b c t [] = ground arith
text_of-add_text b c t (bc ∷ out) =
    text_of-if b (bc.block == c) (record bc { text = bc.text << t } ∷ out) (bc ∷ add_text c t out)
    ∙ ground (arith, text_of-add_text b c t out)

append_to-nil : (o : Option String) → append_to "" o ≡ o
append_to-nil none = refl
append_to-nil (some s) = ap {B = Option String} some (append-nil s)

append_to-append :
    (s t : String) (o : Option String) → append_to t (append_to s o) ≡ append_to (s << t) o
append_to-append s t none = refl
append_to-append s t (some r) = ap {B = Option String} some (append_assoc r s t)

-- What one hit adds.
text_of-put_cleanup :
    (ctx : Option Parents) (b : ℕ) (o : Option ℕ) (t : String) (out : List BlockCleanup)
    → is_suppressed ctx b ≡ false
    → text_of b (put_cleanup ctx o t out) ≡ append_to (if is_at o b then t else "") (text_of b out)
unfolding put_cleanup is_at
text_of-put_cleanup ctx b none t out h = sym (append_to-nil (text_of b out))
text_of-put_cleanup ctx b (some c) t out h =
    text_of-if b (is_suppressed ctx c) out (if is_empty t then out else add_text c t out)
    ∙ ap (λ o. if is_suppressed ctx c then text_of b out else o)
        (text_of-if b (is_empty t) out (add_text c t out))
    ∙ ground (
      arith,
      h,
      text_of-add_text b c t out,
      append_to-nil (text_of b out),
      eq_iff t "",
      ap (is_suppressed ctx) {x = c} {y = b},
      ap (λ s. append_to s (text_of b out)) {x = t} {y = ""},
    )

text_of-fill :
    (ctx : Option Parents) (b : ℕ) (hits : List (LossyOpHit × LossyEmission))
    (out : List BlockCleanup)
    → is_suppressed ctx b ≡ false
    → text_of b (fill ctx hits out) ≡ append_to (cleanups_of b hits) (text_of b out)
unfolding fill cleanups_of
text_of-fill ctx b [] out h = sym (append_to-nil (text_of b out))
text_of-fill ctx b ((hit, forward) ∷ rest) out h =
    text_of-fill ctx b rest
      (put_cleanup ctx hit.enclosing_block (emit_lossy_cleanup hit forward) out) h
    ∙ ap (append_to (cleanups_of b rest))
        (text_of-put_cleanup ctx b hit.enclosing_block (emit_lossy_cleanup hit forward) out h)
    ∙ append_to-append (if is_at hit.enclosing_block b then emit_lossy_cleanup hit forward else "")
        (cleanups_of b rest) (text_of b out)
    ∙ ap (λ s. append_to s (text_of b out))
        (if-append (is_at hit.enclosing_block b) (emit_lossy_cleanup hit forward)
          (cleanups_of b rest))

slot_of : Bool → Option String
slot_of true = some ""
slot_of false = none

or_slot : Option String → Bool → Option String
or_slot none c = slot_of c
or_slot (some s) c = some s

slot_of-if : (c : Bool) → (if c then some "" else none) ≡ or_slot none c
unfolding or_slot slot_of
slot_of-if true = refl
slot_of-if false = refl

or_slot-or_slot : (o : Option String) (c d : Bool) → or_slot (or_slot o c) d ≡ or_slot o (c || d)
unfolding or_slot slot_of
or_slot-or_slot none true d = refl
or_slot-or_slot none false d = refl
or_slot-or_slot (some s) c d = refl

or_slot-false : (o : Option String) → or_slot o false ≡ o
unfolding or_slot slot_of
or_slot-false none = refl
or_slot-false (some s) = refl

opened : (c : Bool) (t : String) → append_to t (or_slot none c) ≡ (if c then some t else none)
unfolding or_slot slot_of
opened true t = ap {B = Option String} some (nil-append t)
opened false t = refl

or_slot-if :
    (d : Bool) (t : String) (o : Option String) (c : Bool)
    → or_slot (if d then some t else o) c ≡ (if d then some t else or_slot o c)
unfolding or_slot
or_slot-if true t o c = refl
or_slot-if false t o c = refl

has_block-text_of :
    (b : ℕ) (out : List BlockCleanup) (c : Bool)
    → has_block b out ≡ true
    → or_slot (text_of b out) c ≡ text_of b out
unfolding has_block text_of
has_block-text_of b [] c h = ground (arith, h)
has_block-text_of b (bc ∷ out) c h =
    or_slot-if (bc.block == b) bc.text (text_of b out) c
    ∙ ground (arith, h, has_block-text_of b out c)

text_of-append :
    (b c : ℕ) (out : List BlockCleanup)
    → text_of b (out ++ record { block = c; text = "" } ∷ []) ≡ or_slot (text_of b out) (c == b)
unfolding text_of
text_of-append b c [] = slot_of-if (c == b)
text_of-append b c (bc ∷ out) =
    ap (λ o. if bc.block == b then some bc.text else o) (text_of-append b c out)
    ∙ sym (or_slot-if (bc.block == b) bc.text (text_of b out) (c == b))

text_of-open_slot :
    (b : ℕ) (o : Option ℕ) (out : List BlockCleanup)
    → text_of b (open_slot o out) ≡ or_slot (text_of b out) (is_at o b)
unfolding open_slot is_at
text_of-open_slot b none out = sym (or_slot-false (text_of b out))
text_of-open_slot b (some c) out =
    text_of-if b (has_block c out) out (out ++ record { block = c; text = "" } ∷ [])
    ∙ ground (
      arith,
      text_of-append b c out,
      has_block-text_of b out (c == b),
      or_slot-false (text_of b out),
      ap (λ k. has_block k out) {x = c} {y = b},
    )

text_of-slots :
    (b : ℕ) (hits : List LossyOpHit) (out : List BlockCleanup)
    → text_of b (slots hits out) ≡ or_slot (text_of b out) (has_hit b hits)
unfolding slots has_hit
text_of-slots b [] out = sym (or_slot-false (text_of b out))
text_of-slots b (hit ∷ hits) out =
    text_of-slots b hits (open_slot hit.enclosing_block out)
    ∙ ap (λ o. or_slot o (has_hit b hits)) (text_of-open_slot b hit.enclosing_block out)
    ∙ or_slot-or_slot (text_of b out) (is_at hit.enclosing_block b) (has_hit b hits)

-- A block that is suppressed gets no text.
text_of-put_suppressed :
    (ctx : Option Parents) (b : ℕ) (o : Option ℕ) (t : String) (out : List BlockCleanup)
    → is_suppressed ctx b ≡ true
    → text_of b (put_cleanup ctx o t out) ≡ text_of b out
unfolding put_cleanup
text_of-put_suppressed ctx b none t out h = refl
text_of-put_suppressed ctx b (some c) t out h =
    text_of-if b (is_suppressed ctx c) out (if is_empty t then out else add_text c t out)
    ∙ ap (λ o. if is_suppressed ctx c then text_of b out else o)
        (text_of-if b (is_empty t) out (add_text c t out))
    ∙ ground (arith, h, text_of-add_text b c t out, ap (is_suppressed ctx) {x = c} {y = b})

text_of-fill_suppressed :
    (ctx : Option Parents) (b : ℕ) (hits : List (LossyOpHit × LossyEmission))
    (out : List BlockCleanup)
    → is_suppressed ctx b ≡ true
    → text_of b (fill ctx hits out) ≡ text_of b out
unfolding fill
text_of-fill_suppressed ctx b [] out h = refl
text_of-fill_suppressed ctx b ((hit, forward) ∷ rest) out h =
    text_of-fill_suppressed ctx b rest
      (put_cleanup ctx hit.enclosing_block (emit_lossy_cleanup hit forward) out) h
    ∙ text_of-put_suppressed ctx b hit.enclosing_block (emit_lossy_cleanup hit forward) out h

-- The text that a block should have.
unfoldable pub lifo_text : Option Parents → ℕ → List (LossyOpHit × LossyEmission) → String
unfolding cleanups_of
lifo_text ctx b pairs = if is_suppressed ctx b then "" else cleanups_of b (reverse pairs)

filled :
    (ctx : Option Parents) (b : ℕ) (pairs : List (LossyOpHit × LossyEmission))
    (hits : List LossyOpHit)
    → text_of b (fill ctx (reverse pairs) (slots hits []))
      ≡ (if has_hit b hits then some (lifo_text ctx b pairs) else none)
unfolding lifo_text text_of
filled ctx b pairs hits =
    elim (is_suppressed ctx b)
        as (λ c.
          is_suppressed ctx b ≡ c
          → text_of b (fill ctx (reverse pairs) (slots hits [])) ≡ (
              if has_hit b hits
              then some (if c then "" else cleanups_of b (reverse pairs))
              else none)) [
                | true ↦ λ h.
                    text_of-fill_suppressed ctx b (reverse pairs) (slots hits []) h
                    ∙ text_of-slots b hits []
                    ∙ sym (slot_of-if (has_hit b hits))
                | false ↦ λ h.
                    text_of-fill ctx b (reverse pairs) (slots hits []) h
                    ∙ ap (append_to (cleanups_of b (reverse pairs))) (text_of-slots b hits [])
                    ∙ opened (has_hit b hits) (cleanups_of b (reverse pairs))
              ]
      refl

-- With as many emissions as hits, the result has a slot for a block exactly when one of the hits
-- is in it, also when the block is suppressed. The text of the slot is empty for a block that is
-- suppressed, and that of the cleanups of its hits, the last hit first, for any other.
pub text_of-group_cleanups_by_block :
    (hits : List LossyOpHit) (forwards : List LossyEmission) (ctx : Option Parents) (b : ℕ)
    → length hits ≡ length forwards
    → text_of b (group_cleanups_by_block hits forwards ctx)
      ≡ (if has_hit b hits then some (lifo_text ctx b (zip hits forwards)) else none)
unfolding group_cleanups_by_block
text_of-group_cleanups_by_block hits forwards ctx b e =
    let pairs : List (LossyOpHit × LossyEmission) = reverse (zip hits forwards) in
    let same : (length hits == length forwards) ≡ true = ground (arith, e) in
    ap (λ c. text_of b (if c then fill ctx pairs (slots hits []) else [])) same
    ∙ filled ctx b (zip hits forwards) hits
