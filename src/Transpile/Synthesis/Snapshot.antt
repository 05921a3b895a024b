-- ===== src/Transpile/Synthesis/Snapshot.antt =====
-- What the registry lists.
use mathlib.Core.Path.{subst}
use sturm_cpp.Common.{
  ◌++◌, is_elem, IsFresh→is_elem, suc, ℕ, ◌≡◌, ◌∙◌, refl, sym, ap, true, Option, none, some, List,
  [], ◌∷◌, map, length, All, IsFresh, IsDistinct, if◌then◌else◌, arith,
}
use sturm_cpp.Transpile.Synthesis.{
  SynthesisEntry, SynthesisRegistry, empty_registry, find, entries_for, entries, keys_in, forwards,
  size, insert_forward, fresh_entry, set_entry, set_twin, set_adjoint_name, set_twin_source,
  set_adjoint_source, set_status, clear,
}
use sturm_cpp.Transpile.Synthesis.Laws.{IsConsistent, keys, find-none}
use sturm_cpp.Transpile.Synthesis.Calls.{
  Call, call, call_all, call-IsConsistent, call_all-IsConsistent, insert, twin_is, adjoint_name_is,
  twin_source_is, adjoint_source_is, status_is, clear_all,
}

module _ (k : ℕ) (e : SynthesisEntry) (m : List (ℕ × SynthesisEntry)) where
  entries_for-skip : (ks : List ℕ) → IsFresh k ks → entries_for ks ((k, e) ∷ m) ≡ entries_for ks m
  unfolding entries_for find
  entries_for-skip [] f = refl
  entries_for-skip (key ∷ ks) f = ground (arith, entries_for-skip ks f.1)

  keys_in-skip : (ks : List ℕ) → IsFresh k ks → keys_in ks ((k, e) ∷ m) ≡ keys_in ks m
  unfolding keys_in find
  keys_in-skip [] f = refl
  keys_in-skip (key ∷ ks) f = ground (arith, keys_in-skip ks f.1)

entries_for-keys :
    (m : List (ℕ × SynthesisEntry))
    → IsDistinct (keys m)
    → entries_for (keys m) m ≡ map (λ e. e.1) m
unfolding entries_for find
entries_for-keys [] d = refl
entries_for-keys ((k, e) ∷ m) d =
    ground (arith, entries_for-skip k e m (keys m) d.0, entries_for-keys m d.1)

keys_in-keys : (m : List (ℕ × SynthesisEntry)) → IsDistinct (keys m) → keys_in (keys m) m ≡ keys m
unfolding keys_in find
keys_in-keys [] d = refl
keys_in-keys ((k, e) ∷ m) d = ground (arith, keys_in-skip k e m (keys m) d.0, keys_in-keys m d.1)

forward_fields :
    (m : List (ℕ × SynthesisEntry))
    → All (λ (e : ℕ × SynthesisEntry). e.1.forward ≡ e.0) m
    → map (λ (e : SynthesisEntry). e.forward) (map (λ e. e.1) m) ≡ keys m
forward_fields [] h = refl
forward_fields ((k, e) ∷ m) h = cc (h.0, forward_fields m h.1)

length-map : (m : List (ℕ × SynthesisEntry)) → length (map (λ e. e.1) m) ≡ length m
length-map [] = refl
length-map (x ∷ m) = ap suc (length-map m)

-- The declarations inserted by the calls, in the order of their first insertion since the last
-- `clear_all`.
unfoldable pub inserted : List Call → List ℕ → List ℕ
inserted [] seen = seen
inserted (insert none ∷ cs) seen = inserted cs seen
inserted (insert (some fwd) ∷ cs) seen =
    inserted cs (if is_elem fwd seen then seen else seen ++ fwd ∷ [])
inserted (clear_all ∷ cs) seen = inserted cs []
inserted (_ ∷ cs) seen = inserted cs seen

find-some :
    (key : ℕ) (m : List (ℕ × SynthesisEntry)) (e : SynthesisEntry)
    → find key m ≡ some e
    → is_elem key (keys m) ≡ true
unfolding find
find-some key [] e h = cc
find-some key ((k, x) ∷ m) e h = ground (arith, find-some key m e)

insert_forward-order :
    (fwd : ℕ) (r : SynthesisRegistry)
    → IsConsistent r
    → (insert_forward (some fwd) r).order
      ≡ (if is_elem fwd r.order then r.order else r.order ++ fwd ∷ [])
unfolding insert_forward
insert_forward-order fwd r c =
    elim (find fwd r.entries_of)
        as (λ o.
          find fwd r.entries_of ≡ o
          → (elim o as (λ _. SynthesisRegistry) [
            | some _ ↦ r
            | none ↦ record {
              entries_of = r.entries_of ++ (fwd, fresh_entry fwd) ∷ [];
              order = r.order ++ fwd ∷ [];
            }
          ]).order
            ≡ (if is_elem fwd r.order then r.order else r.order ++ fwd ∷ [])) [
              | some x ↦
                  λ e. rw (ap (is_elem fwd) (sym c.listed) ∙ find-some fwd r.entries_of x e) refl
              | none ↦ λ e.
                  rw
                    (ap (is_elem fwd) (sym c.listed)
                      ∙ IsFresh→is_elem fwd (keys r.entries_of) (find-none fwd r.entries_of e))
                    refl
            ]
      refl

insert_null-order : (r : SynthesisRegistry) → (insert_forward none r).order ≡ r.order
unfolding insert_forward
insert_null-order r = refl

set_entry-order :
    (fwd : Option ℕ) (f : SynthesisEntry → SynthesisEntry) (r : SynthesisRegistry)
    → (set_entry fwd f r).0.order ≡ r.order
unfolding set_entry
set_entry-order none f r = refl
set_entry-order (some fwd) f r = ground arith

call_all-order :
    (cs : List Call) (r : SynthesisRegistry)
    → IsConsistent r
    → (call_all cs r).order ≡ inserted cs r.order
unfolding call_all inserted call clear set_twin set_adjoint_name set_twin_source set_adjoint_source
    set_status
call_all-order [] r c = refl
call_all-order (insert none ∷ cs) r c =
    call_all-order cs (insert_forward none r) (call-IsConsistent (insert none) r c)
    ∙ ap (inserted cs) (insert_null-order r)
call_all-order (insert (some fwd) ∷ cs) r c =
    call_all-order cs (insert_forward (some fwd) r) (call-IsConsistent (insert (some fwd)) r c)
    ∙ ap (inserted cs) (insert_forward-order fwd r c)
call_all-order (clear_all ∷ cs) r c =
    call_all-order cs empty_registry (record { listed = refl; distinct = tt; own_key = tt })
call_all-order (twin_is fwd t ∷ cs) r c =
    call_all-order cs (set_twin fwd t r).0 (call-IsConsistent (twin_is fwd t) r c)
    ∙ ap (inserted cs) (set_entry-order fwd _ r)
call_all-order (adjoint_name_is fwd t ∷ cs) r c =
    call_all-order cs (set_adjoint_name fwd t r).0 (call-IsConsistent (adjoint_name_is fwd t) r c)
    ∙ ap (inserted cs) (set_entry-order fwd _ r)
call_all-order (twin_source_is fwd t ∷ cs) r c =
    call_all-order cs (set_twin_source fwd t r).0 (call-IsConsistent (twin_source_is fwd t) r c)
    ∙ ap (inserted cs) (set_entry-order fwd _ r)
call_all-order (adjoint_source_is fwd t ∷ cs) r c =
    call_all-order cs (set_adjoint_source fwd t r).0
      (call-IsConsistent (adjoint_source_is fwd t) r c)
    ∙ ap (inserted cs) (set_entry-order fwd _ r)
call_all-order (status_is fwd t ∷ cs) r c =
    call_all-order cs (set_status fwd t r).0 (call-IsConsistent (status_is fwd t) r c)
    ∙ ap (inserted cs) (set_entry-order fwd _ r)

-- What the registry lists agrees with what it holds.
pub record Lists (expected : List ℕ) (r : SynthesisRegistry) : Type 0 where
  pub in_order : forwards r ≡ expected
  pub each_once : IsDistinct (forwards r)
  pub own : map (λ (e : SynthesisEntry). e.forward) (entries r) ≡ forwards r
  pub complete : length (entries r) ≡ size r

IsConsistent-Lists : (r : SynthesisRegistry) → IsConsistent r → Lists r.order r
unfolding forwards entries size
IsConsistent-Lists r c =
    let f : keys_in r.order r.entries_of ≡ keys r.entries_of =
      ap (λ ks. keys_in ks r.entries_of) (sym c.listed) ∙ keys_in-keys r.entries_of c.distinct in
    let g : entries_for r.order r.entries_of ≡ map (λ e. e.1) r.entries_of =
      ap (λ ks. entries_for ks r.entries_of) (sym c.listed)
      ∙ entries_for-keys r.entries_of c.distinct in
    record {
      in_order = f ∙ c.listed;
      each_once = subst IsDistinct (sym f) c.distinct;
      own =
          ap (map (λ (e : SynthesisEntry). e.forward)) g
          ∙ forward_fields r.entries_of c.own_key
          ∙ sym f;
      complete = ap length g ∙ length-map r.entries_of;
    }

-- After any sequence of calls on an empty registry, `forwards` lists the declarations inserted
-- since the last `clear`, in the order of their first insertion, each once; `entries` lists one
-- entry for each of them, in the same order, and there are as many as the size says.
pub call_all-Lists : (cs : List Call) → Lists (inserted cs []) (call_all cs empty_registry)
call_all-Lists cs =
    let start : IsConsistent empty_registry = record {
      listed = refl;
      distinct = tt;
      own_key = tt;
    } in
    subst (λ l. Lists l (call_all cs empty_registry)) (call_all-order cs empty_registry start)
      (IsConsistent-Lists (call_all cs empty_registry)
        (call_all-IsConsistent cs empty_registry start))
