-- ===== src/Transpile/Synthesis/Calls.antt =====
-- The registry under any sequence of calls.
use mathlib.Core.Path.{subst}
use sturm_cpp.Common.{
  ℕ, ◌≡◌, ◌∙◌, refl, sym, ap, Bool, true, false, Option, none, some, List, [], ◌∷◌, ◌++◌,
  All-append, IsDistinct,
}
use sturm_cpp.Common.Text.{String}
use sturm_cpp.Transpile.Synthesis.{
  SynthesisStatus, SynthesisEntry, SynthesisRegistry, find, modify, fresh_entry, insert_forward,
  set_entry, set_twin, set_adjoint_name, set_twin_source, set_adjoint_source, set_status, clear,
}
use sturm_cpp.Transpile.Synthesis.Laws.{
  IsConsistent, keys, keys-append, keys-modify, find-none, own_key-modify, IsDistinct-append,
}

-- A call that changes the registry.
pub data Call : Type 0 where
  insert : Option ℕ → Call
  twin_is : Option ℕ → Option ℕ → Call
  adjoint_name_is twin_source_is adjoint_source_is : Option ℕ → String → Call
  status_is : Option ℕ → SynthesisStatus → Call
  clear_all : Call

unfoldable pub call : Call → SynthesisRegistry → SynthesisRegistry
call (insert fwd) r = insert_forward fwd r
call (twin_is fwd t) r = (set_twin fwd t r).0
call (adjoint_name_is fwd t) r = (set_adjoint_name fwd t r).0
call (twin_source_is fwd t) r = (set_twin_source fwd t r).0
call (adjoint_source_is fwd t) r = (set_adjoint_source fwd t r).0
call (status_is fwd t) r = (set_status fwd t r).0
call clear_all r = clear r

unfoldable pub call_all : List Call → SynthesisRegistry → SynthesisRegistry
unfolding call
call_all [] r = r
call_all (c ∷ cs) r = call_all cs (call c r)

insert_missing :
    (fwd : ℕ) (r : SynthesisRegistry)
    → find fwd r.entries_of ≡ none
    → IsConsistent r
    → IsConsistent (record {
      entries_of = r.entries_of ++ (fwd, fresh_entry fwd) ∷ [];
      order = r.order ++ fwd ∷ [];
    })
insert_missing fwd r n c = record {
  listed =
      keys-append r.entries_of ((fwd, fresh_entry fwd) ∷ []) ∙ ap (λ l. l ++ fwd ∷ []) c.listed;
  distinct =
      subst IsDistinct (sym (keys-append r.entries_of ((fwd, fresh_entry fwd) ∷ [])))
        (IsDistinct-append (keys r.entries_of) fwd c.distinct (find-none fwd r.entries_of n));
  own_key = All-append (λ e. e.1.forward ≡ e.0) r.entries_of _ c.own_key (refl, tt);
}

pub insert_forward-IsConsistent :
    (fwd : Option ℕ) (r : SynthesisRegistry) → IsConsistent r → IsConsistent (insert_forward fwd r)
unfolding insert_forward
insert_forward-IsConsistent none r c = c
insert_forward-IsConsistent (some fwd) r c =
    elim (find fwd r.entries_of)
        as (λ o.
          find fwd r.entries_of ≡ o
          → IsConsistent (elim o as (λ _. SynthesisRegistry) [
            | some _ ↦ r
            | none ↦ record {
              entries_of = r.entries_of ++ (fwd, fresh_entry fwd) ∷ [];
              order = r.order ++ fwd ∷ [];
            }
          ])) [ some _ ↦ λ e. c | none ↦ λ e. insert_missing fwd r e c ]
      refl

modify-IsConsistent :
    (fwd : ℕ) (f : SynthesisEntry → SynthesisEntry) (r : SynthesisRegistry)
    → ((e : SynthesisEntry) → (f e).forward ≡ e.forward)
    → IsConsistent r
    → IsConsistent (record r { entries_of = modify fwd f r.entries_of })
modify-IsConsistent fwd f r same c = record {
  listed = keys-modify fwd f r.entries_of ∙ c.listed;
  distinct = subst IsDistinct (sym (keys-modify fwd f r.entries_of)) c.distinct;
  own_key = own_key-modify fwd f r.entries_of same c.own_key;
}

set_entry-IsConsistent :
    (fwd : Option ℕ) (f : SynthesisEntry → SynthesisEntry) (r : SynthesisRegistry)
    → ((e : SynthesisEntry) → (f e).forward ≡ e.forward)
    → IsConsistent r
    → IsConsistent (set_entry fwd f r).0
unfolding set_entry
set_entry-IsConsistent none f r same c = c
set_entry-IsConsistent (some fwd) f r same c =
    elim (find fwd r.entries_of)
      as (λ o.
        IsConsistent
          (elim o as (λ _. SynthesisRegistry × Bool) [
            | none ↦ (r, false)
            | some _ ↦ (record r { entries_of = modify fwd f r.entries_of }, true)
          ]).0) [ none ↦ c | some _ ↦ modify-IsConsistent fwd f r same c ]

pub call-IsConsistent :
    (c : Call) (r : SynthesisRegistry) → IsConsistent r → IsConsistent (call c r)
unfolding call clear set_twin set_adjoint_name set_twin_source set_adjoint_source set_status
call-IsConsistent (insert fwd) r h = insert_forward-IsConsistent fwd r h
call-IsConsistent (twin_is fwd t) r h = set_entry-IsConsistent fwd _ r (λ e. refl) h
call-IsConsistent (adjoint_name_is fwd t) r h = set_entry-IsConsistent fwd _ r (λ e. refl) h
call-IsConsistent (twin_source_is fwd t) r h = set_entry-IsConsistent fwd _ r (λ e. refl) h
call-IsConsistent (adjoint_source_is fwd t) r h = set_entry-IsConsistent fwd _ r (λ e. refl) h
call-IsConsistent (status_is fwd t) r h = set_entry-IsConsistent fwd _ r (λ e. refl) h
call-IsConsistent clear_all r h = record { listed = refl; distinct = tt; own_key = tt }

pub call_all-IsConsistent :
    (cs : List Call) (r : SynthesisRegistry) → IsConsistent r → IsConsistent (call_all cs r)
unfolding call_all
call_all-IsConsistent [] r h = h
call_all-IsConsistent (c ∷ cs) r h = call_all-IsConsistent cs (call c r) (call-IsConsistent c r h)
