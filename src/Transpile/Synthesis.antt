-- ===== src/Transpile/Synthesis.antt =====
-- The registry of adjoint syntheses, transpiler/src/synthesis_registry.cpp. A declaration is a
-- number and a null pointer is `none`; the map is an association list, which keeps new keys last.
pub mod Laws
pub mod Calls
pub mod Snapshot
use sturm_cpp.Common.{
  ℕ, ◌==◌, Bool, true, false, Option, none, some, List, [], ◌∷◌, ◌++◌, length, if◌then◌else◌,
}
use sturm_cpp.Common.Text.{String}

pub data SynthesisStatus : Type 0 where
  pending normalized emitted failed : SynthesisStatus

unfoldable pub status_text : SynthesisStatus → String
status_text pending = "pending"
status_text normalized = "normalized"
status_text emitted = "emitted"
status_text failed = "failed"

pub record SynthesisEntry : Type 0 where
  pub forward : ℕ
  pub twin : Option ℕ
  pub adjoint_name : String
  pub twin_source : String
  pub adjoint_source : String
  pub status : SynthesisStatus

pub record SynthesisRegistry : Type 0 where
  pub entries_of : List (ℕ × SynthesisEntry)
  pub order : List ℕ

abbrev pub empty_registry : SynthesisRegistry
empty_registry = record { entries_of = []; order = [] }

unfoldable pub find : ℕ → List (ℕ × SynthesisEntry) → Option SynthesisEntry
find key [] = none
find key ((k, e) ∷ rest) = if k == key then some e else find key rest

unfoldable pub modify :
    ℕ → (SynthesisEntry → SynthesisEntry) → List (ℕ × SynthesisEntry) → List (ℕ × SynthesisEntry)
modify key f [] = []
modify key f ((k, e) ∷ rest) = if k == key then (k, f e) ∷ rest else (k, e) ∷ modify key f rest

abbrev pub fresh_entry : ℕ → SynthesisEntry
fresh_entry fwd = record {
  forward = fwd;
  twin = none;
  adjoint_name = "";
  twin_source = "";
  adjoint_source = "";
  status = pending;
}

-- The entry that the caller gets is `lookup` in the new registry.
unfoldable pub insert_forward : Option ℕ → SynthesisRegistry → SynthesisRegistry
unfolding find
insert_forward none r = r
insert_forward (some fwd) r = elim (find fwd r.entries_of) [
  | some _ ↦ r
  | none ↦ record {
    entries_of = r.entries_of ++ (fwd, fresh_entry fwd) ∷ [];
    order = r.order ++ fwd ∷ [];
  }
]

unfoldable pub lookup : Option ℕ → SynthesisRegistry → Option SynthesisEntry
unfolding find
lookup none r = none
lookup (some fwd) r = find fwd r.entries_of

unfoldable pub contains : Option ℕ → SynthesisRegistry → Bool
unfolding lookup
contains fwd r = elim (lookup fwd r) [ none ↦ false | some _ ↦ true ]

-- The setters, by what they do to an entry.
unfoldable pub set_entry :
    Option ℕ → (SynthesisEntry → SynthesisEntry) → SynthesisRegistry → SynthesisRegistry × Bool
unfolding find modify
set_entry none f r = (r, false)
set_entry (some fwd) f r = elim (find fwd r.entries_of) [
  | none ↦ (r, false)
  | some _ ↦ (record r { entries_of = modify fwd f r.entries_of }, true)
]

unfoldable pub set_twin : Option ℕ → Option ℕ → SynthesisRegistry → SynthesisRegistry × Bool
set_twin fwd twin r = set_entry fwd (λ e. record e { twin = twin }) r

unfoldable pub set_adjoint_name : Option ℕ → String → SynthesisRegistry → SynthesisRegistry × Bool
set_adjoint_name fwd name r = set_entry fwd (λ e. record e { adjoint_name = name }) r

unfoldable pub set_twin_source : Option ℕ → String → SynthesisRegistry → SynthesisRegistry × Bool
set_twin_source fwd source r = set_entry fwd (λ e. record e { twin_source = source }) r

unfoldable pub set_adjoint_source : Option ℕ → String → SynthesisRegistry → SynthesisRegistry × Bool
set_adjoint_source fwd source r = set_entry fwd (λ e. record e { adjoint_source = source }) r

unfoldable pub set_status :
    Option ℕ → SynthesisStatus → SynthesisRegistry → SynthesisRegistry × Bool
set_status fwd status r = set_entry fwd (λ e. record e { status = status }) r

-- The entries that are found for a list of keys.
unfoldable pub entries_for : List ℕ → List (ℕ × SynthesisEntry) → List SynthesisEntry
entries_for [] m = []
entries_for (key ∷ keys) m = elim (find key m) [
  | none ↦ entries_for keys m
  | some e ↦ e ∷ entries_for keys m
]

unfoldable pub entries : SynthesisRegistry → List SynthesisEntry
unfolding entries_for
entries r = entries_for r.order r.entries_of

unfoldable pub keys_in : List ℕ → List (ℕ × SynthesisEntry) → List ℕ
keys_in [] m = []
keys_in (key ∷ keys) m =
    let rest = keys_in keys m in elim (find key m) [ none ↦ rest | some _ ↦ key ∷ rest ]

unfoldable pub forwards : SynthesisRegistry → List ℕ
unfolding keys_in
forwards r = keys_in r.order r.entries_of

unfoldable pub size : SynthesisRegistry → ℕ
size r = length r.entries_of

unfoldable pub clear : SynthesisRegistry → SynthesisRegistry
clear r = empty_registry
