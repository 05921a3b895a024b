-- ===== src/Transpile/Synthesis/Laws.antt =====
-- What a registry keeps through any sequence of calls.
use sturm_cpp.Common.{
  ℕ, ◌==◌, ◌≡◌, ◌≢◌, refl, sym, ap, none, List, [], ◌∷◌, ◌++◌, map, All, IsFresh, IsDistinct,
  if◌then◌else◌, arith,
}
use mathlib.Core.Option
use sturm_cpp.Transpile.Synthesis.{SynthesisEntry, SynthesisRegistry, find, modify}

abbrev pub keys : List (ℕ × SynthesisEntry) → List ℕ
keys m = map (λ e. e.0) m

-- The keys of the map are the listed declarations, each once, and each entry has its own key.
pub record IsConsistent (r : SynthesisRegistry) : Type 0 where
  pub listed : keys r.entries_of ≡ r.order
  pub distinct : IsDistinct (keys r.entries_of)
  pub own_key : All (λ (e : ℕ × SynthesisEntry). e.1.forward ≡ e.0) r.entries_of

pub find-none : (key : ℕ) (m : List (ℕ × SynthesisEntry)) → find key m ≡ none → IsFresh key (keys m)
unfolding find
find-none key [] h = tt
find-none key ((k, e) ∷ m) h = (ground arith, find-none key m (ground arith))

pub keys-append : (m n : List (ℕ × SynthesisEntry)) → keys (m ++ n) ≡ keys m ++ keys n
keys-append [] n = refl
keys-append (x ∷ m) n = ap (λ l. x.0 ∷ l) (keys-append m n)

IsFresh-append : (q : ℕ) (xs : List ℕ) (y : ℕ) → IsFresh q xs → q ≢ y → IsFresh q (xs ++ y ∷ [])
IsFresh-append q [] y h n = (n, tt)
IsFresh-append q (x ∷ xs) y h n = (h.0, IsFresh-append q xs y h.1 n)

pub IsDistinct-append :
    (xs : List ℕ) (y : ℕ) → IsDistinct xs → IsFresh y xs → IsDistinct (xs ++ y ∷ [])
IsDistinct-append [] y d f = (tt, tt)
IsDistinct-append (x ∷ xs) y d f =
    (IsFresh-append x xs y d.0 (λ e. f.0 (sym e)), IsDistinct-append xs y d.1 f.1)

module _ (key : ℕ) (f : SynthesisEntry → SynthesisEntry) where
  pub keys-modify : (m : List (ℕ × SynthesisEntry)) → keys (modify key f m) ≡ keys m
  unfolding modify
  keys-modify [] = refl
  keys-modify ((k, e) ∷ m) = ground (arith, keys-modify m)

  -- A lookup after a change of one entry.
  pub find-modify :
      (other : ℕ) (m : List (ℕ × SynthesisEntry))
      → find other (modify key f m)
        ≡ (if key == other then Option.map f (find other m) else find other m)
  unfolding find modify
  find-modify other [] = ground arith
  find-modify other ((k, e) ∷ m) = ground (arith, find-modify other m)

  pub own_key-modify :
      (m : List (ℕ × SynthesisEntry))
      → ((e : SynthesisEntry) → (f e).forward ≡ e.forward)
      → All (λ (e : ℕ × SynthesisEntry). e.1.forward ≡ e.0) m
      → All (λ (e : ℕ × SynthesisEntry). e.1.forward ≡ e.0) (modify key f m)
  unfolding modify
  own_key-modify [] same h = tt
  own_key-modify ((k, e) ∷ m) same h = ground (arith, same e, own_key-modify m same h.1)
