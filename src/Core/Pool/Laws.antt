-- ===== src/Core/Pool/Laws.antt =====
-- The invariant of the pool and its operations.
use sturm_cpp.Common.{ℕ, ◌+◌, ◌-◌, ◌≤◌, ◌<◌, ◌≡◌, refl, arith, true, false, not, ◌&&◌, ◌||◌}
use sturm_cpp.Common.{List, [], ◌∷◌, length, All, IsFresh, IsDistinct, is_elem, ◌==◌}
use sturm_cpp.Common.{IsFresh→is_elem, is_elem→IsFresh, length-le_of_distinct}
use sturm_cpp.Common.Int.{ℤ, pos}
use sturm_cpp.Core.Pool.{QubitPool, allocate, release, is_live}

-- The free list holds different indices below the high-water mark, and `live` of the indices
-- handed out are not on it.
pub record IsSound (p : QubitPool) : Type 0 where
  pub distinct : IsDistinct p.free
  pub below : All (λ i. i < p.high_water) p.free
  pub live : ℕ
  pub counted : p.in_use ≡ pos live
  pub split : live + length p.free ≡ p.high_water

-- A free index is below the mark.
is_elem-below : (n i : ℕ) (xs : List ℕ) → All (λ j. j < n) xs → is_elem i xs ≡ true → i < n
is_elem-below n i [] h e = absurd (cc)
is_elem-below n i (x ∷ xs) h e = ground (arith, is_elem-below n i xs h.1)

All-lt-suc : (n : ℕ) (xs : List ℕ) → All (λ j. j < n) xs → All (λ j. j < n + 1) xs
All-lt-suc n [] h = tt
All-lt-suc n (x ∷ xs) h = (omega arith, All-lt-suc n xs h.1)

-- What `allocate` does to a sound pool: the index is new, and is all that becomes live.
pub record Allocated (p : QubitPool) (i : ℕ) (p' : QubitPool) : Type 0 where
  pub sound : IsSound p'
  pub new : is_live p i ≡ false
  pub now_live : (j : ℕ) → is_live p' j ≡ ((j == i) || is_live p j)

abbrev pool : List ℕ → ℕ → ℤ → QubitPool
pool xs n u = record { free = xs; high_water = n; in_use = u }

allocate_parts :
    (xs : List ℕ) (n : ℕ) (u : ℤ)
    → IsSound (pool xs n u)
    → Allocated (pool xs n u) (allocate (pool xs n u)).0 (allocate (pool xs n u)).1
unfolding allocate
allocate_parts [] n u s = record {
  sound = record {
    distinct = tt;
    below = tt;
    live = s.live + 1;
    counted = ground (arith, s.counted);
    split = omega (arith, s.split);
  };
  new = ground arith;
  now_live = λ j. ground arith;
}
allocate_parts (x ∷ xs) n u s = record {
  sound = record {
    distinct = s.distinct.1;
    below = s.below.1;
    live = s.live + 1;
    counted = ground (arith, s.counted);
    split = omega (arith, s.split);
  };
  new = ground arith;
  now_live = λ j. ground (arith, IsFresh→is_elem x xs s.distinct.0, s.below.0);
}

-- On a sound pool, `allocate` hands out an index that is not in use, which is all that becomes
-- live, and leaves the pool sound.
pub allocate-Allocated : (p : QubitPool) → IsSound p → Allocated p (allocate p).0 (allocate p).1
allocate-Allocated p s = allocate_parts p.free p.high_water p.in_use s

-- What `release` does to a sound pool: exactly the given index stops being live.
pub record Released (p : QubitPool) (i : ℕ) : Type 0 where
  pub sound : IsSound (release i p)
  pub now_live : (j : ℕ) → is_live (release i p) j ≡ (not (j == i) && is_live p j)

-- On a sound pool, `release` of an index in use takes exactly that index out of use, and leaves
-- the pool sound.
pub release-Released : (p : QubitPool) (i : ℕ) → IsSound p → is_live p i ≡ true → Released p i
unfolding release
release-Released p i s l = record {
  sound = record {
    distinct = (fresh, s.distinct);
    below = (in_range, s.below);
    live = s.live - 1;
    counted = ground (arith, s.counted, some_live);
    split = omega (arith, s.split, some_live);
  };
  now_live = λ j. ground arith;
}
  where
    in_range : i < p.high_water
    in_range = ground arith

    fresh : IsFresh i p.free
    fresh = is_elem→IsFresh i p.free (ground arith)

    some_live : 1 ≤ s.live
    some_live = omega (
      arith,
      s.split,
      length-le_of_distinct p.high_water (i ∷ p.free) (fresh, s.distinct) (in_range, s.below),
    )

-- What `release` gives back is what the next `allocate` hands out.
pub allocate-release : (p : QubitPool) (i : ℕ) → (allocate (release i p)).0 ≡ i
unfolding allocate release
allocate-release p i = refl
