-- ===== src/Transpile/Skip.antt =====
-- Files that the transpiler leaves alone, transpiler/src/skip.cpp. A text is the list of its
-- bytes here.
pub mod Generated
use Prim.Native.Char.{code}
use Prim.Native.String as Native
use sturm_cpp.Common.{
  ℕ, zero, suc, ◌==◌, ltb, Bool, true, false, not, ◌&&◌, ◌||◌, List, [], ◌∷◌, ◌++◌, if◌then◌else◌,
}
use sturm_cpp.Common.Text.{String}

abbrev pub codes : String → List ℕ
codes Native.[] = []
codes (Native.◌∷◌ c s) = code c ∷ codes s

unfoldable pub idempotency_header : List ℕ → List ℕ
idempotency_header source_path =
    codes "// AUTO-GENERATED by sturm-transpile -- do not edit\n"
    ++ (codes "// Source: " ++ (source_path ++ 10 ∷ []))

-- `std::isspace`: the blank, and the five controls from the tabulator on.
abbrev pub is_space : ℕ → Bool
is_space c = c == 32 || (ltb 8 c && ltb c 14)

unfoldable pub is_blank_line : List ℕ → Bool
is_blank_line [] = true
is_blank_line (c ∷ line) = is_space c && is_blank_line line

abbrev prefix_head : ℕ → List (List ℕ) → List (List ℕ)
prefix_head c [] = (c ∷ []) ∷ []
prefix_head c (line ∷ rest) = (c ∷ line) ∷ rest

-- The lines, without their newlines.
unfoldable pub lines : List ℕ → List (List ℕ)
lines [] = [] ∷ []
lines (c ∷ cs) = let rest = lines cs in if c == 10 then [] ∷ rest else prefix_head c rest

unfoldable pub first_nonblank : List (List ℕ) → List ℕ
unfolding is_blank_line
first_nonblank [] = []
first_nonblank (line ∷ rest) = if is_blank_line line then first_nonblank rest else line

unfoldable pub first_nonblank_line : List ℕ → List ℕ
unfolding first_nonblank lines
first_nonblank_line head = first_nonblank (lines head)

unfoldable pub starts_with : List ℕ → List ℕ → Bool
starts_with cs [] = true
starts_with [] (p ∷ ps) = false
starts_with (c ∷ cs) (p ∷ ps) = c == p && starts_with cs ps

abbrev pub skip_marker : List ℕ
skip_marker = codes "// sturm-transpile: skip"

abbrev pub auto_gen : List ℕ
auto_gen = codes "// AUTO-GENERATED by sturm-transpile"

unfoldable pub is_marked : List ℕ → Bool
unfolding starts_with
is_marked [] = false
is_marked line = starts_with line skip_marker || starts_with line auto_gen

unfoldable pub should_skip : List ℕ → Bool
unfolding first_nonblank_line is_marked
should_skip head = is_marked (first_nonblank_line head)

-- The first `n` bytes.
unfoldable pub take_bytes : ℕ → List ℕ → List ℕ
take_bytes zero cs = []
take_bytes (suc n) [] = []
take_bytes (suc n) (c ∷ cs) = c ∷ take_bytes n cs

-- What the driver, transpiler/src/main.cpp, reads of a file to find out whether to skip it.
unfoldable pub read_head : List ℕ → List ℕ
unfolding take_bytes
read_head file = take_bytes 1024 file
