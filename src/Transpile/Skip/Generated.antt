-- ===== src/Transpile/Skip/Generated.antt =====
-- The transpiler's own output is among the files that it leaves alone.
use sturm_cpp.Common.{
  ℕ, zero, suc, ◌+◌, ◌-◌, ◌≤◌, length, ◌≡◌, ◌≢◌, ◌∙◌, ap, refl, true, List, [], ◌∷◌, ◌++◌, All,
  arith,
}
use sturm_cpp.Transpile.Skip.{
  idempotency_header, is_space, is_blank_line, lines, first_nonblank, first_nonblank_line,
  is_marked, should_skip, codes, take_bytes, read_head,
}

-- White space that does not end the line.
abbrev pub IsBlank : List ℕ → Type 0
IsBlank line = All (λ c. (is_space c ≡ true) × (c ≢ 10)) line

-- The lines with a newline after each.
abbrev pub unlines : List (List ℕ) → List ℕ
unlines [] = []
unlines (line ∷ rest) = line ++ 10 ∷ unlines rest

lines-append : (line rest : List ℕ) → IsBlank line → lines (line ++ 10 ∷ rest) ≡ line ∷ lines rest
unfolding lines
lines-append [] rest h = refl
lines-append (c ∷ line) rest h = ground (arith, h.0.1, lines-append line rest h.1)

blank : (line : List ℕ) → IsBlank line → is_blank_line line ≡ true
unfolding is_blank_line
blank [] h = refl
blank (c ∷ line) h = ground (arith, h.0.0, blank line h.1)

append_assoc_line :
    (line rest : List ℕ) (more : List ℕ) → (line ++ 10 ∷ rest) ++ more ≡ line ++ 10 ∷ (rest ++ more)
append_assoc_line [] rest more = refl
append_assoc_line (c ∷ line) rest more = ap (λ l. c ∷ l) (append_assoc_line line rest more)

should_skip-unlines :
    (blanks : List (List ℕ)) (head : List ℕ)
    → All IsBlank blanks
    → first_nonblank_line (unlines blanks ++ head) ≡ first_nonblank_line head
unfolding first_nonblank_line first_nonblank
should_skip-unlines [] head h = refl
should_skip-unlines (line ∷ blanks) head h =
    ap (λ l. first_nonblank (lines l)) (append_assoc_line line (unlines blanks) head)
    ∙ ap first_nonblank (lines-append line (unlines blanks ++ head) h.0)
    ∙ rw (blank line h.0) (should_skip-unlines blanks head h.1)

-- The first line of the header.
abbrev pub header_line : List ℕ
header_line = codes "// AUTO-GENERATED by sturm-transpile -- do not edit\n"

header_marked : (rest : List ℕ) → should_skip (header_line ++ rest) ≡ true
unfolding should_skip
header_marked rest = refl

take_bytes-append :
    (n : ℕ) (cs ds : List ℕ)
    → length cs ≤ n
    → take_bytes n (cs ++ ds) ≡ cs ++ take_bytes (n - length cs) ds
unfolding take_bytes
take_bytes-append n [] ds h = ap (λ k. take_bytes k ds) (omega arith)
take_bytes-append zero (c ∷ cs) ds h = absurd (omega arith)
take_bytes-append (suc n) (c ∷ cs) ds h =
    ap (λ l. c ∷ l)
      (take_bytes-append n cs ds (omega arith) ∙ ap (λ k. cs ++ take_bytes k ds) (omega arith))

-- A file that begins with the header which the emitter writes, whatever its path and body are,
-- also after blank lines, is skipped by what the driver reads of it, if the blank lines and the
-- first line of the header, of 52 bytes, lie in the first 1024 bytes.
pub should_skip-header :
    (blanks : List (List ℕ)) (path body : List ℕ)
    → All IsBlank blanks
    → length (unlines blanks) + 52 ≤ 1024
    → should_skip (read_head (unlines blanks ++ (idempotency_header path ++ body))) ≡ true
unfolding should_skip read_head idempotency_header
should_skip-header blanks path body h l =
    let rest = codes "// Source: " ++ (path ++ 10 ∷ []) ++ body in
    let kept = take_bytes (1024 - length (unlines blanks) - 52) rest in
    ap should_skip (
      take_bytes-append 1024 (unlines blanks) (header_line ++ rest) (omega arith)
      ∙ ap (λ t. unlines blanks ++ t)
          (take_bytes-append (1024 - length (unlines blanks)) header_line rest (omega arith)))
    ∙ ap is_marked (should_skip-unlines blanks (header_line ++ kept) h)
    ∙ header_marked kept
