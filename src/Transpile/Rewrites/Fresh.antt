-- ===== src/Transpile/Rewrites/Fresh.antt =====
-- Fresh names, transpiler/src/fresh_names.hpp, and the name of a qint type,
-- transpiler/src/render_qint_typename.hpp.
use sturm_cpp.Common.{
  ℕ, ◌+◌, ◌<◌, ◌%◌, ◌^◌, length, ◌==◌, ◌≡◌, ◌≢◌, refl, sym, ◌∙◌, List, [], ◌∷◌, All, if◌then◌else◌,
  arith,
}
use sturm_cpp.Common.Text.{String, ◌<<◌, to_string, eq_iff}
use sturm_cpp.Common.Text.Decimal.{to_string_inj}
use text.Mathlib.TextLemmas.{append_cancel_left, append_assoc, append_inj}

-- The counters are of type `size_t`, of 64 bits.
pub record FreshNameAllocator : Type 0 where
  pub counter : ℕ
  pub ctrl_counter : ℕ

unfoldable pub next : FreshNameAllocator → FreshNameAllocator × String
next a = (record a { counter = (a.counter + 1) % 2 ^ 64 }, "__stu_t" << to_string a.counter)

unfoldable pub next_ctrl : FreshNameAllocator → FreshNameAllocator × String
next_ctrl a = (
  record a { ctrl_counter = (a.ctrl_counter + 1) % 2 ^ 64 },
  "__stu_ctrl" << to_string a.ctrl_counter,
)

unfoldable pub render_qint_typename : ℕ → String
render_qint_typename w = if w == 0 then "qint" else "sturm::qint_t<" << to_string w << ">"

-- A call of the allocator.
pub data NameCall : Type 0 where
  plain control : NameCall

-- The names that the calls return, in order.
unfoldable pub names : List NameCall → FreshNameAllocator → List String
unfolding next next_ctrl
names [] a = []
names (plain ∷ cs) a = (next a).1 ∷ names cs (next a).0
names (control ∷ cs) a = (next_ctrl a).1 ∷ names cs (next_ctrl a).0

plain_name : ℕ → String
plain_name n = "__stu_t" << to_string n

control_name : ℕ → String
control_name n = "__stu_ctrl" << to_string n

plain_name_inj : (m n : ℕ) → plain_name m ≡ plain_name n → m ≡ n
unfolding plain_name
plain_name_inj m n e = to_string_inj m n (append_cancel_left "__stu_t" _ _ e)

control_name_inj : (m n : ℕ) → control_name m ≡ control_name n → m ≡ n
unfolding control_name
control_name_inj m n e = to_string_inj m n (append_cancel_left "__stu_ctrl" _ _ e)

plain-control : (m n : ℕ) → plain_name m ≢ control_name n
unfolding plain_name control_name
plain-control m n e =
    let tail : "t" << to_string m ≡ "ctrl" << to_string n = append_cancel_left "__stu_" _ _ (
      sym (append_assoc "__stu_" "t" (to_string m))
      ∙ e
      ∙ append_assoc "__stu_" "ctrl" (to_string n)) in
    let heads =
      append_inj {s₁ = "t"} {s₂ = "c"} {t₁ = to_string m} {t₂ = "trl" << to_string n}
        (tail ∙ append_assoc "c" "trl" (to_string n)) refl in
    absurd (ground (arith, (eq_iff "t" "c").1 heads.0))

-- No name of the list is `s`.
abbrev pub IsNew : String → List String → Type 0
IsNew s ss = All (λ t. s ≢ t) ss

abbrev pub AreDistinct : List String → Type 0
AreDistinct [] = Unit {0}
AreDistinct (s ∷ ss) = IsNew s ss × AreDistinct ss

plain_name-IsNew :
    (k : ℕ) (cs : List NameCall) (a : FreshNameAllocator)
    → k < a.counter
    → a.counter + length cs < 2 ^ 64
    → IsNew (plain_name k) (names cs a)
unfolding names plain_name control_name
plain_name-IsNew k [] a h l = tt
plain_name-IsNew k (plain ∷ cs) a h l = (
  λ e. absurd (omega (arith, plain_name_inj k a.counter e)),
  plain_name-IsNew k cs (next a).0 (omega arith) (omega arith),
)
plain_name-IsNew k (control ∷ cs) a h l =
    (plain-control k a.ctrl_counter, plain_name-IsNew k cs (next_ctrl a).0 h (omega arith))

control_name-IsNew :
    (k : ℕ) (cs : List NameCall) (a : FreshNameAllocator)
    → k < a.ctrl_counter
    → a.ctrl_counter + length cs < 2 ^ 64
    → IsNew (control_name k) (names cs a)
unfolding names plain_name control_name
control_name-IsNew k [] a h l = tt
control_name-IsNew k (plain ∷ cs) a h l =
    (λ e. plain-control a.counter k (sym e), control_name-IsNew k cs (next a).0 h (omega arith))
control_name-IsNew k (control ∷ cs) a h l = (
  λ e. absurd (omega (arith, control_name_inj k a.ctrl_counter e)),
  control_name-IsNew k cs (next_ctrl a).0 (omega arith) (omega arith),
)

-- The names that an allocator hands out, in any sequence of calls for plain and for control
-- names whose length, added to either counter, stays below 2 ^ 64, are pairwise different.
pub names-AreDistinct :
    (cs : List NameCall) (a : FreshNameAllocator)
    → a.counter + length cs < 2 ^ 64
    → a.ctrl_counter + length cs < 2 ^ 64
    → AreDistinct (names cs a)
unfolding names plain_name control_name
names-AreDistinct [] a h l = tt
names-AreDistinct (plain ∷ cs) a h l = (
  plain_name-IsNew a.counter cs (next a).0 (omega arith) (omega arith),
  names-AreDistinct cs (next a).0 (omega arith) (omega arith),
)
names-AreDistinct (control ∷ cs) a h l = (
  control_name-IsNew a.ctrl_counter cs (next_ctrl a).0 (omega arith) (omega arith),
  names-AreDistinct cs (next_ctrl a).0 (omega arith) (omega arith),
)
