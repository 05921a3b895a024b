-- ===== src/Transpile/Loop/Header.antt =====
-- The headers that the reversal writes, as C++ reads them: their text, the values of their
-- expressions, and the values that the variable takes.
use sturm_cpp.Common.{
  ◌^◌, ◌&&◌, ltb, leb, ℕ, zero, suc, ◌≡◌, refl, Bool, true, false, List, [], ◌∷◌, Option, none,
  some, if◌then◌else◌,
}
use sturm_cpp.Common.Int.{ℤ, pos, pos_part, neg_part, ◌+ℤ◌, ◌-ℤ◌, ◌*ℤ◌, ◌/ℤ◌, ltb_ℤ, leb_ℤ}
use sturm_cpp.Common.Text.{String, ◌<<◌, to_string, append_assoc}
use sturm_cpp.Transpile.Loop.{CmpOp, lt, le, gt, ge, build_upward_reverse, build_downward_reverse}

pub data IntExpr : Type 0 where
  text : String → IntExpr
  one : IntExpr
  number : ℕ → IntExpr
  parens : IntExpr → IntExpr
  add sub mul div : IntExpr → IntExpr → IntExpr

unfoldable pub print : IntExpr → String
print (text t) = t
print one = "1"
print (number n) = to_string n
print (parens e) = "(" << print e << ")"
print (add l r) = print l << " + " << print r
print (sub l r) = print l << " - " << print r
print (mul l r) = print l << " * " << print r
print (div l r) = print l << " / " << print r

module _ (value : String → ℤ) where
  unfoldable pub eval : IntExpr → ℤ
  eval (text t) = value t
  eval one = pos 1
  eval (number n) = pos n
  eval (parens e) = eval e
  eval (add l r) = eval l +ℤ eval r
  eval (sub l r) = eval l -ℤ eval r
  eval (mul l r) = eval l *ℤ eval r
  eval (div l r) = eval l /ℤ eval r

-- What an operator of C++ takes without parentheses: 0 for a literal or an expression in
-- parentheses, 1 for a product or quotient, 2 for a sum or difference. Source text has any level.
unfoldable pub level : IntExpr → ℕ
level (text t) = 3
level one = 0
level (number n) = 0
level (parens e) = 0
level (add l r) = 2
level (sub l r) = 2
level (mul l r) = 1
level (div l r) = 1

-- The text of the expression is read by C++ as this expression: every operand is of a level that
-- the operator around it takes on that side.
unfoldable pub is_grouped : IntExpr → Bool
unfolding level
is_grouped (text t) = true
is_grouped one = true
is_grouped (number n) = true
is_grouped (parens e) = is_grouped e
is_grouped (add l r) = leb (level l) 2 && (leb (level r) 1 && (is_grouped l && is_grouped r))
is_grouped (sub l r) = leb (level l) 2 && (leb (level r) 1 && (is_grouped l && is_grouped r))
is_grouped (mul l r) = leb (level l) 1 && (leb (level r) 0 && (is_grouped l && is_grouped r))
is_grouped (div l r) = leb (level l) 1 && (leb (level r) 0 && (is_grouped l && is_grouped r))

-- The values of type `int`.
unfoldable pub is_int : ℤ → Bool
is_int v = ltb (pos_part v) (2 ^ 31) && leb (neg_part v) (2 ^ 31)

module _ (value : String → ℤ) where
  -- No operation of the expression overflows an `int`.
  unfoldable pub fits : IntExpr → Bool
  unfolding eval
  fits (text t) = is_int (value t)
  fits one = true
  fits (number n) = is_int (pos n)
  fits (parens e) = fits e
  fits (add l r) = fits l && (fits r && is_int (eval value l +ℤ eval value r))
  fits (sub l r) = fits l && (fits r && is_int (eval value l -ℤ eval value r))
  fits (mul l r) = fits l && (fits r && is_int (eval value l *ℤ eval value r))
  fits (div l r) = fits l && (fits r && is_int (eval value l /ℤ eval value r))

-- `for (int var = start; var <cmp> bound; var += stride)`, with `-=` where `upward` is false.
pub record ForHeader : Type 0 where
  pub var : String
  pub start : IntExpr
  pub cmp : CmpOp
  pub bound : IntExpr
  pub upward : Bool
  pub stride : IntExpr

abbrev cmp_token : CmpOp → String
cmp_token lt = " < "
cmp_token le = " <= "
cmp_token gt = " > "
cmp_token ge = " >= "

unfoldable pub print_header : ForHeader → String
unfolding print
print_header h =
    "for (int "
    << h.var
    << " = "
    << print h.start
    << "; "
    << h.var
    << cmp_token h.cmp
    << print h.bound
    << "; "
    << h.var
    << (if h.upward then " += " else " -= ")
    << print h.stride
    << ")"

abbrev pub compare_ℤ : CmpOp → ℤ → ℤ → Bool
compare_ℤ lt a b = ltb_ℤ a b
compare_ℤ le a b = leb_ℤ a b
compare_ℤ gt a b = ltb_ℤ b a
compare_ℤ ge a b = leb_ℤ b a

abbrev pub cons_some : ℤ → Option (List ℤ) → Option (List ℤ)
cons_some i none = none
cons_some i (some is) = some (i ∷ is)

-- The values of the variable in the rounds of a loop; `none` if the rounds do not end the loop or
-- the variable overflows.
unfoldable pub rounds : ℕ → CmpOp → ℤ → ℤ → ℤ → Option (List ℤ)
rounds zero op bound step i = none
rounds (suc fuel) op bound step i =
    let rest = rounds fuel op bound step (i +ℤ step) in
    if compare_ℤ op i bound
    then (if is_int (i +ℤ step) then cons_some i rest else none)
    else some []

abbrev minus : ℤ → ℤ
minus v = pos 0 -ℤ v

-- `none` also if one of the expressions of the header overflows.
unfoldable pub visits : (String → ℤ) → ℕ → ForHeader → Option (List ℤ)
unfolding rounds eval fits
visits value fuel h =
    let step = eval value h.stride in
    let all_fit = fits value h.start && (fits value h.bound && fits value h.stride) in
    let values =
      rounds fuel h.cmp (eval value h.bound) (if h.upward then step else minus step)
        (eval value h.start) in
    if all_fit then values else none

-- The header is this text, and C++ groups the text as the header is grouped.
pub record Reads (header : String) (h : ForHeader) : Type 0 where
  pub prints : header ≡ print_header h
  pub start_grouped : is_grouped h.start ≡ true
  pub bound_grouped : is_grouped h.bound ≡ true
  pub stride_grouped : is_grouped h.stride ≡ true

abbrev less_one : Bool → IntExpr → IntExpr
less_one inclusive e = if inclusive then e else sub e one

unfoldable pub upward_reverse : String → String → String → ℕ → Bool → ForHeader
upward_reverse iv lo hi s inclusive = record {
  var = iv;
  start = add (parens (text lo)) (
      mul
        (parens (
          div (parens (sub (less_one inclusive (parens (text hi))) (parens (text lo))))
            (parens (number s))))
        (parens (number s)));
  cmp = ge;
  bound = parens (text lo);
  upward = false;
  stride = parens (number s);
}

unfoldable pub downward_reverse : String → String → String → ℕ → Bool → ForHeader
downward_reverse iv hi lo s inclusive = record {
  var = iv;
  start = sub (parens (text hi)) (
      mul
        (parens (
          div (parens (less_one inclusive (sub (parens (text hi)) (parens (text lo)))))
            (parens (number s))))
        (parens (number s)));
  cmp = le;
  bound = parens (text hi);
  upward = true;
  stride = parens (number s);
}

-- The literals of the builders as pieces of the printed header.
piece_0 : ◌≡◌ {A = String} ") + (((" (")" << (" + " << ("(" << ("(" << ("(")))))
piece_0 = refl

piece_1 : ◌≡◌ {A = String} " - 1" (" - " << ("1"))
piece_1 = refl

piece_2 : ◌≡◌ {A = String} " - (" (" - " << ("("))
piece_2 = refl

piece_3 : ◌≡◌ {A = String} ")) / (" (")" << (")" << (" / " << ("("))))
piece_3 = refl

piece_4 : ◌≡◌ {A = String} ")) * (" (")" << (")" << (" * " << ("("))))
piece_4 = refl

piece_5 : ◌≡◌ {A = String} " >= (" (" >= " << ("("))
piece_5 = refl

piece_6 : ◌≡◌ {A = String} "); " (")" << ("; "))
piece_6 = refl

piece_7 : ◌≡◌ {A = String} " -= (" (" -= " << ("("))
piece_7 = refl

piece_8 : ◌≡◌ {A = String} "))" (")" << (")"))
piece_8 = refl

piece_9 : ◌≡◌ {A = String} ") - (((" (")" << (" - " << ("(" << ("(" << ("(")))))
piece_9 = refl

piece_10 : ◌≡◌ {A = String} ") - (" (")" << (" - " << ("(")))
piece_10 = refl

piece_11 : ◌≡◌ {A = String} ") / (" (")" << (" / " << ("(")))
piece_11 = refl

piece_12 : ◌≡◌ {A = String} " <= (" (" <= " << ("("))
piece_12 = refl

piece_13 : ◌≡◌ {A = String} " += (" (" += " << ("("))
piece_13 = refl

ruleset pieces = (
  append_assoc, piece_0, piece_1, piece_2, piece_3, piece_4, piece_5, piece_6, piece_7, piece_8,
  piece_9, piece_10, piece_11, piece_12, piece_13,
)

pub build_upward_reverse-header :
    (iv lo hi : String) (s : ℕ) (inclusive : Bool)
    → build_upward_reverse iv lo hi (to_string s) inclusive
      ≡ print_header (upward_reverse iv lo hi s inclusive)
unfolding build_upward_reverse upward_reverse print_header
build_upward_reverse-header iv lo hi s true = simp pieces
build_upward_reverse-header iv lo hi s false = simp pieces

pub upward_reverse-Reads :
    (iv lo hi : String) (s : ℕ) (inclusive : Bool)
    → Reads
        (build_upward_reverse iv lo hi (to_string s) inclusive)
        (upward_reverse iv lo hi s inclusive)
unfolding upward_reverse is_grouped
upward_reverse-Reads iv lo hi s true = record {
  prints = build_upward_reverse-header iv lo hi s true;
  start_grouped = refl;
  bound_grouped = refl;
  stride_grouped = refl;
}
upward_reverse-Reads iv lo hi s false = record {
  prints = build_upward_reverse-header iv lo hi s false;
  start_grouped = refl;
  bound_grouped = refl;
  stride_grouped = refl;
}

pub build_downward_reverse-header :
    (iv lo hi : String) (s : ℕ) (inclusive : Bool)
    → build_downward_reverse iv hi lo (to_string s) inclusive
      ≡ print_header (downward_reverse iv hi lo s inclusive)
unfolding build_downward_reverse downward_reverse print_header
build_downward_reverse-header iv lo hi s true = simp pieces
build_downward_reverse-header iv lo hi s false = simp pieces
