-- ===== src/Transpile/SourceMap.antt =====
-- Line directives, transpiler/src/source_map.cpp. The source manager of Clang is a parameter.
use Prim.Native.Char.{code}
use Prim.Native.String as Native
use sturm_cpp.Common.{ℕ, ◌==◌, Bool, Option, none, some, if◌then◌else◌}
use sturm_cpp.Common.Text.{String, ◌<<◌, is_empty, to_string}
use sturm_cpp.Transpile.Qir.{SourceLocation, is_valid}

pub record SourceManager : Type 0 where
  pub is_in_main_file : SourceLocation → Bool
  -- The presumed line and file name, if the presumed location is valid; the name may be null.
  pub presumed_loc : SourceLocation → Option (ℕ × Option String)

-- What follows the last '/'.
unfoldable pub after_slash : String → Option String
after_slash Native.[] = none
after_slash (Native.◌∷◌ c s) = elim (after_slash s) [
  | some t ↦ some t
  | none ↦ if code c == b'/' then some s else none
]

-- `std::filesystem::path::filename`
unfoldable pub file_name : String → String
unfolding after_slash
file_name path = elim (after_slash path) [ some t ↦ t | none ↦ path ]

directive : ℕ → String → String
directive line base = "#line " << to_string line << " \"" << base << "\"\n"

unfoldable pub line_of : Option (ℕ × Option String) → String
unfolding directive file_name
line_of none = ""
line_of (some (line, none)) = ""
line_of (some (line, some path)) =
    if line == 0
    then ""
    else if is_empty (file_name path)
    then ""
    else directive line (file_name path)

unfoldable pub format_line_directive : SourceManager → SourceLocation → String
unfolding line_of
format_line_directive sm loc =
    if is_valid loc
    then (if sm.is_in_main_file loc then line_of (sm.presumed_loc loc) else "")
    else ""
