-- ===== src/Text.antt =====
-- The methods of `str` that the code calls, on the characters of a text.
use Prim.Native.Char.{code}
pub use Prim.Native.String.{◌++◌ as ◌<>◌}
use hotels_aggregator.Prelude.{String, Bool, true, false, Option, none, some}
use hotels_aggregator.Prelude.Tests.{nat_beq, ◌==◌, string_eq, if◌then◌else◌}

-- `if s:`
unfoldable pub nonempty : String → Bool
nonempty String.[] = false
nonempty _ = true

-- `s.rstrip("/")`
unfoldable pub rstrip_slash : String → String
rstrip_slash String.[] = ""
rstrip_slash (String.◌∷◌ c s) =
    let rest = rstrip_slash s in
    if nat_beq (code c) b'/'
    then (if rest == "" then "" else String.◌∷◌ c rest)
    else String.◌∷◌ c rest

-- `s.replace("Z", "+00:00")`
unfoldable pub replace_z : String → String
replace_z String.[] = ""
replace_z (String.◌∷◌ c s) =
    let rest = replace_z s in if nat_beq (code c) b'Z' then "+00:00" <> rest else String.◌∷◌ c rest

-- The text behind a prefix, if the text begins so: `s.startswith(p)` and `s.removeprefix(p)`.
unfoldable pub strip_prefix : (p s : String) → Option String
strip_prefix String.[] s = some s
strip_prefix (String.◌∷◌ c p) String.[] = none
strip_prefix (String.◌∷◌ c p) (String.◌∷◌ d s) =
    let rest = strip_prefix p s in if nat_beq (code c) (code d) then rest else none
