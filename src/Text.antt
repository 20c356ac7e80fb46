-- ===== src/Text.antt =====
-- The parts of Go's packages strings and strconv that the program calls on whole texts.
use Prim.Native.Char.{code}
use Prim.Native.String.{len}
use text.Mathlib.Text.{find?}
use ocpp_cli.Prelude.{
  ℕ, String, Bool, ◌&&◌, ◌||◌, [], ◌∷◌, ◌==◌, leb, str_eq, if◌then◌else◌, any, is_some,
}

-- `unicode.IsSpace`
abbrev pub is_space : ℕ → Bool
is_space c =
    (leb 9 c && leb c 13)
    || (c == 32
        || (c == 133
            || (c == 160
                || (c == 5760
                    || ((leb 8192 c && leb c 8202)
                        || (c == 8232
                            || (c == 8233 || (c == 8239 || (c == 8287 || c == 12288)))))))))

unfoldable pub trim_left : String → String
trim_left String.[] = ""
trim_left (String.◌∷◌ c s) =
    let rest = trim_left s in if is_space (code c) then rest else String.◌∷◌ c s

unfoldable pub trim_right : String → String
trim_right String.[] = ""
trim_right (String.◌∷◌ c s) =
    let rest = trim_right s in if is_space (code c) && str_eq rest "" then "" else String.◌∷◌ c rest

-- `strings.TrimSpace`
unfoldable pub trim_space : String → String
unfolding trim_left trim_right
trim_space s = trim_right (trim_left s)

-- `value, err := strconv.ParseBool(s)`, where the caller asks for `err == nil && value`.
unfoldable pub parse_true : String → Bool
parse_true s = any (str_eq s) ("1" ∷ "t" ∷ "T" ∷ "TRUE" ∷ "true" ∷ "True" ∷ [])

-- `strings.Contains`
abbrev pub contains : String → String → Bool
contains s t = is_some (find? s t)

-- `len(s)` counts bytes.
abbrev pub byte_length : String → ℕ
byte_length s = len s
