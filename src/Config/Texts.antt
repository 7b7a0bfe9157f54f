-- ===== src/Config/Texts.antt =====
-- What the services use of Go's strings: `Split` and `Join` by a comma, and `TrimSpace`.
use Prim.Native.Char.{Char, code}
use Prim.Native.String.{◌++◌}
use obarena.Prelude.{ℕ, String, str_eq, Bool, ◌&&◌, ◌||◌, leb, ◌==◌, if◌then◌else◌, List, [], ◌∷◌}

-- `unicode.IsSpace`
abbrev pub is_space : ℕ → Bool
is_space c =
    leb 9 c && leb c 13
    || c == 32
    || c == 0x85
    || c == 0xA0
    || c == 0x1680
    || leb 0x2000 c && leb c 0x200a
    || c == 0x2028
    || c == 0x2029
    || c == 0x202f
    || c == 0x205f
    || c == 0x3000

unfoldable pub trim_left : String → String
trim_left String.[] = ""
trim_left (String.◌∷◌ c s) =
    let rest = trim_left s in if is_space (code c) then rest else String.◌∷◌ c s

unfoldable pub trim_right : String → String
trim_right String.[] = ""
trim_right (String.◌∷◌ c s) =
    let rest = trim_right s in if str_eq rest "" && is_space (code c) then "" else String.◌∷◌ c rest

-- `strings.TrimSpace`
unfoldable pub trim_space : String → String
unfolding trim_left trim_right
trim_space s = trim_left (trim_right s)

abbrev pub comma : ℕ
comma = b','

-- A character that may end a part: the parts of what follows it are given.
abbrev pub split_at : Char → List String → List String
split_at c [] = []
split_at c (p ∷ ps) = if code c == comma then "" ∷ p ∷ ps else String.◌∷◌ c p ∷ ps

-- `strings.Split(s, ",")`
unfoldable pub split : String → List String
split String.[] = "" ∷ []
split (String.◌∷◌ c s) = split_at c (split s)

-- `strings.Join(parts, ",")`
unfoldable pub join : List String → String
join [] = ""
join (p ∷ []) = p
join (p ∷ q ∷ ps) = p ++ String.◌∷◌ "," (join (q ∷ ps))
