-- ===== src/Base/Text.antt =====
-- Python's `str.strip`, and the pattern of record ids, `<prefix>_<uuid7>`.
use Prim.Native.Nat.{ℕ, suc}
use Prim.Native.Char.{Char, code}
use Prim.Native.String.{String}
use mathlib.Core.Bool.{Bool, true, false, ◌&&◌, ◌||◌}
use mathlib.Core.List.{List, [], ◌∷◌}
use mathlib.Core.Option.{Option, none, some}
use mathlib.Core.Path.{◌≡◌, refl}
use polder_research_pipeline.Base.Tests.{leb, eqb}

-- `str.isspace` of one character
is_space : ℕ → Bool
is_space c =
    (leb 9 c && leb c 13)
    || (leb 28 c && leb c 32)
    || eqb c 133
    || eqb c 160
    || eqb c 5760
    || (leb 8192 c && leb c 8202)
    || eqb c 8232
    || eqb c 8233
    || eqb c 8239
    || eqb c 8287
    || eqb c 12288

lstrip : String → String
lstrip String.[] = String.[]
lstrip (String.◌∷◌ c s) = elim (is_space (code c)) [ true ↦ lstrip s | false ↦ String.◌∷◌ c s ]

-- a character before a stripped rest: dropped if it is a space and nothing follows
put_back : Char → String → String
put_back c String.[] = elim (is_space (code c)) [
  | true ↦ String.[]
  | false ↦ String.◌∷◌ c String.[]
]
put_back c (String.◌∷◌ d s) = String.◌∷◌ c (String.◌∷◌ d s)

rstrip : String → String
rstrip String.[] = String.[]
rstrip (String.◌∷◌ c s) = put_back c (rstrip s)

unfoldable pub strip : String → String
unfolding is_space lstrip put_back rstrip
strip s = rstrip (lstrip s)

-- the character classes of the id pattern
pub data Class : Type 0 where
  hex seven variant dash : Class

accepts : Class → ℕ → Bool
accepts hex c = (leb b'0' c && leb c b'9') || (leb b'a' c && leb c b'f')
accepts seven c = eqb c b'7'
accepts variant c = eqb c b'8' || eqb c b'9' || eqb c b'a' || eqb c b'b'
accepts dash c = eqb c b'-'

repeat : ℕ → Class → List Class → List Class
repeat ℕ.zero k rest = rest
repeat (ℕ.suc n) k rest = k ∷ repeat n k rest

-- [0-9a-f]{8}-[0-9a-f]{4}-7[0-9a-f]{3}-[89ab][0-9a-f]{3}-[0-9a-f]{12}
uuid7 : List Class
unfolding repeat
uuid7 = repeat 8 hex (
    dash
    ∷ repeat 4 hex
        (dash ∷ seven ∷ repeat 3 hex (dash ∷ variant ∷ repeat 3 hex (dash ∷ repeat 12 hex []))))

matches : List Class → String → Bool
matches [] String.[] = true
matches [] (String.◌∷◌ c s) = false
matches (k ∷ ks) String.[] = false
matches (k ∷ ks) (String.◌∷◌ c s) = accepts k (code c) && matches ks s

-- the text behind a prefix, where it starts with it
unfoldable pub removeprefix : String → String → Option String
removeprefix String.[] s = some s
removeprefix (String.◌∷◌ p ps) String.[] = none
removeprefix (String.◌∷◌ p ps) (String.◌∷◌ c s) = elim (eqb (code p) (code c)) [
  | true ↦ removeprefix ps s
  | false ↦ none
]

-- `re.fullmatch(rf"{prefix}[0-9a-f]{8}-…", s)`; the prefix holds its underscore
unfoldable pub is_record_id : String → String → Bool
unfolding uuid7 matches accepts removeprefix
is_record_id prefix s = elim (removeprefix prefix s) [
  | none ↦ false
  | some rest ↦ matches uuid7 rest
]

-- `re.compile(r"^[0-9a-f]{64}$").match(s)`: `$` also stands before a last line feed
is_line_end : String → Bool
is_line_end String.[] = true
is_line_end (String.◌∷◌ c String.[]) = eqb (code c) 10
is_line_end (String.◌∷◌ c (String.◌∷◌ d s)) = false

hex_then : ℕ → String → Bool
hex_then ℕ.zero s = is_line_end s
hex_then (ℕ.suc n) String.[] = false
hex_then (ℕ.suc n) (String.◌∷◌ c s) = accepts hex (code c) && hex_then n s

unfoldable pub is_sha256 : String → Bool
unfolding is_line_end hex_then accepts
is_sha256 s = hex_then 64 s

sample_id : is_record_id "tsk_" "tsk_01890a5d-ac96-774b-bcce-b302099a8057" ≡ true
unfolding is_record_id
sample_id = refl

sample_not_id : is_record_id "tsk_" "tsk_01890a5d-ac96-474b-bcce-b302099a8057" ≡ false
unfolding is_record_id
sample_not_id = refl

sample_strip : strip "  ab c  " ≡ "ab c"
unfolding strip
sample_strip = refl

-- `len` of a text
unfoldable pub text_length : String → ℕ
text_length String.[] = 0
text_length (String.◌∷◌ c s) = suc (text_length s)
