-- ===== src/Base/Text.antt =====
-- Python's `str.strip` and `bool(str)`.
use Prim.Native.Nat.{ℕ, ◌+◌, ◌*◌, ◌-◌}
use Prim.Native.Char.{Char, code}
use Prim.Native.String.{String}
use mathlib.Core.Path.{◌≡◌, refl}
use mathlib.Core.Bool.{Bool, true, false, ◌&&◌, ◌||◌}
use mathlib.Core.Option
use mathlib.Core.Option.{Option, none, some}
use agenticqueue.Base.Int.{ℤ, pos, negsuc, negated}
use agenticqueue.Base.Tests.{leb, nat_beq, if◌then◌else◌}

-- `str.isspace` of one character.
unfoldable pub is_space : Char → Bool
is_space ch =
    let c = code ch in
    (leb 9 c && leb c 13)
    || (leb 28 c && leb c 32)
    || nat_beq c 133
    || nat_beq c 160
    || nat_beq c 5760
    || (leb 8192 c && leb c 8202)
    || nat_beq c 8232
    || nat_beq c 8233
    || nat_beq c 8239
    || nat_beq c 8287
    || nat_beq c 12288

lstrip : String → String
lstrip String.[] = ""
lstrip (String.◌∷◌ c s) = let rest = lstrip s in if is_space c then rest else String.◌∷◌ c s

rstrip : String → String
rstrip String.[] = ""
rstrip (String.◌∷◌ c s) = elim (rstrip s) [
  | String.[] ↦ if is_space c then "" else String.◌∷◌ c ""
  | String.◌∷◌ d t ↦ String.◌∷◌ c (String.◌∷◌ d t)
]

-- `s.strip()`
unfoldable pub strip : String → String
unfolding is_space lstrip rstrip
strip s = rstrip (lstrip s)

-- `bool(s)`
abbrev pub nonempty : String → Bool
nonempty String.[] = false
nonempty (String.◌∷◌ c s) = true

strip_spaces : strip "  a b " ≡ "a b"
unfolding strip
strip_spaces = refl

-- `int(text)`: white space around it, a sign, digits with single underscores between them. Digits
-- outside ASCII are refused here.
int_digits : ℕ → Bool → String → Option ℕ
int_digits n digit String.[] = if digit then some n else none
int_digits n digit (String.◌∷◌ ch s) =
    let c = code ch in
    let more = int_digits (n * 10 + (c - 48)) true s in
    let under = int_digits n false s in
    if leb 48 c && leb c 57 then more else if nat_beq c 95 && digit then under else none

int_signed : String → Option ℤ
unfolding int_digits
int_signed String.[] = none
int_signed (String.◌∷◌ ch s) =
    if nat_beq (code ch) 45
    then Option.map negated (int_digits 0 false s)
    else if nat_beq (code ch) 43
    then Option.map pos (int_digits 0 false s)
    else Option.map pos (int_digits 0 false (String.◌∷◌ ch s))

unfoldable pub int_of_text : String → Option ℤ
unfolding int_signed strip
int_of_text s = int_signed (strip s)

int_of_text_examples :
    (int_of_text " -1_2 " ≡ some (negsuc 11)) × (int_of_text "" ≡ none) × (int_of_text "1_" ≡ none)
unfolding int_of_text
int_of_text_examples = (refl, refl, refl)
