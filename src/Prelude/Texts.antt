-- ===== src/Prelude/Texts.antt =====
-- What Python's `len` and `str.strip` see of a text: its code points.
use Prim.Native.Nat.{ℕ}
use Prim.Native.Char.{Char, code}
use Prim.Native.String.{String}
use mathlib.Core.Bool.{Bool, true, ◌||◌, ◌&&◌}
use mathlib.Core.List.{List, [], ◌∷◌}
use agent_session_harness.Prelude.Tests.{leb, ◌==◌, if◌then◌else◌}
use agent_session_harness.Prelude.Lists.{length}

abbrev pub codes : String → List ℕ
codes String.[] = []
codes (String.◌∷◌ c s) = code c ∷ codes s

abbrev pub text_length : String → ℕ
text_length s = length (codes s)

-- `str.isspace` of one character.
abbrev pub is_space : ℕ → Bool
is_space c =
    (leb 9 c && leb c 13)
    || (leb 28 c && leb c 32)
    || (c == 133)
    || (c == 160)
    || (c == 5760)
    || (leb 8192 c && leb c 8202)
    || (c == 8232)
    || (c == 8233)
    || (c == 8239)
    || (c == 8287)
    || (c == 12288)

-- `not text.strip()`
abbrev pub is_blank : String → Bool
is_blank String.[] = true
is_blank (String.◌∷◌ c s) = is_space (code c) && is_blank s

-- Between one character and the limit.
abbrev pub is_within : ℕ → String → Bool
is_within limit text = leb 1 (text_length text) && leb (text_length text) limit

-- `text.strip()`, by its two ends.
abbrev pub strip_left : String → String
strip_left String.[] = ""
strip_left (String.◌∷◌ c s) =
    let rest = strip_left s in if is_space (code c) then rest else String.◌∷◌ c s

abbrev pub keep_left : Char → String → String
keep_left c String.[] = if is_space (code c) then "" else String.◌∷◌ c ""
keep_left c (String.◌∷◌ d s) = String.◌∷◌ c (String.◌∷◌ d s)

abbrev pub strip_right : String → String
strip_right String.[] = ""
strip_right (String.◌∷◌ c s) = keep_left c (strip_right s)

abbrev pub strip : String → String
strip s = strip_right (strip_left s)
