-- ===== src/Base/Text.antt =====
-- Texts read character by character: the classes that the program's validators and regular
-- expressions use. They accept ASCII characters only, so that a character is a byte.
use Prim.Native.Nat.{ℕ}
use Prim.Native.Char.{code}
use Prim.Native.String.{String}
use mathlib.Core.Bool.{Bool, false, ◌&&◌, ◌||◌}
use mathlib.Core.List.{List, [], ◌∷◌}
use virgil.Base.Tests.{leb, ◌==◌}
use virgil.Base.Lists.{length, all_of}

abbrev pub codes : String → List ℕ
codes String.[] = []
codes (String.◌∷◌ c s) = code c ∷ codes s

abbrev pub is_digit : ℕ → Bool
is_digit c = leb b'0' c && leb c b'9'

abbrev pub is_lower : ℕ → Bool
is_lower c = leb b'a' c && leb c b'z'

abbrev pub is_upper : ℕ → Bool
is_upper c = leb b'A' c && leb c b'Z'

-- `[A-Za-z0-9_.-]`.
unfoldable pub is_label_char : ℕ → Bool
is_label_char c = is_upper c || is_lower c || is_digit c || c == b'_' || c == b'.' || c == b'-'

-- `[a-z0-9_]`.
unfoldable pub is_code_char : ℕ → Bool
is_code_char c = is_lower c || is_digit c || c == b'_'

-- `^[class]{1,n}$`.
abbrev pub matches_up_to : (ℕ → Bool) → ℕ → List ℕ → Bool
matches_up_to p n [] = false
matches_up_to p n (c ∷ cs) = leb (length (c ∷ cs)) n && all_of p (c ∷ cs)
