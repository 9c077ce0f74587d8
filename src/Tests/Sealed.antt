-- ===== src/Tests/Sealed.antt =====
-- A toy cipher for the tests: a number in front of a text, in unary.
use Prim.Native.Char.{Char, code}
use Prim.Native.String.{String}
use hsa.Prelude.{ℕ, zero, suc, ◌==◌, if◌then◌else◌, ◌≡◌, refl, ap}

abbrev pub plus : Char
plus = "+"

abbrev pub dot : Char
dot = "."

unfoldable pub seal : ℕ → String → String
seal zero s = String.◌∷◌ dot s
seal (suc n) s = String.◌∷◌ plus (seal n s)

abbrev one_more : ℕ × String → ℕ × String
one_more (n, s) = (suc n, s)

unfoldable pub unseal : String → ℕ × String
unseal String.[] = (0, "")
unseal (String.◌∷◌ c s) = let rest = unseal s in if code c == 43 then one_more rest else (0, s)

pub unseal-seal : (n : ℕ) (s : String) → unseal (seal n s) ≡ (n, s)
unfolding unseal seal
unseal-seal zero s = refl
unseal-seal (suc n) s = ap one_more (unseal-seal n s)

-- A text in front of another: each character after a dot, and a plus at its end.
unfoldable pub escape : String → String → String
escape String.[] rest = String.◌∷◌ plus rest
escape (String.◌∷◌ c s) rest = String.◌∷◌ dot (String.◌∷◌ c (escape s rest))

abbrev one_longer : Char → String × String → String × String
one_longer c (s, rest) = (String.◌∷◌ c s, rest)

unfoldable pub unescape : String → String × String
unescape String.[] = ("", "")
unescape (String.◌∷◌ b String.[]) = ("", "")
unescape (String.◌∷◌ b (String.◌∷◌ c s)) =
    let more = unescape s in if code b == 43 then ("", String.◌∷◌ c s) else one_longer c more

pub unescape-escape : (s rest : String) → unescape (escape s rest) ≡ (s, rest)
unfolding unescape escape
unescape-escape String.[] String.[] = refl
unescape-escape String.[] (String.◌∷◌ c rest) = refl
unescape-escape (String.◌∷◌ c s) rest = ap (one_longer c) (unescape-escape s rest)
