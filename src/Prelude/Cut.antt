-- ===== src/Prelude/Cut.antt =====
-- `text.split(",", 1)`.
use Prim.Native.Char.{Char, char, code}
use Prim.Native.String.append
use Prim.Native.String.{String, [], ◌∷◌, ◌++◌}
use mathlib.Core.Path.{◌≡◌, ap, ◌∙◌}
use mathlib.Core.Bool.{false}
use mathlib.Core.Option.{Option, none, some}
use noc_iq_be.Prelude.Tests.{◌==◌, if◌then◌else◌}

abbrev prefix : Char → String × Option String → String × Option String
prefix c (head, tail) = (c ∷ head, tail)

-- The text before the first comma and, if there is one, the text after it.
unfoldable pub split_comma : String → String × Option String
split_comma [] = ("", none)
split_comma (c ∷ s) =
    let rest = split_comma s in if code c == 44 then ("", some s) else prefix c rest

abbrev pub NoComma : String → Type 0
NoComma [] = Unit
NoComma (c ∷ s) = (code c == 44 ≡ false) × NoComma s

comma : Char
comma = char 44 tt

starts : (b : String) → "," ++ b ≡ comma ∷ b
unfolding comma
starts b = append.cons comma "" b ∙ ap (λ (s : String). comma ∷ s) (append.nil b)

pub split_comma-join : (a b : String) → NoComma a → split_comma (a ++ ("," ++ b)) ≡ (a, some b)
unfolding split_comma comma
split_comma-join [] b h = ap split_comma (append.nil ("," ++ b) ∙ starts b)
split_comma-join (c ∷ s) b (h, k) =
    ap split_comma (append.cons c s ("," ++ b)) ∙ rw h (ap (prefix c) (split_comma-join s b k))
