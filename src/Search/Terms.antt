-- ===== src/Search/Terms.antt =====
-- prefixTsquery of backend/services/search-service/repository.go: a query of to_tsquery from a user's
-- text. Unicode's letters and digits are a parameter.
use mathlib.Core.List as Core
use mathlib.Core.List.{List}
use Prim.Native.Char.{Char, code}
use Prim.Native.String.{String, [], ◌∷◌}
use mathlib.Core.Path.{◌≡◌, refl}
use mathlib.Core.Bool.{Bool, ◌||◌}
use constell.Prelude.Tests.{eqb, leb, if◌then◌else◌}
use constell.Prelude.Text.{is_space, join}

-- A word before other words, if it has characters.
abbrev pub push_word : String → List String → List String
push_word [] ws = ws
push_word (c ∷ w) ws = Core.◌∷◌ (c ∷ w) ws

-- The first word of a text, which may be empty, and the words after it.
abbrev pub first_word : String → String × List String
unfolding is_space
first_word [] = ([], Core.[])
first_word (c ∷ s) =
    let (w, ws) = first_word s in if is_space c then ([], push_word w ws) else (c ∷ w, ws)

-- strings.Fields
unfoldable pub fields : String → List String
unfolding first_word
fields s = let (w, ws) = first_word s in push_word w ws

module _ (is_letter_or_digit : Char → Bool) where
  -- The characters of a word that are kept.
  unfoldable pub token : String → String
  token [] = []
  token (c ∷ s) =
      let rest = token s in if is_letter_or_digit c || eqb (code c) 95 then c ∷ rest else rest

  unfoldable pub tokens : List String → List String
  unfolding token
  tokens Core.[] = Core.[]
  tokens (Core.◌∷◌ w ws) = let rest = tokens ws in push_word (token w) rest

  unfoldable pub terms : List String → String
  unfolding join
  terms Core.[] = ""
  terms (Core.◌∷◌ t Core.[]) = join t ":*"
  terms (Core.◌∷◌ t (Core.◌∷◌ u ts)) =
      let rest = terms (Core.◌∷◌ u ts) in join t (join ":* & " rest)

  -- prefixTsquery
  unfoldable pub prefix_tsquery : String → String
  unfolding fields tokens terms
  prefix_tsquery q = terms (tokens (fields q))

ascii_letter : Char → Bool
ascii_letter c = leb 97 (code c)

two_words : prefix_tsquery ascii_letter " foo  &ba!r && " ≡ "foo:* & bar:*"
unfolding prefix_tsquery ascii_letter
two_words = refl
