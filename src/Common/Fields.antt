-- ===== src/Common/Fields.antt =====
-- strings.Fields: the words of a text.
use Prim.Native.Char.{Char, code}
use Prim.Native.String.{String}
use mathlib.Core.Bool.{Bool, ◌&&◌, ◌||◌}
use mathlib.Core.List.{List, [], ◌∷◌}
use oikos.Common.Tests.{leb, ◌==◌, if◌then◌else◌}

-- unicode.IsSpace
unfoldable pub is_space : Char → Bool
is_space c =
    let n = code c in
    leb 9 n && leb n 13
    || n == 32
    || n == 133
    || n == 160
    || n == 5760
    || leb 8192 n && leb n 8202
    || n == 8232
    || n == 8233
    || n == 8239
    || n == 8287
    || n == 12288

abbrev add_word : String → List String → List String
add_word String.[] words = words
add_word (String.◌∷◌ c w) words = String.◌∷◌ c w ∷ words

-- The word that the text begins with, which is empty before a space, and the words after it.
unfoldable pub split_words : String → String × List String
unfolding is_space
split_words String.[] = ("", [])
split_words (String.◌∷◌ c s) =
    let (word, words) = split_words s in
    if is_space c then ("", add_word word words) else (String.◌∷◌ c word, words)

unfoldable pub fields : String → List String
unfolding split_words
fields s = let (word, words) = split_words s in add_word word words
