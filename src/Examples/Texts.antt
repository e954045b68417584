-- ===== src/Examples/Texts.antt =====
-- Texts that are cut and trimmed.
use runi.Prelude.{is_empty, ◌≡◌, ◌≤◌, refl, bytes, to_string, [], ◌∷◌}
use runi.Error.{ErrorCategory, category_name}
use runi.Text.{
  utf8_length, utf8_prefix, is_continuation, clip, middle, trim, trim_newlines, is_blank, join,
  lower_ascii,
}
use runi.Text.Utf8.{utf8_length-middle}
use runi.Text.Lines.{split_lines, AreLines, split_lines-join}
use runi.Text.Trim.{Stripped, trim-Stripped}

utf8_length-middle_example : utf8_length (middle (bytes "hello world") 7) ≤ 7
utf8_length-middle_example = utf8_length-middle (bytes "hello world") 7

trim-Stripped_example : Stripped is_blank (bytes " a b ") (trim (bytes " a b "))
trim-Stripped_example = trim-Stripped (bytes " a b ")

clipped : clip (bytes "hello") 3 ≡ bytes "hel\n...[truncated 2 chars]"
unfolding clip utf8_length utf8_prefix is_continuation bytes to_string
clipped = refl

newlines_off : trim_newlines (bytes "\n a\n") ≡ bytes " a"
unfolding trim_newlines bytes
newlines_off = refl

joined : join (bytes "a" ∷ bytes "b" ∷ []) (bytes ", ") ≡ bytes "a, b"
unfolding join bytes
joined = refl

lowered : lower_ascii (bytes "A-z") ≡ bytes "a-z"
unfolding lower_ascii bytes
lowered = refl

named_category : category_name ErrorCategory.path_violation ≡ bytes "path_violation"
unfolding category_name
named_category = refl

-- The three kinds of line ends, and no empty line at the end.
split : split_lines (bytes "a\r\nb\rc\n") ≡ bytes "a" ∷ bytes "b" ∷ bytes "c" ∷ []
unfolding split_lines bytes is_empty
split = refl

two_lines : AreLines (bytes "ab" ∷ [] ∷ bytes "c" ∷ [])
unfolding bytes is_empty
two_lines = ((refl, refl, (refl, refl, tt)), (tt, ((refl, refl, tt), refl)))

split_lines-join_example :
    split_lines (join (bytes "ab" ∷ [] ∷ bytes "c" ∷ []) (bytes "\n"))
    ≡ bytes "ab" ∷ [] ∷ bytes "c" ∷ []
split_lines-join_example = split_lines-join (bytes "ab" ∷ [] ∷ bytes "c" ∷ []) two_lines
