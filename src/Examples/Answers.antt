-- ===== src/Examples/Answers.antt =====
-- Answers of a model, and the actions that they ask for.
use runi.Prelude.{
  arith, Bool, true, not, ◌&&◌, ◌==◌, subst, sym, [], ◌∷◌, to_string, ◌≡◌, refl, false, none, Bytes,
  bytes, is_empty, starts_with, has_substring, eq_bytes, less,
}
use runi.Json.Value.{Fields, pos, integer, object, string, end, field, insert_field}
use runi.ActionParser.{tool_call, final_answer, parse}
use runi.ActionParser.Actions.{IsAction, parse-IsAction}
use runi.ActionParser.Calls.{called, NoTag, parse-called}
use runi.Json.RoundTrip.Mapped.{FieldsReadable}
use runi.Json.Printer.{dump_json}
use runi.Text.{trim}
use runi.Examples.Documents.{no_real}

json_answer :
    parse no_real (bytes "I read.<tool>{\"name\":\" read_file \",\"args\":{\"path\":\"a\"}}</tool>")
    ≡ tool_call (bytes "read_file") (field (bytes "path") (string (bytes "a")) end)
unfolding parse bytes is_empty starts_with has_substring eq_bytes less
json_answer = refl

xml_answer :
    parse no_real
      (bytes "<tool name='write_file' path = \"a.py\"><content>x > y\n</content></tool>")
    ≡ tool_call (bytes "write_file") (
        field
          (bytes "content")
          (string (bytes "x > y\n"))
          (field (bytes "path") (string (bytes "a.py")) end))
unfolding parse bytes is_empty starts_with has_substring eq_bytes less
xml_answer = refl

body_answer :
    parse no_real (bytes "<tool name=\"delegate\">\n look \n</tool>")
    ≡ tool_call (bytes "delegate") (field (bytes "task") (string (bytes "look")) end)
unfolding parse bytes is_empty starts_with has_substring eq_bytes less
body_answer = refl

plain_answer : parse no_real (bytes " Done.\n") ≡ final_answer (bytes "Done.")
unfolding parse bytes is_empty starts_with has_substring
plain_answer = refl

marked_answer :
    parse no_real (bytes "<final>Use <tool></final> later") ≡ final_answer (bytes "Use <tool>")
unfolding parse bytes is_empty starts_with has_substring
marked_answer = refl

-- An example of the prompt prefix: neither object has its keys in their order.
abbrev range_args : Fields Bytes
range_args =
    field (bytes "path") (string (bytes "README.md"))
      (field (bytes "start") (integer (pos 1)) (field (bytes "end") (integer (pos 80)) end))

abbrev call_fields : Fields Bytes
call_fields =
    field (bytes "name") (string (bytes "read_file")) (field (bytes "args") (object range_args) end)

call_text :
    dump_json (λ d. d) none false (object call_fields)
    ≡ bytes "{\"name\":\"read_file\",\"args\":{\"path\":\"README.md\",\"start\":1,\"end\":80}}"
unfolding bytes dump_json to_string
call_text = refl

untagged : Bytes → Bool
untagged [] = true
untagged (c ∷ cs) = not (c == b'<') && untagged cs

untagged-NoTag : (text : Bytes) → untagged text ≡ true → NoTag text
unfolding untagged
untagged-NoTag [] h = tt
untagged-NoTag (c ∷ cs) h = (ground arith, untagged-NoTag cs (ground arith))

call_text-NoTag : NoTag (dump_json (λ d. d) none false (object call_fields))
unfolding untagged bytes
call_text-NoTag = subst NoTag (sym call_text) (
    untagged-NoTag
      (bytes "{\"name\":\"read_file\",\"args\":{\"path\":\"README.md\",\"start\":1,\"end\":80}}")
      refl)

call_fields-FieldsReadable : FieldsReadable call_fields
call_fields-FieldsReadable = (tt, ((tt, (omega arith, (omega arith, tt))), tt))

parse-called_example :
    parse no_real (called (dump_json (λ d. d) none false (object call_fields)))
    ≡ tool_call (bytes "read_file") (
        field (bytes "end") (integer (pos 80)) (
          field
            (bytes "path")
            (string (bytes "README.md"))
            (field (bytes "start") (integer (pos 1)) end)))
unfolding bytes trim is_empty less eq_bytes insert_field
parse-called_example =
    parse-called (λ d. d) no_real none (bytes "read_file") range_args call_fields
      call_fields-FieldsReadable refl refl refl call_text-NoTag

parse-IsAction_example : IsAction (parse no_real (bytes "<tool>{}</tool>"))
parse-IsAction_example = parse-IsAction no_real (bytes "<tool>{}</tool>")
