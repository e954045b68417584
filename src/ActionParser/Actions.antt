-- ===== src/ActionParser/Actions.antt =====
-- src/agent/action_parser.cpp: what every parsed answer has, and the call that a model writes as JSON.
use runi.Prelude.{
  ◌≡◌, refl, Bool, true, false, Option, none, some, [], Bytes, bytes, if◌then◌else◌, length,
  is_empty, starts_with, has_substring, Bool-cases, Option-cases, inl, inr,
}
use runi.Error.{Result, success, failure}
use runi.Text.{trim}
use runi.Json.Value.{JsonValue, null, bool, integer, real, string, array, object, end, find_field}
use runi.Json.Parser.{parse_json}
use runi.ActionParser.{
  ModelAction, tool_call, retry_request, final_answer, answer, retry, action_precedes_final,
  extract, name_of, call_with, json_call, parse_xml_tool, parse, search_tool, parse_attrs,
}

-- An action with what its receiver relies on: the name of a call and the text of an answer are not empty.
abbrev pub IsAction : {D : Type 0} → ModelAction D → Type 0
IsAction (tool_call name args) = is_empty name ≡ false
IsAction (final_answer text) = is_empty text ≡ false
IsAction (retry_request notice) = starts_with notice (bytes "Runtime notice: ") ≡ true

retry-IsAction : (D : Type 0) (problem : Bytes) → IsAction (retry {D = D} problem)
unfolding retry bytes starts_with
retry-IsAction D problem = refl

if-IsAction :
    {D : Type 0} (b : Bool) (x y : ModelAction D)
    → IsAction x
    → IsAction y
    → IsAction (if b then x else y)
if-IsAction true x y h k = h
if-IsAction false x y h k = k

answer-IsAction : (D : Type 0) (problem text : Bytes) → IsAction (answer {D = D} problem text)
unfolding answer
answer-IsAction D problem text = elim (Bool-cases (is_empty text)) [
  | inl e ↦ rw e (retry-IsAction D problem)
  | inr e ↦ rw e e
]

xml_or_retry :
    (D : Type 0) (raw : Bytes)
    → IsAction {D = D} (elim (parse_xml_tool {D = D} raw) [ none ↦ retry [] | some call ↦ call ])
unfolding parse_xml_tool
xml_or_retry D raw = elim (Option-cases (search_tool raw)) [
  | inl e ↦ rw e (retry-IsAction D [])
  | inr ((text, body), e) ↦
      let name = name_of {D = D} (find_field (bytes "name") (parse_attrs (length text) end text)) in
      elim (Bool-cases (is_empty name)) [
        | inl f ↦ rw e (rw f (retry-IsAction D []))
        | inr f ↦ rw e (rw f f)
      ]
]

module _ {D : Type 0} where
  call_with-IsAction :
      (name : Bytes) (args : Option (JsonValue D))
      → is_empty name ≡ false
      → IsAction (call_with name args)
  unfolding call_with
  call_with-IsAction name none h = h
  call_with-IsAction name (some null) h = h
  call_with-IsAction name (some (object args)) h = h
  call_with-IsAction name (some (bool b)) h = retry-IsAction D []
  call_with-IsAction name (some (integer n)) h = retry-IsAction D []
  call_with-IsAction name (some (real d)) h = retry-IsAction D []
  call_with-IsAction name (some (string s)) h = retry-IsAction D []
  call_with-IsAction name (some (array items)) h = retry-IsAction D []

  json_call-IsAction : (read : Result (JsonValue D)) → IsAction (json_call read)
  unfolding json_call
  json_call-IsAction (failure e) = retry-IsAction D _
  json_call-IsAction (success null) = retry-IsAction D _
  json_call-IsAction (success (bool b)) = retry-IsAction D _
  json_call-IsAction (success (integer n)) = retry-IsAction D _
  json_call-IsAction (success (real d)) = retry-IsAction D _
  json_call-IsAction (success (string s)) = retry-IsAction D _
  json_call-IsAction (success (array items)) = retry-IsAction D _
  json_call-IsAction (success (object fields)) =
      elim (Bool-cases (is_empty (name_of (find_field (bytes "name") fields)))) [
        | inl e ↦ rw e (retry-IsAction D _)
        | inr e ↦ rw e (call_with-IsAction _ (find_field (bytes "args") fields) e)
      ]

  -- Whatever a model answers, what `parse` makes of it is a call with a name that is not empty, a
  -- final answer that is not empty, or a retry whose notice begins with `Runtime notice: `.
  pub parse-IsAction : (strtod : Bytes → Option D) (raw : Bytes) → IsAction (parse strtod raw)
  unfolding parse
  parse-IsAction strtod raw =
      if-IsAction (action_precedes_final raw (bytes "<tool>")) _ _
        (json_call-IsAction (parse_json strtod (extract raw (bytes "tool"))))
        (if-IsAction (action_precedes_final raw (bytes "<tool")) _ _ (xml_or_retry D raw) (
          if-IsAction (has_substring (bytes "<final>") raw) _ _
            (answer-IsAction D _ (trim (extract raw (bytes "final"))))
            (answer-IsAction D _ (trim raw))))
