-- ===== src/ActionParser.antt =====
-- src/agent/action_parser.cpp: what a model's answer asks for. The two regular expressions are the
-- functions `search_tool` and `match_attr`. The proofs are in the modules below.
pub mod Actions
pub mod Calls
use runi.Prelude.{
  ℕ, zero, suc, ◌+◌, Bool, true, false, ◌||◌, ◌&&◌, not, Option, none, some, List, [], ◌∷◌, ◌++◌,
  Bytes, bytes, ltb, leb, ◌==◌, if◌then◌else◌, length, is_empty, starts_with, has_substring, drop,
  take, eq_bytes,
}
use runi.Error.{Result, success, failure}
use runi.Text.{trim, trim_newlines}
use runi.Json.Value.{
  JsonValue, Fields, null, object, string, end, field, find_field, insert_field, string_or,
}
use runi.Json.Parser.{parse_json}

-- `ModelAction`.
pub data ModelAction (D : Type 0) : Type 0 where
  tool_call : Bytes → Fields D → ModelAction D
  retry_request : Bytes → ModelAction D
  final_answer : Bytes → ModelAction D

-- `std::string_view::find`, with `none` for `npos`.
unfoldable pub find : Bytes → Bytes → Option ℕ
unfolding starts_with
find pattern [] = if is_empty pattern then some 0 else none
find pattern (c ∷ cs) =
    let rest = find pattern cs in
    if starts_with (c ∷ cs) pattern
    then some 0
    else elim rest [ none ↦ none | some n ↦ some (suc n) ]

unfoldable pub action_precedes_final : Bytes → Bytes → Bool
unfolding find
action_precedes_final raw marker = elim (find marker raw) [
  | none ↦ false
  | some action ↦ elim (find (bytes "<final>") raw) [ none ↦ true | some last ↦ ltb action last ]
]

unfoldable pub retry_notice : Bytes → Bytes
retry_notice problem =
    bytes "Runtime notice: "
    ++ ((if is_empty problem then bytes "model returned malformed tool output" else problem)
        ++ bytes
            ". Reply with a valid <tool> call or a non-empty <final> answer. For multi-line files, prefer <tool name=\"write_file\" path=\"file.py\"><content>...</content></tool>.")

unfoldable pub start_tag : Bytes → Bytes
start_tag tag = bytes "<" ++ (tag ++ bytes ">")

unfoldable pub end_tag : Bytes → Bytes
end_tag tag = bytes "</" ++ (tag ++ bytes ">")

-- Up to the end tag, or all of the text when it has none.
unfoldable pub until_tag : Bytes → Bytes → Bytes
unfolding find end_tag
until_tag tag content = elim (find (end_tag tag) content) [
  | none ↦ content
  | some n ↦ take n content
]

unfoldable pub extract : Bytes → Bytes → Bytes
unfolding find until_tag start_tag
extract text tag = elim (find (start_tag tag) text) [
  | none ↦ text
  | some n ↦ trim (until_tag tag (drop (n + length (start_tag tag)) text))
]

unfoldable pub extract_raw : Bytes → Bytes → Bytes
unfolding find until_tag start_tag
extract_raw text tag = elim (find (start_tag tag) text) [
  | none ↦ text
  | some n ↦ until_tag tag (drop (n + length (start_tag tag)) text)
]

-- The bytes before the first `stop`, and those after it.
unfoldable pub split_at : ℕ → Bytes → Option (Bytes × Bytes)
split_at stop [] = none
split_at stop (c ∷ cs) =
    let rest = split_at stop cs in
    if c == stop
    then some ([], cs)
    else elim rest [ none ↦ none | some (before, after) ↦ some (c ∷ before, after) ]

-- `<tool([^>]*)>([\s\S]*?)</tool>` from the first byte on: its two groups.
unfoldable pub match_tool : Bytes → Option (Bytes × Bytes)
unfolding split_at find starts_with
match_tool text =
    if starts_with text (bytes "<tool")
    then (elim (split_at b'>' (drop 5 text)) [
      | none ↦ none
      | some (attrs, body) ↦ elim (find (bytes "</tool>") body) [
        | none ↦ none
        | some n ↦ some (attrs, take n body)
      ]
    ])
    else none

-- `std::regex_search`: the first match from the left.
unfoldable pub search_tool : Bytes → Option (Bytes × Bytes)
unfolding match_tool
search_tool [] = none
search_tool (c ∷ cs) =
    let rest = search_tool cs in
    elim (match_tool (c ∷ cs)) [ none ↦ rest | some groups ↦ some groups ]

unfoldable pub is_letter : ℕ → Bool
is_letter c = (leb b'A' c && leb c b'Z') || ((leb b'a' c && leb c b'z') || (c == b'_'))

unfoldable pub is_word : ℕ → Bool
unfolding is_letter
is_word c = is_letter c || (leb b'0' c && leb c b'9')

-- `\s`.
unfoldable pub is_white : ℕ → Bool
is_white c = (c == b' ') || (leb 9 c && leb c 13)

-- The longest run of bytes with the property, and the rest.
unfoldable pub run_of : (ℕ → Bool) → Bytes → Bytes × Bytes
run_of accept [] = ([], [])
run_of accept (c ∷ cs) =
    let rest = run_of accept cs in if accept c then (c ∷ rest.0, rest.1) else ([], c ∷ cs)

-- `"([^"]*)"|'([^']*)'`.
unfoldable pub quoted : Bytes → Option (Bytes × Bytes)
unfolding split_at
quoted [] = none
quoted (c ∷ cs) = if (c == b'"') || (c == b'\'') then split_at c cs else none

-- The value of an attribute: what follows the name.
unfoldable pub attr_value : Bytes → Option (Bytes × Bytes)
unfolding run_of is_white quoted
attr_value text = elim (run_of is_white text).1 [
  | [] ↦ none
  | c ∷ cs ↦ if c == b'=' then quoted (run_of is_white cs).1 else none
]

-- The expression of `parse_attrs` from the first byte on: name, value and what follows the match.
unfoldable pub match_attr : Bytes → Option (Bytes × Bytes × Bytes)
unfolding run_of is_letter is_word attr_value
match_attr [] = none
match_attr (c ∷ cs) =
    if is_letter c
    then (elim (attr_value (run_of is_word (c ∷ cs)).1) [
      | none ↦ none
      | some (value, rest) ↦ some ((run_of is_word (c ∷ cs)).0, value, rest)
    ])
    else none

-- The fields of a map from texts to texts; the fuel is the number of bytes, of which a match takes some.
unfoldable pub parse_attrs : {D : Type 0} → ℕ → Fields D → Bytes → Fields D
unfolding match_attr insert_field
parse_attrs zero attrs text = attrs
parse_attrs (suc fuel) attrs [] = attrs
parse_attrs (suc fuel) attrs (c ∷ cs) = elim (match_attr (c ∷ cs)) [
  | none ↦ parse_attrs fuel attrs cs
  | some (name, value, rest) ↦ parse_attrs fuel (insert_field name (string value) attrs) rest
]

module _ {D : Type 0} where
  -- `erase`.
  unfoldable pub erase : Bytes → Fields D → Fields D
  unfolding eq_bytes
  erase key end = end
  erase key (field k v fields) =
      let rest = erase key fields in if eq_bytes k key then fields else field k v rest

  -- The loop over the tags that may stand in the body.
  unfoldable pub tagged_args : List Bytes → Bytes → Fields D → Fields D
  unfolding has_substring start_tag extract_raw insert_field
  tagged_args [] body args = args
  tagged_args (key ∷ keys) body args = tagged_args keys body (
      if has_substring (start_tag key) body
      then insert_field key (string (extract_raw body key)) args
      else args)

  -- An argument that is the body itself when it is not given.
  unfoldable pub body_arg : Bytes → Bytes → Fields D → Fields D
  unfolding find_field insert_field
  body_arg key value args = elim (find_field key args) [
    | some given ↦ args
    | none ↦ insert_field key (string value) args
  ]

  unfoldable pub xml_args : Bytes → Bytes → Fields D → Fields D
  unfolding tagged_args body_arg trim_newlines
  xml_args name body attrs =
      let args =
        tagged_args
          (bytes "content"
            ∷ bytes "old_text"
            ∷ bytes "new_text"
            ∷ bytes "command"
            ∷ bytes "task"
            ∷ bytes "pattern"
            ∷ bytes "path"
            ∷ [])
          body attrs in
      let text = trim_newlines body in
      let written =
        if eq_bytes name (bytes "write_file") && not (is_empty text)
        then body_arg (bytes "content") text args
        else args in
      if eq_bytes name (bytes "delegate") && not (is_empty text)
      then body_arg (bytes "task") (trim text) written
      else written

  -- The text of an attribute or of a `name`.
  unfoldable pub name_of : Option (JsonValue D) → Bytes
  unfolding string_or
  name_of none = []
  name_of (some value) = trim (string_or [] value)

  unfoldable pub parse_xml_tool : Bytes → Option (ModelAction D)
  unfolding search_tool parse_attrs find_field name_of xml_args erase
  parse_xml_tool raw = elim (search_tool raw) [
    | none ↦ none
    | some (text, body) ↦
        let attrs = parse_attrs (length text) end text in
        let name = name_of (find_field (bytes "name") attrs) in
        if is_empty name
        then none
        else some (tool_call name (xml_args name body (erase (bytes "name") attrs)))
  ]

  unfoldable pub retry : Bytes → ModelAction D
  unfolding retry_notice
  retry problem = retry_request (retry_notice problem)

  -- The `args` of a call.
  unfoldable pub call_with : Bytes → Option (JsonValue D) → ModelAction D
  unfolding retry
  call_with name none = tool_call name end
  call_with name (some null) = tool_call name end
  call_with name (some (object args)) = tool_call name args
  call_with name (some _) = retry []

  unfoldable pub json_call : Result (JsonValue D) → ModelAction D
  unfolding retry call_with name_of find_field
  json_call (failure e) = retry (bytes "model returned malformed tool JSON")
  json_call (success (object fields)) =
      let name = name_of (find_field (bytes "name") fields) in
      if is_empty name
      then retry (bytes "tool payload is missing a tool name")
      else call_with name (find_field (bytes "args") fields)
  json_call (success _) = retry (bytes "tool payload must be a JSON object")

  -- A text as the final answer, unless it is empty.
  unfoldable pub answer : Bytes → Bytes → ModelAction D
  unfolding retry
  answer problem text = if is_empty text then retry problem else final_answer text

  -- `parse`.
  unfoldable pub parse : (Bytes → Option D) → Bytes → ModelAction D
  unfolding action_precedes_final json_call extract parse_json parse_xml_tool retry answer
      has_substring trim
  parse strtod raw =
      if action_precedes_final raw (bytes "<tool>")
      then json_call (parse_json strtod (extract raw (bytes "tool")))
      else if action_precedes_final raw (bytes "<tool")
      then (elim (parse_xml_tool raw) [ none ↦ retry [] | some call ↦ call ])
      else if has_substring (bytes "<final>") raw
      then answer (bytes "model returned an empty <final> answer")
          (trim (extract raw (bytes "final")))
      else answer (bytes "model returned an empty response") (trim raw)
