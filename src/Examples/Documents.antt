-- ===== src/Examples/Documents.antt =====
-- A JSON document that is printed and parsed, and texts that the parser refuses.
use runi.Prelude.{
  arith, ◌≡◌, ◌⊎◌, refl, true, false, Option, none, some, [], ◌∷◌, Bytes, bytes, starts_with,
  to_string, is_empty, eq_bytes, less,
}
use runi.Error.{success, failure, make_error, parse}
use runi.Json.Value.{
  JsonValue, negsuc, null, bool, integer, real, string, array, object, nil, cons, end, field,
}
use runi.Json.Parser.{parse_json}
use runi.Json.Terminates.{parse_json-returns}
use runi.Json.RoundTrip.Values.{parse_json-dump_json}
use runi.Json.Printer.{double_text, dump_json, dump_compatible_json}

-- No text stands for a `double` here.
abbrev pub no_real : Bytes → Option Bytes
no_real token = none

abbrev document : JsonValue Bytes
document = object (
    field (bytes "a") (array (cons (integer (negsuc 6)) (cons (bool true) (cons null nil))))
      (field (bytes "b") (string (bytes "x\"\n")) (field (bytes "c") (object end) end)))

printed :
    dump_json (λ d. d) none false document
    ≡ bytes "{\"a\":[-7,true,null],\"b\":\"x\\\"\\n\",\"c\":{}}"
unfolding dump_json bytes to_string
printed = refl

compatible :
    dump_compatible_json (λ d. d) false document
    ≡ bytes "{\"a\": [-7, true, null], \"b\": \"x\\\"\\n\", \"c\": {}}"
unfolding dump_compatible_json bytes to_string
compatible = refl

read_back :
    parse_json no_real (bytes " {\"b\" : \"x\\\"\\n\", \"a\":[-7,true, null],\"c\":{}}")
    ≡ success document
unfolding parse_json bytes starts_with is_empty eq_bytes less
read_back = refl

wide :
    parse_json no_real (bytes "\"\\u00e9\\ud83d\\ude00\"")
    ≡ success (string (0xc3 ∷ 0xa9 ∷ 0xf0 ∷ 0x9f ∷ 0x98 ∷ 0x80 ∷ []))
unfolding parse_json bytes starts_with is_empty
wide = refl

-- A low surrogate alone is read as three bytes, which are no UTF-8.
lone_low : parse_json no_real (bytes "\"\\udc00\"") ≡ success (string (0xed ∷ 0xb0 ∷ 0x80 ∷ []))
unfolding parse_json bytes starts_with is_empty
lone_low = refl

-- A number without a point gets one.
pointed : dump_json (double_text some) none false (real (bytes "3")) ≡ bytes "3.0"
unfolding dump_json double_text bytes
pointed = refl

wide_printed :
    dump_json (λ d. d) none true (string (0xc3 ∷ 0xa9 ∷ 0xf0 ∷ 0x9f ∷ 0x98 ∷ 0x80 ∷ 0xff ∷ []))
    ≡ bytes "\"\\u00e9\\ud83d\\ude00\\ufffd\""
unfolding dump_json bytes
wide_printed = refl

refuses_comma :
    parse_json no_real (bytes "[1,]")
    ≡ failure (make_error parse (bytes "invalid_json") (bytes "unexpected JSON token at byte 3"))
unfolding parse_json bytes starts_with is_empty to_string
refuses_comma = refl

parse_json-dump_json_example :
    parse_json no_real (dump_json (λ d. d) (some 2) false document) ≡ success document
unfolding less bytes
parse_json-dump_json_example =
    parse_json-dump_json (λ d. d) no_real (some 2) document
      ((refl, (refl, tt)), (omega arith, (tt, (tt, tt))), ((refl, tt), tt, (tt, tt, tt)))

parse_json-returns_example :
    ((v : JsonValue Bytes) × (parse_json no_real (bytes "{\"a\":[1") ≡ success v))
    ⊎ ((message : Bytes) × (parse_json no_real (bytes "{\"a\":[1")
          ≡ failure (make_error parse (bytes "invalid_json") message)))
parse_json-returns_example = parse_json-returns no_real (bytes "{\"a\":[1")
