-- ===== src/Tests/Json.antt =====
-- The theorems on the JSON of generation types, at concrete ones.
use teltonika.Prelude.{◌≡◌, arith, inl, ok, and_then}
use teltonika.Json.{marshal_json, unmarshal_json}
use teltonika.Json.RoundTrip.{unmarshal_json-marshal_json}

unmarshal_json-marshal_json_example : and_then (marshal_json 4) unmarshal_json ≡ ok 4
unmarshal_json-marshal_json_example = unmarshal_json-marshal_json 4 (inl (omega arith))
