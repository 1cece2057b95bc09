-- ===== src/Budget/Tests.antt =====
-- internal/proxy/manual_scan_budget.go and binary_budget.go: runs.
use loki_vl_proxy.Prelude.{◌+◌, ◌-◌, ◌≡◌, ◌≤◌, refl, List, [], ◌∷◌, if◌then◌else◌, ltb, arith}
use loki_vl_proxy.Budget.Scan.{Event, start, retain, finish, run, idle, new_manual_scan_budget}
use loki_vl_proxy.Budget.Conservation.{held_slots, retained_samples, run-idle-le}
use loki_vl_proxy.Budget.Decode.{check_binary_decode_budget, left, refused, exceeds_array_budget}
use loki_vl_proxy.Budget.Document.{
  plain, escaped, spaced, is_json, Value, text, array, item, no_items, object, field, no_fields,
  encode, arrays,
}
use loki_vl_proxy.Budget.Json.{check_binary_decode_budget-encode}

-- Two scans that share a pool of one chunk: the second is refused, the first goes on.
abbrev contended : List Event
contended =
    start
    ∷ retain 0 5000
    ∷ retain 0 4100
    ∷ start
    ∷ retain 0 4
    ∷ retain 1 0
    ∷ finish 1
    ∷ finish 1
    ∷ []

run-idle-le_example :
    ((run contended (idle 4100)).remaining + held_slots (run contended (idle 4100))
      ≡ new_manual_scan_budget 4100)
    × (retained_samples (run contended (idle 4100)) ≤ new_manual_scan_budget 4100)
run-idle-le_example = run-idle-le 4100 contended

-- `{"v[\"" : [ "\u005b", [ ] ] }`
abbrev nested : Value
nested = object (
    field [] (plain 118 ∷ plain 91 ∷ escaped 34 ∷ []) (32 ∷ [])
      (spaced (32 ∷ [])
        (array (
          item
            (spaced (32 ∷ []) (text (escaped 117 ∷ plain 48 ∷ plain 48 ∷ plain 53 ∷ plain 98 ∷ []))
              [])
            (item (spaced (32 ∷ []) (array (no_items (32 ∷ []))) []) (no_items (32 ∷ [])))))
        (32 ∷ []))
      (no_fields []))

check_binary_decode_budget-encode_example :
    check_binary_decode_budget 1 (encode nested)
    ≡ (if ltb 1 (arrays nested) then refused exceeds_array_budget else left (1 - arrays nested))
unfolding is_json encode
check_binary_decode_budget-encode_example =
    check_binary_decode_budget-encode 1 nested refl (omega arith)
