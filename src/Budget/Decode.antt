-- ===== src/Budget/Decode.antt =====
-- internal/proxy/binary_budget.go: the arrays of a response are counted before it is decoded.
-- Cancellation of the request, which the loop tests now and then, is left out.
use loki_vl_proxy.Prelude.{
  ℕ, ◌-◌, Bool, true, false, ◌&&◌, List, [], ◌∷◌, if◌then◌else◌, ltb, ◌==◌, length,
}

abbrev pub max_buffered_backend_body_bytes : ℕ
max_buffered_backend_body_bytes = 67108864

pub data DecodeError : Type 0 where
  exceeds_byte_limit : DecodeError
  exceeds_array_budget : DecodeError

-- The arrays that are left, or the error.
pub data Decoded : Type 0 where
  left : ℕ → Decoded
  refused : DecodeError → Decoded

-- The loop, with `quoted`, `escaped` and the arrays left.
unfoldable pub count_arrays : Bool → Bool → ℕ → List ℕ → Decoded
count_arrays quoted escaped arrays [] = left arrays
count_arrays true true arrays (c ∷ cs) = count_arrays true false arrays cs
count_arrays true false arrays (c ∷ cs) =
    count_arrays (if c == 34 then false else true) (c == 92) arrays cs
count_arrays false escaped arrays (c ∷ cs) =
    let more = count_arrays (c == 34) escaped (if c == b'[' then arrays - 1 else arrays) cs in
    if (c == b'[') && (arrays == 0) then refused exceeds_array_budget else more

unfoldable pub check_binary_decode_budget : ℕ → List ℕ → Decoded
unfolding count_arrays
check_binary_decode_budget arrays body =
    if ltb max_buffered_backend_body_bytes (length body)
    then refused exceeds_byte_limit
    else count_arrays false false arrays body
