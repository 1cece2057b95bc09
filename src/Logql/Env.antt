-- ===== src/Logql/Env.antt =====
-- What the LogQL parser uses of the libraries that Go has: the classes of code points, float64
-- and IP addresses. `F` stands for float64.
use loki_vl_proxy.Prelude.{ℕ, Bool, Option, List}
use loki_vl_proxy.Logql.Text.{Wide}

pub record Env (F : Type 0) : Type 0 where
  pub classes : Wide
  -- Whether `strconv` prints a code point from 128 on as it is.
  pub printable : ℕ → Bool
  -- `strconv.ParseFloat(s, 64)`
  pub parse_float : List ℕ → Option F
  pub negate : F → F
  pub of_int : ℕ → F
  -- `fmt.Sprintf("%g", x)`
  pub format : F → List ℕ
  -- `netip.ParseAddr`: the length in bits, and the address without its zone as a number.
  pub parse_addr : List ℕ → Option (ℕ × ℕ)
  -- Whether `netip.ParsePrefix` succeeds.
  pub parse_prefix : List ℕ → Bool
