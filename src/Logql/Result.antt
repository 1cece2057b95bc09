-- ===== src/Logql/Result.antt =====
-- internal/logql/parser.go: what a run of the parser gives, and what is said of it.
use loki_vl_proxy.Prelude.{ℕ, ◌≡◌, ◌≢◌, refl, subst, Bool, true, false, List, if◌then◌else◌}
use loki_vl_proxy.Logql.Token.{TokType, Token}

-- The errors, each with what its message prints.
pub data ParseFailure : Type 0 where
  -- `newParseError(line, col, msg)`
  parse_error : ℕ → ℕ → List ℕ → ParseFailure
  empty_expression : ParseFailure
  unexpected_token : Token → ParseFailure
  trailing_token : List ℕ → ℕ → ParseFailure
  expected : TokType → Token → ParseFailure
  invalid_number : List ℕ → ParseFailure
  expected_number_after_minus : ParseFailure
  unterminated_call : List ℕ → ParseFailure
  unexpected_identifier : List ℕ → ParseFailure
  expected_label_name : ParseFailure → ParseFailure
  expected_label_operator : Token → ParseFailure
  expected_label_value : List ℕ → ParseFailure → ParseFailure
  expected_stage_name : TokType → ParseFailure
  identifier_after : List ℕ → List ℕ → ParseFailure
  unexpected_call : List ℕ → ParseFailure
  expected_unwrap_label : ParseFailure
  expected_string : Token → ParseFailure
  expected_string_got_ident : List ℕ → ParseFailure
  invalid_ip_pattern : List ℕ → ParseFailure
  invalid_ip_operation : ParseFailure
  empty_drop_or_keep : ParseFailure
  invalid_phi : ParseFailure
  expected_phi_after_minus : ParseFailure
  expected_range : Token → ParseFailure
  expected_duration : ParseFailure → ParseFailure
  expected_offset : ParseFailure → ParseFailure
  expected_paren_after_at : TokType → ParseFailure
  expected_timestamp : List ℕ → ParseFailure
  expected_k : List ℕ → ParseFailure
  expected_comma_after_k : List ℕ → ParseFailure
  not_a_log_query : ParseFailure

-- `out_of_fuel` has no counterpart in the code.
pub data Result {ℓ} (A : Type ℓ) : Type ℓ where
  ok : A → Result A
  failed : ParseFailure → Result A
  out_of_fuel : Result A

infixl 5 ◌>>=◌ ◌>>◌
abbrev pub ◌>>=◌ {ℓ κ} : {A : Type ℓ} {B : Type κ} → Result A → (A → Result B) → Result B
ok a >>= f = f a
failed e >>= f = failed e
out_of_fuel >>= f = out_of_fuel

abbrev pub ◌>>◌ {ℓ κ} : {A : Type ℓ} {B : Type κ} → Result A → Result B → Result B
m >> k = m >>= λ _. k

-- A failure with more said around it.
unfoldable pub wrap {ℓ} : {A : Type ℓ} → (ParseFailure → ParseFailure) → Result A → Result A
wrap f (ok a) = ok a
wrap f (failed e) = failed (f e)
wrap f out_of_fuel = out_of_fuel

-- Of a run: its fuel was enough, and what it returns, if it does not fail, satisfies `P`.
unfoldable pub Yields {ℓ} : {A : Type ℓ} → (A → Type 0) → Result A → Type 0
Yields P (ok a) = P a
Yields P (failed e) = Unit
Yields P out_of_fuel = ⊥

module _ {ℓ} {A : Type ℓ} where
  pub Yields_terminates : (P : A → Type 0) (r : Result A) → Yields P r → r ≢ out_of_fuel
  unfolding Yields
  Yields_terminates P (ok a) y = cc
  Yields_terminates P (failed e) y = cc
  Yields_terminates P out_of_fuel y = elim y [ ]

  pub gives : (P : A → Type 0) (a : A) → P a → Yields P (ok a)
  unfolding Yields
  gives P a h = h

  pub fails : (P : A → Type 0) (e : ParseFailure) → Yields P (failed e)
  unfolding Yields
  fails P e = tt

  pub Yields_ok : (P : A → Type 0) (r : Result A) (a : A) → Yields P r → r ≡ ok a → P a
  unfolding Yields
  Yields_ok P (ok b) a h e = let same : b ≡ a = cc in subst P same h
  Yields_ok P (failed f) a h e = cc
  Yields_ok P out_of_fuel a h e = cc

  pub Yields_if :
      (P : A → Type 0) (b : Bool) (r r' : Result A)
      → (b ≡ true → Yields P r)
      → (b ≡ false → Yields P r')
      → Yields P (if b then r else r')
  Yields_if P true r r' y n = y refl
  Yields_if P false r r' y n = n refl

  pub Yields-wrap :
      (P : A → Type 0) (f : ParseFailure → ParseFailure) (r : Result A)
      → Yields P r
      → Yields P (wrap f r)
  unfolding Yields wrap
  Yields-wrap P f (ok a) y = y
  Yields-wrap P f (failed e) y = tt
  Yields-wrap P f out_of_fuel y = y

  pub Yields_bind {ℓ'} :
      {B : Type ℓ'} (P : A → Type 0) (Q : B → Type 0) (r : Result A) (f : A → Result B)
      → Yields P r
      → ((a : A) → P a → Yields Q (f a))
      → Yields Q (r >>= f)
  unfolding Yields
  Yields_bind P Q (ok a) f y k = k a y
  Yields_bind P Q (failed e) f y k = tt
  Yields_bind P Q out_of_fuel f y k = elim y [ ]

  pub Yields_mono :
      (P Q : A → Type 0) (r : Result A) → ((a : A) → P a → Q a) → Yields P r → Yields Q r
  unfolding Yields
  Yields_mono P Q (ok a) k y = k a y
  Yields_mono P Q (failed e) k y = tt
  Yields_mono P Q out_of_fuel k y = elim y [ ]

pub bind_assoc {ℓ} :
    {A B C : Type ℓ} (r : Result A) (f : A → Result B) (g : B → Result C)
    → ((r >>= f) >>= g) ≡ (r >>= λ a. f a >>= g)
bind_assoc (ok a) f g = refl
bind_assoc (failed e) f g = refl
bind_assoc out_of_fuel f g = refl

-- Of a run: what it returns, if it returns something, satisfies `P`.
unfoldable pub IfOk {ℓ} : {A : Type ℓ} → (A → Type 0) → Result A → Type 0
IfOk P (ok a) = P a
IfOk P (failed e) = Unit
IfOk P out_of_fuel = Unit

module _ {ℓ} {A : Type ℓ} where
  pub IfOk-ok : (P : A → Type 0) (a : A) → P a → IfOk P (ok a)
  unfolding IfOk
  IfOk-ok P a h = h

  pub IfOk-failed : (P : A → Type 0) (e : ParseFailure) → IfOk P (failed e)
  unfolding IfOk
  IfOk-failed P e = tt

  pub IfOk-fuel : (P : A → Type 0) → IfOk P out_of_fuel
  unfolding IfOk
  IfOk-fuel P = tt

  -- What holds of everything holds of what is returned.
  pub IfOk-always : (P : A → Type 0) (r : Result A) → ((a : A) → P a) → IfOk P r
  unfolding IfOk
  IfOk-always P (ok a) h = h a
  IfOk-always P (failed e) h = tt
  IfOk-always P out_of_fuel h = tt

  pub IfOk-if :
      (P : A → Type 0) (b : Bool) (r r' : Result A)
      → (b ≡ true → IfOk P r)
      → (b ≡ false → IfOk P r')
      → IfOk P (if b then r else r')
  IfOk-if P true r r' y n = y refl
  IfOk-if P false r r' y n = n refl

  pub IfOk-bind {κ} :
      {B : Type κ} (P : A → Type 0) (Q : B → Type 0) (r : Result A) (f : A → Result B)
      → IfOk P r
      → ((a : A) → P a → IfOk Q (f a))
      → IfOk Q (r >>= f)
  unfolding IfOk
  IfOk-bind P Q (ok a) f y k = k a y
  IfOk-bind P Q (failed e) f y k = tt
  IfOk-bind P Q out_of_fuel f y k = tt

  pub IfOk-then {κ} :
      {B : Type κ} (Q : B → Type 0) (r : Result A) (f : A → Result B)
      → ((a : A) → IfOk Q (f a))
      → IfOk Q (r >>= f)
  unfolding IfOk
  IfOk-then Q (ok a) f k = k a
  IfOk-then Q (failed e) f k = tt
  IfOk-then Q out_of_fuel f k = tt

  pub IfOk_use : (P : A → Type 0) (r : Result A) (a : A) → IfOk P r → r ≡ ok a → P a
  unfolding IfOk
  IfOk_use P (ok b) a h e = let same : b ≡ a = cc in subst P same h
  IfOk_use P (failed f) a h e = cc
  IfOk_use P out_of_fuel a h e = cc
