-- ===== src/Prelude/Errors.antt =====
-- Go's error values: the errors that the program builds and tests for, with `errors.Is` and
-- `errors.As` as walks down the chain of wrapped errors, and results that may fail.
use Prim.Native.Nat.{ℕ}
use Prim.Native.String.{String}
use mathlib.Core.Bool.{Bool, true, false}
use mathlib.Core.Option.{Option, none, some}
use mathlib.Core.Path.{◌≡◌, refl}

pub data Error : Type 0 where
  -- errors.New
  message : String → Error
  -- pgx.ErrNoRows
  no_rows : Error
  -- any other failure of the database or the network
  infrastructure : String → Error
  -- *whatsapp.SendRejection: its code and its reason
  rejection : String → String → Error
  -- *whatsapp.RateLimitExceeded: whether the shop's own budget is spent
  rate_limit_exceeded : Bool → Error
  -- whatsapp.APIError: its code and its message
  api_error : ℕ → String → Error
  -- fmt.Errorf with %w
  wrapped : String → Error → Error
  -- queue.permanentError
  permanent : Error → Error

unfoldable pub as_rejection : Error → Option (String × String)
as_rejection (rejection code reason) = some (code, reason)
as_rejection (wrapped _ e) = as_rejection e
as_rejection (permanent e) = as_rejection e
as_rejection _ = none

-- errors.As for APIError.
unfoldable pub as_api_error : Error → Option (ℕ × String)
as_api_error (api_error code text) = some (code, text)
as_api_error (wrapped _ e) = as_api_error e
as_api_error (permanent e) = as_api_error e
as_api_error _ = none

-- errors.Is for pgx.ErrNoRows.
unfoldable pub is_no_rows : Error → Bool
is_no_rows no_rows = true
is_no_rows (wrapped _ e) = is_no_rows e
is_no_rows (permanent e) = is_no_rows e
is_no_rows _ = false

pub data Result {ℓ} (A : Type ℓ) : Type ℓ where
  ok : A → Result A
  err : Error → Result A

infixl 5 ◌>>=◌
abbrev pub ◌>>=◌ {ℓ κ} : {A : Type ℓ} {B : Type κ} → Result A → (A → Result B) → Result B
ok a >>= f = f a
err e >>= f = err e

-- QueryRow and Scan: the statement's own error, if it fails, or the first row, if there is one.
abbrev pub query_row {ℓ} : {A : Type ℓ} → Option Error → Option A → Result A
query_row (some e) found = err e
query_row none none = err no_rows
query_row none (some a) = ok a

-- Exec: a statement that fails leaves the table as it is.
abbrev pub exec {ℓ} : {A : Type ℓ} → Option Error → A → A → A
exec none before after = after
exec (some e) before after = before

pub found_row {ℓ} :
    {A : Type ℓ} (e : Option Error) (m : Option A) (a : A)
    → e ≡ none
    → m ≡ some a
    → query_row e m ≡ ok a
found_row none m a looked found = rw found refl
found_row (some e) m a looked found = absurd (cc looked)
