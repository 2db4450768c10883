-- ===== src/Authority/Decision.antt =====
-- internal/authority/decision.go
use Prim.Native.String.{String}
use mma.Base.{ℕ, Bool, true, false}

pub record Decision : Type 0 where
  pub allowed : Bool
  pub exception_code : ℕ
  pub reason : String

unfoldable pub allow : String → Decision
allow reason = record { allowed = true; exception_code = 0; reason = reason }

unfoldable pub deny : ℕ → String → Decision
deny exception_code reason = record {
  allowed = false;
  exception_code = exception_code;
  reason = reason;
}
