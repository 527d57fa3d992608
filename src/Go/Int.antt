-- ===== src/Go/Int.antt =====
-- Go's `int` where it may be negative.
use zchunk.Prelude.{ℕ, zero, suc, Option, none, some}

pub data ℤ : Type 0 where
  pos negsuc : ℕ → ℤ

-- A number above zero.
unfoldable pub positive : ℤ → Option ℕ
positive (pos zero) = none
positive (pos (suc n)) = some (suc n)
positive (negsuc n) = none
