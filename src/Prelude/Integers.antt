-- ===== src/Prelude/Integers.antt =====
-- Differences of native numbers, which may be negative.
use Prim.Native.Nat.{ℕ, ◌-◌}
use g_pcap.Prelude.Tests.{leb, if◌then◌else◌}

-- `pos n` is n; `negsuc n` is -(n + 1).
pub data ℤ : Type 0 where
  pos negsuc : ℕ → ℤ

-- `a - b`
unfoldable pub minus : ℕ → ℕ → ℤ
minus a b = if leb b a then pos (a - b) else negsuc (b - a - 1)
