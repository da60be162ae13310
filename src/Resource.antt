-- ===== src/Resource.antt =====
-- internal/resource/limiter.go: resource ceilings; zero means unlimited.
use oikos.Common.Int.{ℤ}

pub record Limits : Type 0 where
  pub cpu_millicores : ℤ
  pub memory_bytes : ℤ
  pub pid_max : ℤ
