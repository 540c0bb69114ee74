-- ===== src/Probe.antt =====
-- agent/internal/gpu/detect.go and agent/internal/sysinfo/sysinfo.go: what an agent reports of its
-- machine. A tool that is run is outside: what it prints, or its failure, is given; so is what the
-- JSON decoder reads. Texts of errors are left out.
pub mod Smi
pub mod Apple
pub mod Detect
pub mod Host
mod Tests
use gridlink.Prelude.{
  ℕ, String, Bool, true, false, ◌==◌, List, [], ◌∷◌, Option, none, some, if◌then◌else◌, ◌≡◌, refl,
  ◌<◌, ◌^◌, arith, ap, ◌∙◌,
}
use gridlink.Bytes.{Bytes}
use gridlink.Bytes.Fields.{split, trim_space}
use gridlink.Bytes.Decimal.{format, parse_uint64}

-- The standard output of a command, or `none` where it failed.
abbrev pub Output : Type 0
Output = Option Bytes

-- `parseUint` of both files
unfoldable pub parse_uint : Bytes → ℕ
unfolding trim_space parse_uint64
parse_uint s = elim (parse_uint64 (trim_space s)) [ none ↦ 0 | some v ↦ v ]

pub data ProbeError : Type 0 where
  no_gpu unexpected_output bad_json unsupported : ProbeError

pub record GpuReport : Type 0 where
  pub vendor : Bytes
  pub model : Bytes
  pub vram_total_mb : ℕ
  pub driver_version : Bytes
  pub cuda_version : Bytes
  pub gpu_count : ℕ

pub record Utilization : Type 0 where
  pub gpu_percent : ℕ
  pub vram_used_mb : ℕ
  pub temperature_c : ℕ

abbrev pub no_utilization : Utilization
no_utilization = record { gpu_percent = 0; vram_used_mb = 0; temperature_c = 0 }
