-- ===== src/Probe/Detect.antt =====
-- `detect` and `utilization` of agent/internal/gpu/detect.go.
pub mod Report
use gridlink.Prelude.{
  ℕ, Bool, true, false, ◌&&◌, ◌||◌, ◌%◌, ◌^◌, List, [], ◌∷◌, Option, none, some, Result, ok, err,
  ◌==◌, leb, if◌then◌else◌, length,
}
use gridlink.Bytes.{Bytes, bytes_eq, codes, drop}
use gridlink.Bytes.Search.{has_prefix}
use gridlink.Bytes.Decimal.{is_digit}
use gridlink.Probe.{
  Output, parse_uint, ProbeError, no_gpu, unexpected_output, unsupported, GpuReport, Utilization,
  no_utilization,
}
use gridlink.Probe.Smi.{non_empty_lines, split_smi_line}
use gridlink.Probe.Apple.{SpGpu, detect_apple}

-- What the probes find: the environment variable and the system, and what each tool prints.
pub record Machine : Type 0 where
  pub fake_gpu : Bytes
  pub goos : Bytes
  pub query : Output
  pub banner : Output
  pub load : Output
  pub profiler : Option (Option (List SpGpu))
  pub memsize : Output
  pub version : Output

-- The class `\s` of a regular expression.
unfoldable pub is_blank : ℕ → Bool
is_blank b = (b == 9) || (b == 10) || (b == 12) || (b == 13) || (b == 32)

unfoldable pub skip_blanks : Bytes → Bytes
unfolding is_blank
skip_blanks [] = []
skip_blanks (b ∷ s) = let rest = skip_blanks s in if is_blank b then rest else b ∷ s

-- `[0-9.]*`
unfoldable pub number_chars : Bytes → Bytes
unfolding is_digit
number_chars [] = []
number_chars (b ∷ s) = let rest = number_chars s in if is_digit b || (b == 46) then b ∷ rest else []

-- `([0-9][0-9.]*)`
unfoldable pub number_at : Bytes → Option Bytes
unfolding is_digit number_chars
number_at [] = none
number_at (b ∷ s) = if is_digit b then some (b ∷ number_chars s) else none

-- `CUDA Version:\s*([0-9][0-9.]*)` at the start of a text.
unfoldable pub cuda_at : Bytes → Option Bytes
unfolding has_prefix drop skip_blanks number_at
cuda_at s =
    if has_prefix s (codes "CUDA Version:")
    then number_at (skip_blanks (drop s (length (codes "CUDA Version:"))))
    else none

-- The leftmost match.
unfoldable pub cuda_match : Bytes → Bytes
unfolding cuda_at
cuda_match [] = []
cuda_match (b ∷ s) = let rest = cuda_match s in elim (cuda_at (b ∷ s)) [ some v ↦ v | none ↦ rest ]

unfoldable pub cuda_version : Output → Bytes
unfolding cuda_match
cuda_version none = []
cuda_version (some out) = cuda_match out

abbrev pub fake_report : GpuReport
fake_report = record {
  vendor = codes "nvidia";
  model = codes "FAKE GPU (GRIDLINK_FAKE_GPU=1)";
  vram_total_mb = 24_576;
  driver_version = codes "0.0-fake";
  cuda_version = codes "12.4";
  gpu_count = 1;
}

unfoldable pub report_of : ℕ → Output → Option (List Bytes) → Result ProbeError GpuReport
unfolding parse_uint cuda_version
report_of count banner (some (name ∷ vram ∷ driver ∷ rest)) = ok (record {
  vendor = codes "nvidia";
  model = name;
  vram_total_mb = parse_uint vram;
  driver_version = driver;
  cuda_version = cuda_version banner;
  gpu_count = count % 2 ^ 32;
})
report_of count banner _ = err unexpected_output

unfoldable pub detect_smi : Output → List Bytes → Result ProbeError GpuReport
unfolding report_of split_smi_line
detect_smi banner [] = err no_gpu
detect_smi banner (line ∷ lines) = report_of (length (line ∷ lines)) banner (split_smi_line line 3)

unfoldable pub queried : Output → Output → Result ProbeError GpuReport
unfolding detect_smi non_empty_lines
queried none banner = err no_gpu
queried (some out) banner = detect_smi banner (non_empty_lines out)

unfoldable pub detect : Machine → Result ProbeError GpuReport
unfolding bytes_eq detect_apple queried
detect m =
    if bytes_eq m.fake_gpu (codes "1")
    then ok fake_report
    else if bytes_eq m.goos (codes "darwin")
    then detect_apple m.profiler m.memsize m.version
    else queried m.query m.banner

unfoldable pub sample_of : Option (List Bytes) → Result ProbeError Utilization
unfolding parse_uint
sample_of (some (percent ∷ used ∷ degrees ∷ rest)) = ok (record {
  gpu_percent = parse_uint percent % 2 ^ 32;
  vram_used_mb = parse_uint used;
  temperature_c = parse_uint degrees % 2 ^ 32;
})
sample_of _ = err unexpected_output

unfoldable pub sample_smi : List Bytes → Result ProbeError Utilization
unfolding sample_of split_smi_line
sample_smi [] = err no_gpu
sample_smi (line ∷ lines) = sample_of (split_smi_line line 3)

unfoldable pub sampled : Output → Result ProbeError Utilization
unfolding sample_smi non_empty_lines
sampled none = err no_gpu
sampled (some out) = sample_smi (non_empty_lines out)

unfoldable pub utilization : Machine → Result ProbeError Utilization
unfolding bytes_eq sampled
utilization m =
    if bytes_eq m.fake_gpu (codes "1")
    then ok no_utilization
    else if bytes_eq m.goos (codes "darwin")
    then err unsupported
    else sampled m.load
