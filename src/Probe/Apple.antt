-- ===== src/Probe/Apple.antt =====
-- `detectApple` of agent/internal/gpu/detect.go.
use gridlink.Prelude.{
  ℕ, Bool, not, ◌&&◌, ◌/◌, ◌*◌, List, [], ◌∷◌, ◌++◌, Option, none, some, Result, ok, err, ltb,
  if◌then◌else◌,
}
use gridlink.Bytes.{Bytes, is_nil, bytes_eq, codes}
use gridlink.Bytes.Fields.{trim_space}
use gridlink.Bytes.Decimal.{format}
use gridlink.Probe.{Output, parse_uint, ProbeError, no_gpu, bad_json, GpuReport}

-- `spGPU`
pub record SpGpu : Type 0 where
  pub name : Bytes
  pub model : Bytes
  pub cores : Bytes
  pub device_type : Bytes

-- `sysctl -n hw.memsize`
unfoldable pub unified_memory_mb : Output → ℕ
unfolding parse_uint trim_space
unified_memory_mb none = 0
unified_memory_mb (some out) = parse_uint (trim_space out) / (1024 * 1024)

unfoldable pub macos_version : Output → Bytes
unfolding trim_space
macos_version none = []
macos_version (some out) = let v = trim_space out in if is_nil v then [] else codes "macOS " ++ v

-- The name of an entry, `sppci_model` or `_name`.
unfoldable pub model_of : SpGpu → Bytes
model_of g = if is_nil g.model then g.name else g.model

unfoldable pub with_cores : Bytes → ℕ → Bytes
with_cores model cores =
    if ltb 0 cores then (model ++ codes " (") ++ (format cores ++ codes "-core GPU)") else model

-- An entry that is no GPU, or has no name, is passed over.
unfoldable pub is_usable : SpGpu → Bool
unfolding bytes_eq model_of
is_usable g =
    not (not (is_nil g.device_type) && not (bytes_eq g.device_type (codes "spdisplays_gpu")))
    && not (is_nil (model_of g))

unfoldable pub apple_report : SpGpu → Output → Output → GpuReport
unfolding with_cores model_of parse_uint unified_memory_mb macos_version
apple_report g memsize version = record {
  vendor = codes "apple";
  model = with_cores (model_of g) (parse_uint g.cores);
  vram_total_mb = unified_memory_mb memsize;
  driver_version = macos_version version;
  cuda_version = [];
  gpu_count = 1;
}

unfoldable pub first_gpu : List SpGpu → Output → Output → Result ProbeError GpuReport
unfolding is_usable apple_report
first_gpu [] memsize version = err no_gpu
first_gpu (g ∷ gs) memsize version =
    let rest = first_gpu gs memsize version in
    if is_usable g then ok (apple_report g memsize version) else rest

-- With what is decoded of the profiler's output, if it ran and printed JSON.
unfoldable pub detect_apple :
    Option (Option (List SpGpu)) → Output → Output → Result ProbeError GpuReport
unfolding first_gpu
detect_apple none memsize version = err no_gpu
detect_apple (some none) memsize version = err bad_json
detect_apple (some (some gs)) memsize version = first_gpu gs memsize version
