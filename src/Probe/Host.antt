-- ===== src/Probe/Host.antt =====
-- agent/internal/sysinfo/sysinfo.go.
pub mod Memory
use gridlink.Prelude.{
  ℕ, zero, suc, Bool, true, false, ◌/◌, ◌*◌, ◌%◌, ◌^◌, List, [], ◌∷◌, Option, none, some,
  if◌then◌else◌,
}
use gridlink.Bytes.{Bytes, bytes_eq, codes}
use gridlink.Bytes.Search.{has_prefix}
use gridlink.Bytes.Fields.{space_at, split, trim_space}
use gridlink.Probe.{Output, parse_uint}

pub record HostInfo : Type 0 where
  pub os : Bytes
  pub arch : Bytes
  pub cpu_cores : ℕ
  pub ram_total_mb : ℕ

-- A byte that goes in front of the first field, if there is no space between them.
unfoldable pub onto_field : Bool → ℕ → List Bytes → List Bytes
onto_field true b (field ∷ fields) = (b ∷ field) ∷ fields
onto_field true b [] = (b ∷ []) ∷ []
onto_field false b fields = (b ∷ []) ∷ fields

-- Whether a text begins with something else than white space.
unfoldable pub starts_field : Bytes → Bool
unfolding space_at
starts_field [] = false
starts_field (b ∷ s) = elim (space_at b s) [ some k ↦ false | none ↦ true ]

-- `strings.Fields`, with so many bytes left of the white space before.
unfoldable pub fields_from : ℕ → Bytes → List Bytes
unfolding onto_field starts_field space_at
fields_from k [] = []
fields_from (suc k) (b ∷ s) = fields_from k s
fields_from zero (b ∷ s) = elim (space_at b s) [
  | some k ↦ fields_from k s
  | none ↦ onto_field (starts_field s) b (fields_from zero s)
]

unfoldable pub fields : Bytes → List Bytes
unfolding fields_from
fields s = fields_from zero s

-- `fields[1]`, if there is one, in kilobytes.
unfoldable pub second_field_mb : List Bytes → ℕ
unfolding parse_uint
second_field_mb (label ∷ value ∷ rest) = parse_uint value / 1024
second_field_mb _ = 0

abbrev pub mem_total : Bytes
mem_total = codes "MemTotal:"

unfoldable pub mem_total_of : List Bytes → ℕ
unfolding has_prefix second_field_mb fields
mem_total_of [] = 0
mem_total_of (line ∷ lines) =
    let rest = mem_total_of lines in
    if has_prefix line mem_total then second_field_mb (fields line) else rest

unfoldable pub darwin_ram : Output → ℕ
unfolding parse_uint trim_space
darwin_ram none = 0
darwin_ram (some out) = parse_uint (trim_space out) / (1024 * 1024)

unfoldable pub linux_ram : Output → ℕ
unfolding mem_total_of split
linux_ram none = 0
linux_ram (some out) = mem_total_of (split 10 out)

-- `ramTotalMB`, with what the two commands print.
unfoldable pub ram_total_mb : Bytes → Output → Output → ℕ
unfolding bytes_eq darwin_ram linux_ram
ram_total_mb goos memsize meminfo =
    if bytes_eq goos (codes "darwin")
    then darwin_ram memsize
    else if bytes_eq goos (codes "linux")
    then linux_ram meminfo
    else 0

-- `detect`
unfoldable pub detect_host : Bytes → Bytes → ℕ → Output → Output → HostInfo
unfolding ram_total_mb
detect_host goos goarch num_cpu memsize meminfo = record {
  os = goos;
  arch = goarch;
  cpu_cores = num_cpu % 2 ^ 32;
  ram_total_mb = ram_total_mb goos memsize meminfo;
}
