-- ===== src/Probe/Tests.antt =====
-- The probes on the output of concrete machines.
use gridlink.Prelude.{◌≡◌, ◌^◌, ◌%◌, refl, [], ◌∷◌, none, some, ok, length, arith}
use gridlink.Bytes.{Bytes, bytes_eq, codes}
use gridlink.Bytes.Fields.{
  join, trim_space, trim_left, trim_right, keep, is_space, trim_left_from, space_at, wide_at,
  is_white,
}
use gridlink.Bytes.Decimal.{format, digits}
use gridlink.Probe.Smi.Lines.{IsPart, comma_space}
use gridlink.Probe.Detect.{Machine, cuda_version, detect}
use gridlink.Probe.Detect.Report.{IsLine, unlines, detect-unlines}

abbrev h100 : Bytes
h100 = codes "H100"

abbrev pcie : Bytes
pcie = codes "PCIe"

abbrev driver : Bytes
driver = codes "550"

IsPart-h100 : IsPart h100
unfolding trim_space trim_left trim_left_from space_at wide_at trim_right keep is_white is_space
IsPart-h100 = ((refl, (refl, (refl, (refl, tt)))), refl)

IsPart-pcie : IsPart pcie
unfolding trim_space trim_left trim_left_from space_at wide_at trim_right keep is_white is_space
IsPart-pcie = ((refl, (refl, (refl, (refl, tt)))), refl)

IsPart-driver : IsPart driver
unfolding trim_space trim_left trim_left_from space_at wide_at trim_right keep is_white is_space
IsPart-driver = ((refl, (refl, (refl, tt))), refl)

abbrev line : Bytes
line = join comma_space (h100 ∷ pcie ∷ format 81_559 ∷ driver ∷ [])

line_text : line ≡ codes "H100, PCIe, 81559, 550"
unfolding join format digits
line_text = refl

line-IsLine : IsLine line
unfolding join format digits trim_space trim_left trim_left_from space_at wide_at trim_right keep
    is_white is_space
line-IsLine = (
  (
    refl,
    (
      refl,
      (
        refl,
        (
          refl,
          (
            refl,
            (
              refl,
              (
                refl,
                (
                  refl,
                  (
                    refl,
                    (
                      refl,
                      (
                        refl,
                        (
                          refl,
                          (
                            refl,
                            (
                              refl,
                              (refl, (refl, (refl, (refl, (refl, (refl, (refl, (refl, tt)))))))),
                            ),
                          ),
                        ),
                      ),
                    ),
                  ),
                ),
              ),
            ),
          ),
        ),
      ),
    ),
  ),
  refl,
  λ h. absurd (cc),
)

abbrev machine : Machine
machine = record {
  fake_gpu = [];
  goos = codes "linux";
  query = some (unlines (line ∷ []));
  banner = none;
  load = none;
  profiler = none;
  memsize = none;
  version = none;
}

detect-unlines_example :
    detect machine
    ≡ ok (record {
      vendor = codes "nvidia";
      model = join comma_space (h100 ∷ pcie ∷ []);
      vram_total_mb = 81_559;
      driver_version = driver;
      cuda_version = cuda_version none;
      gpu_count = length (line ∷ []) % 2 ^ 32;
    })
unfolding bytes_eq
detect-unlines_example =
    detect-unlines machine h100 (pcie ∷ []) 81_559 driver [] refl refl refl (line-IsLine, tt)
      (IsPart-h100, (IsPart-pcie, tt)) IsPart-driver (omega arith)
