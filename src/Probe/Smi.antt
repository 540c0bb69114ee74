-- ===== src/Probe/Smi.antt =====
-- The output of `nvidia-smi`, as agent/internal/gpu/detect.go reads it.
pub mod Lines
use gridlink.Prelude.{
  ℕ, zero, suc, Bool, true, false, ◌+◌, ◌-◌, ◌≡◌, List, [], ◌∷◌, ◌++◌, Option, none, some, ltb,
  if◌then◌else◌, map, length,
}
use gridlink.Bytes.{Bytes}
use gridlink.Bytes.Fields.{split, join, trim_space}

-- `nonEmptyLines`
unfoldable pub keep_line : Bytes → List Bytes → List Bytes
keep_line [] rest = rest
keep_line (b ∷ line) rest = (b ∷ line) ∷ rest

unfoldable pub trimmed_lines : List Bytes → List Bytes
unfolding trim_space keep_line
trimmed_lines [] = []
trimmed_lines (line ∷ lines) = keep_line (trim_space line) (trimmed_lines lines)

unfoldable pub non_empty_lines : Bytes → List Bytes
unfolding trimmed_lines split
non_empty_lines s = trimmed_lines (split 10 s)

-- `parts[:n]` and `parts[n:]`
unfoldable pub first_parts : ℕ → List Bytes → List Bytes
first_parts zero parts = []
first_parts (suc n) [] = []
first_parts (suc n) (p ∷ parts) = p ∷ first_parts n parts

unfoldable pub other_parts : ℕ → List Bytes → List Bytes
other_parts zero parts = parts
other_parts (suc n) [] = []
other_parts (suc n) (p ∷ parts) = other_parts n parts

-- The fields from the right, and the rest joined again by a comma and a space.
unfoldable pub from_right : List Bytes → ℕ → List Bytes
unfolding first_parts other_parts join
from_right parts want =
    let k = length parts - (want - 1) in
    join (44 ∷ 32 ∷ []) (first_parts k parts) ∷ other_parts k parts

-- `splitSmiLine` with the parts, which are trimmed in place.
unfoldable pub take_fields : List Bytes → ℕ → Option (List Bytes)
unfolding from_right
take_fields parts want =
    if ltb (length parts) want
    then none
    else if ltb want (length parts)
    then some (from_right parts want)
    else some parts

unfoldable pub split_smi_line : Bytes → ℕ → Option (List Bytes)
unfolding split trim_space take_fields
split_smi_line line want = take_fields (map trim_space (split 44 line)) want
