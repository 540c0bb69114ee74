-- ===== src/Runner/Container.antt =====
-- `create` of agent/internal/runner/docker.go: what the Docker daemon is asked for.
pub mod Order
use gridlink.Prelude.{
  ℕ, String, Bool, true, false, ◌*◌, ◌%◌, ◌^◌, List, [], ◌∷◌, ◌++◌, Option, none, some, ltb,
  if◌then◌else◌, map,
}
use gridlink.Bytes.{Bytes}

-- The parts of a `JobSpec` that the runner reads; `env` is a map, ranged over in some order.
pub record Spec : Type 0 where
  pub job_id : Bytes
  pub image : Bytes
  pub command : List Bytes
  pub env : List (Bytes × Bytes)
  pub gpu : Bool
  pub memory_limit_mb : ℕ
  pub timeout_s : ℕ

-- The order of strings, by their bytes.
unfoldable pub bytes_leb : Bytes → Bytes → Bool
bytes_leb [] ys = true
bytes_leb (a ∷ xs) [] = false
bytes_leb (a ∷ xs) (b ∷ ys) =
    let rest = bytes_leb xs ys in if ltb a b then true else if ltb b a then false else rest

-- `sort.Strings`
unfoldable pub insert_sorted : Bytes → List Bytes → List Bytes
unfolding bytes_leb
insert_sorted x [] = x ∷ []
insert_sorted x (y ∷ ys) =
    let rest = insert_sorted x ys in if bytes_leb x y then x ∷ y ∷ ys else y ∷ rest

unfoldable pub sort_strings : List Bytes → List Bytes
unfolding insert_sorted
sort_strings [] = []
sort_strings (x ∷ xs) = insert_sorted x (sort_strings xs)

-- `k+"="+v`
unfoldable pub entry : Bytes × Bytes → Bytes
entry (k, v) = k ++ 61 ∷ v

-- `container.Config` and `container.HostConfig`, with the container's name. What the runner leaves
-- unset, which is all else, is left out.
pub record Config : Type 0 where
  pub image : Bytes
  pub cmd : List Bytes
  pub env : List Bytes
  pub memory : ℕ  -- the bit pattern of an int64
  pub all_gpus : Bool
  pub name : Bytes

-- `gridlink-job-`
abbrev pub name_prefix : Bytes
name_prefix = 103 ∷ 114 ∷ 105 ∷ 100 ∷ 108 ∷ 105 ∷ 110 ∷ 107 ∷ 45 ∷ 106 ∷ 111 ∷ 98 ∷ 45 ∷ []

unfoldable pub config_of : Spec → Config
unfolding sort_strings entry
config_of spec = record {
  image = spec.image;
  cmd = spec.command;
  env = sort_strings (map entry spec.env);
  memory = spec.memory_limit_mb * 1024 * 1024 % 2 ^ 64;
  all_gpus = spec.gpu;
  name = name_prefix ++ spec.job_id;
}
