-- ===== src/Runner/Container/Order.antt =====
-- The environment that `create` of agent/internal/runner/docker.go makes of a map.
use mathlib.Core.List.{Permᴰ}
use gridlink.Prelude.{
  ◌*◌, ◌%◌, ◌^◌, true, false, ◌≡◌, refl, ◌∙◌, sym, List, [], ◌∷◌, ◌++◌, map, arith,
}
use gridlink.Bytes.{Bytes}
use gridlink.Runner.Container.{
  Spec, bytes_leb, insert_sorted, sort_strings, entry, name_prefix, config_of,
}

leb_total : (x y : Bytes) → bytes_leb x y ≡ false → bytes_leb y x ≡ true
unfolding bytes_leb
leb_total [] y h = absurd (ground arith)
leb_total (a ∷ x) [] h = refl
leb_total (a ∷ x) (b ∷ y) h = ground (arith, leb_total x y)

leb_antisym : (x y : Bytes) → bytes_leb x y ≡ true → bytes_leb y x ≡ true → x ≡ y
unfolding bytes_leb
leb_antisym [] [] h k = refl
leb_antisym [] (b ∷ y) h k = absurd (ground arith)
leb_antisym (a ∷ x) [] h k = absurd (ground arith)
leb_antisym (a ∷ x) (b ∷ y) h k = ground (arith, leb_antisym x y)

leb_trans : (x y z : Bytes) → bytes_leb x y ≡ true → bytes_leb y z ≡ true → bytes_leb x z ≡ true
unfolding bytes_leb
leb_trans [] y z h k = refl
leb_trans (a ∷ x) [] z h k = absurd (ground arith)
leb_trans (a ∷ x) (b ∷ y) [] h k = absurd (ground arith)
leb_trans (a ∷ x) (b ∷ y) (c ∷ z) h k = ground (arith, leb_trans x y z)

-- The order in which two are inserted does not matter.
insert_comm :
    (x y : Bytes) (l : List Bytes)
    → insert_sorted x (insert_sorted y l) ≡ insert_sorted y (insert_sorted x l)
unfolding insert_sorted
insert_comm x y [] = ground (arith, leb_total x y, leb_antisym x y)
insert_comm x y (z ∷ l) =
    ground
      (arith, leb_total x y, leb_antisym x y, leb_trans x y z, leb_trans y x z, insert_comm x y l)

sort_perm :
    (env env' : List (Bytes × Bytes))
    → Permᴰ env env'
    → sort_strings (map entry env) ≡ sort_strings (map entry env')
unfolding sort_strings
sort_perm [] [] Permᴰ.nil = refl
sort_perm (a ∷ env) (b ∷ env') (Permᴰ.cons e d) =
    λ i. insert_sorted (entry (e i)) (sort_perm env env' d i)
sort_perm (a ∷ b ∷ env) (a' ∷ b' ∷ env') (Permᴰ.swap e f) =
    insert_comm (entry a) (entry b) (sort_strings (map entry env)) ∙ λ i.
    insert_sorted (entry (f i)) (insert_sorted (entry (e i)) (sort_strings (map entry env)))
sort_perm env env' (Permᴰ.trans {l₂ = mid} d d') = sort_perm env mid d ∙ sort_perm mid env' d'

-- The order in which the environment is ranged over does not show in what Docker is asked for.
pub config_of_perm :
    (spec : Spec) (env : List (Bytes × Bytes))
    → Permᴰ spec.env env
    → config_of (record spec { env = env }) ≡ config_of spec
unfolding config_of
config_of_perm spec env d = λ i. record {
  image = spec.image;
  cmd = spec.command;
  env = sym (sort_perm spec.env env d) i;
  memory = spec.memory_limit_mb * 1024 * 1024 % 2 ^ 64;
  all_gpus = spec.gpu;
  name = name_prefix ++ spec.job_id;
}
