-- ===== src/Strategy/Fnv.antt =====
-- hash/fnv: FNV-1a at 32 bits, as New32a, Write and Sum32 compute it.
use Prim.Native.Nat.{bit_xor}
use go_load_balancer.Prelude.{ℕ, ◌*◌, ◌%◌, ◌^◌, ◌≡◌, refl, [], ◌∷◌}
use go_load_balancer.Text.{Str, str}

abbrev prime32 : ℕ
prime32 = 16777619

write32a : ℕ → Str → ℕ
write32a hash [] = hash
write32a hash (c ∷ s) = write32a (bit_xor hash c * prime32 % 2 ^ 32) s

unfoldable pub sum32a : Str → ℕ
unfolding write32a
sum32a s = write32a 2166136261 s

-- The published hash of "a".
sum32a_a : sum32a (str "a") ≡ 0xe40c292c
unfolding sum32a
sum32a_a = refl
