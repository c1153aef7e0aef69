-- ===== src/Strategy/IpHash.antt =====
-- GetNextBackendByIP of internal/lb/strategy.go, and the address that GetNextBackend hands to it.
use go_load_balancer.Prelude.{
  ℕ, zero, suc, ◌+◌, ◌%◌, ◌<◌, ◌≡◌, refl, subst, sym, ◌∙◌, inl, inr, true, false, some, List, [],
  ◌∷◌, ◌++◌, arith, Bool-cases, get_elem?, length, lt-get_elem?,
}
use native.Mathlib.Nat.{mod-lt, add-zero, zero-add}
use mathlib.Core.Option.{some-injective}
use go_load_balancer.Text.{Str, str, eqs, is_empty}
use go_load_balancer.Text.Split.{IsPlain, split_host_port-join}
use go_load_balancer.Extern.{Env, FloatOps}
use go_load_balancer.Backend.{Backend, BackendPool}
use go_load_balancer.Strategy.{
  available, healthy_backends, get_next_by_ip, clean_ip, get_next_backend,
}
use go_load_balancer.Strategy.Fnv.{sum32a}

module _ {Cb : Type 0} (env : Env Cb) where
  abbrev pub AvailableAt : List (Backend Cb) → ℕ → Type 0
  AvailableAt bs i = (b : Backend Cb) × (get_elem? bs i ≡ some b) × (available env b ≡ true)

  healthy_backends-available :
      (i : ℕ) (bs : List (Backend Cb)) (q k : ℕ)
      → get_elem? (healthy_backends env i bs) q ≡ some k
      → (j : ℕ) × (k ≡ i + j) × AvailableAt bs j
  unfolding healthy_backends
  healthy_backends-available i [] q k e = absurd (cc e)
  healthy_backends-available i (b ∷ bs) q k e = elim (Bool-cases (available env b)) [
    | inl up ↦ first q up (healthy_backends-available (suc i) bs) (rw up at e)
    | inr down ↦
        let (j, at_j, found) = healthy_backends-available (suc i) bs q k (rw down at e) in
        (suc j, omega arith, found)
  ]
    where
      first :
          (q : ℕ)
          → available env b ≡ true
          → ((q k : ℕ)
              → get_elem? (healthy_backends env (suc i) bs) q ≡ some k
              → (j : ℕ) × (k ≡ suc i + j) × AvailableAt bs j)
          → get_elem? (i ∷ healthy_backends env (suc i) bs) q ≡ some k
          → (j : ℕ) × (k ≡ i + j) × AvailableAt (b ∷ bs) j
      first zero up rest e = (0, sym (some-injective i k e) ∙ sym (add-zero i), (b, refl, up))
      first (suc q) up rest e = let (j, at_j, found) = rest q k e in (suc j, omega arith, found)

  healthy_backends-nonempty :
      (i : ℕ) (bs : List (Backend Cb)) (j : ℕ)
      → AvailableAt bs j
      → 0 < length (healthy_backends env i bs)
  unfolding healthy_backends
  healthy_backends-nonempty i [] j (b, e, up) = absurd (cc e)
  healthy_backends-nonempty i (c ∷ bs) zero (b, e, up) = ground arith
  healthy_backends-nonempty i (c ∷ bs) (suc j) a =
      ground (arith, healthy_backends-nonempty (suc i) bs j a)

  -- If some backend is available, the hash of any address picks an available backend.
  pub get_next_by_ip-available :
      (ip : Str) (p : BackendPool Cb) (j : ℕ)
      → AvailableAt p.backends j
      → (i : ℕ) × (get_next_by_ip env ip p ≡ some i) × AvailableAt p.backends i
  unfolding get_next_by_ip
  get_next_by_ip-available ip p j a =
      let healthy = healthy_backends env 0 p.backends in
      let (i, e) =
        lt-get_elem? healthy (sum32a ip % length healthy)
          (mod-lt (sum32a ip) (healthy_backends-nonempty 0 p.backends j a)) in
      let (k, at_k, found) = healthy_backends-available 0 p.backends _ i e in
      (i, e, subst (AvailableAt p.backends) (sym (at_k ∙ zero-add k)) found)

  -- Whatever the hash picks is available.
  pub get_next_by_ip_sound :
      (ip : Str) (p : BackendPool Cb) (i : ℕ)
      → get_next_by_ip env ip p ≡ some i
      → AvailableAt p.backends i
  unfolding get_next_by_ip
  get_next_by_ip_sound ip p i e =
      let (k, at_k, found) = healthy_backends-available 0 p.backends _ i e in
      subst (AvailableAt p.backends) (sym (at_k ∙ zero-add k)) found

  module _ (f : FloatOps) where
    clean_ip-join :
        (host port : Str)
        → IsPlain host
        → IsPlain port
        → clean_ip env f (host ++ b':' ∷ port) ≡ host
    unfolding clean_ip
    clean_ip-join host port h p = rw (split_host_port-join host port h p, clean_ip)

    is_empty-join : (host port : Str) → is_empty (host ++ b':' ∷ port) ≡ false
    unfolding is_empty
    is_empty-join [] port = refl
    is_empty-join (c ∷ host) port = refl

    -- Under the strategy ip-hash, a client address that is a host and a port, neither of them with a
    -- colon or a bracket, is answered by the hash of the host alone, whatever the port.
    pub ip_hash_ignores_port :
        (p : BackendPool Cb) (host port : Str)
        → p.strategy ≡ str "ip-hash"
        → IsPlain host
        → IsPlain port
        → get_next_backend env f (host ++ b':' ∷ port) p ≡ (p, get_next_by_ip env host p)
    unfolding get_next_backend eqs
    ip_hash_ignores_port p host port e h q =
        rw (e, is_empty-join host port, clean_ip-join host port h q)
