-- ===== src/Text/Split.antt =====
-- `split_host_port` on a host and a port joined by a colon.
use go_load_balancer.Prelude.{
  ℕ, suc, ◌≡◌, refl, false, some, none, [], ◌∷◌, ◌++◌, arith, length, take, drop,
}
use go_load_balancer.Text.{
  Str, str, has_prefix, last_index_byte, contains_byte, split_checked, split_plain, split_host_port,
}

-- No byte of net.SplitHostPort's syntax.
pub record IsPlain (s : Str) : Type 0 where
  pub no_colon : contains_byte s b':' ≡ false
  pub no_open : contains_byte s b'[' ≡ false
  pub no_close : contains_byte s b']' ≡ false

contains_byte-append :
    (s t : Str) (c : ℕ)
    → contains_byte s c ≡ false
    → contains_byte t c ≡ false
    → contains_byte (s ++ t) c ≡ false
unfolding contains_byte
contains_byte-append [] t c h k = k
contains_byte-append (x ∷ s) t c h k = ground (arith, contains_byte-append s t c)

last_index_byte-none : (s : Str) (c : ℕ) → contains_byte s c ≡ false → last_index_byte s c ≡ none
unfolding contains_byte last_index_byte
last_index_byte-none [] c h = refl
last_index_byte-none (x ∷ s) c h = ground (arith, last_index_byte-none s c)

last_index_byte-colon :
    (host port : Str)
    → contains_byte port b':' ≡ false
    → last_index_byte (host ++ b':' ∷ port) b':' ≡ some (length host)
unfolding last_index_byte
last_index_byte-colon [] port h = rw (last_index_byte-none port b':' h)
last_index_byte-colon (x ∷ host) port h = rw (last_index_byte-colon host port h)

take-append : (s t : Str) → take (length s) (s ++ t) ≡ s
take-append [] t = refl
take-append (x ∷ s) t = rw (take-append s t)

drop-suc-append : (s : Str) (c : ℕ) (t : Str) → drop (suc (length s)) (s ++ c ∷ t) ≡ t
drop-suc-append [] c t = refl
drop-suc-append (x ∷ s) c t = drop-suc-append s c t

no_bracket_first :
    (host port : Str)
    → contains_byte host b'[' ≡ false
    → has_prefix (host ++ b':' ∷ port) (str "[") ≡ false
unfolding contains_byte has_prefix
no_bracket_first [] port h = refl
no_bracket_first (x ∷ host) port h = ground arith

contains_byte-cons :
    (c x : ℕ) (s : Str) → (x ≡ c → ⊥) → contains_byte s c ≡ false → contains_byte (x ∷ s) c ≡ false
unfolding contains_byte
contains_byte-cons c x s h k = ground arith

pub split_host_port-join :
    (host port : Str)
    → IsPlain host
    → IsPlain port
    → split_host_port (host ++ b':' ∷ port) ≡ some (host, port)
unfolding split_host_port split_plain split_checked
split_host_port-join host port h p = rw (
  last_index_byte-colon host port p.no_colon,
  split_host_port,
  no_bracket_first host port h.no_open,
  take-append host (b':' ∷ port),
  h.no_colon,
  contains_byte-append host (b':' ∷ port) b'[' h.no_open
      (contains_byte-cons b'[' b':' port (omega arith) p.no_open),
  contains_byte-append host (b':' ∷ port) b']' h.no_close
      (contains_byte-cons b']' b':' port (omega arith) p.no_close),
  drop-suc-append host b':' port,
)
