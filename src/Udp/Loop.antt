-- ===== src/Udp/Loop.antt =====
-- Run of internal/lb/udp_proxy.go: the loop that reads packets into its one buffer and starts a
-- handler for each. A handler has a slice of the buffer: the client, and the length.
use go_load_balancer.Prelude.{
  ℕ, zero, suc, ◌≡◌, ◌≤◌, ◌+◌, refl, ap, Bool, false, List, [], ◌∷◌, ◌++◌, arith, if◌then◌else◌,
  length, take, drop, length-append,
}
use go_load_balancer.Text.{Str}

-- What a turn of the loop meets: the stop channel is closed, no deadline can be set, the read times
-- out or fails, or there is a packet of a client.
pub data Turn : Type 0 where
  stop_signal deadline_error read_timeout read_error : Turn
  arrival : Str → Str → Turn

-- The loop: its buffer, the handlers that it has started, and whether it still runs.
pub record Reader : Type 0 where
  pub buffer : Str
  pub handlers : List (Str × ℕ)
  pub running : Bool

-- ReadFromUDP, which drops what the buffer has no room for: the length, and the buffer.
unfoldable pub received_length : Str → Str → ℕ
received_length packet buffer = length (take (length buffer) packet)

unfoldable pub read_into : Str → Str → Str
read_into packet buffer = take (length buffer) packet ++ drop (length packet) buffer

unfoldable pub udp_turn : Turn → Reader → Reader
unfolding received_length read_into
udp_turn stop_signal r = record r { running = false }
udp_turn deadline_error r = record r { running = false }
udp_turn read_timeout r = r
udp_turn read_error r = record r { running = false }
udp_turn (arrival client packet) r = record r {
  buffer = read_into packet r.buffer;
  handlers = r.handlers ++ (client, received_length packet r.buffer) ∷ [];
}

unfoldable pub udp_run : List Turn → Reader → Reader
udp_run [] r = r
udp_run (turn ∷ turns) r =
    let rest = udp_run turns (udp_turn turn r) in if r.running then rest else r

-- The bytes that a handler reads in its slice.
unfoldable pub slice : Str × ℕ → Reader → Str
slice h r = take h.1 r.buffer

module _ {ℓ} {A : Type ℓ} where
  take-all : (n : ℕ) (xs : List A) → length xs ≤ n → take n xs ≡ xs
  take-all zero [] h = refl
  take-all zero (x ∷ xs) h = absurd (omega (arith, h))
  take-all (suc n) [] h = refl
  take-all (suc n) (x ∷ xs) h = ap (λ ys. x ∷ ys) (take-all n xs (omega (arith, h)))

  take-append : (n : ℕ) (xs ys : List A) → n ≤ length xs → take n (xs ++ ys) ≡ take n xs
  take-append zero xs ys h = refl
  take-append (suc n) [] ys h = absurd (omega (arith, h))
  take-append (suc n) (x ∷ xs) ys h = ap (λ zs. x ∷ zs) (take-append n xs ys (omega (arith, h)))

  length-drop : (n : ℕ) (xs : List A) → n ≤ length xs → length (drop n xs) + n ≡ length xs
  length-drop zero xs h = omega arith
  length-drop (suc n) [] h = absurd (omega (arith, h))
  length-drop (suc n) (x ∷ xs) h = omega (arith, length-drop n xs (omega (arith, h)))

-- A packet that fits the buffer is what its handler reads before the next packet comes; once another,
-- no shorter one, from any client has come, the handler reads the beginning of that one in its
-- place.
pub late_handler_reads_next :
    (r : Reader) (client client' packet packet' : Str)
    → length packet ≤ length packet'
    → length packet' ≤ length r.buffer
    → let h : Str × ℕ = (client, received_length packet r.buffer) in
      let once = udp_turn (arrival client packet) r in
      let twice = udp_turn (arrival client' packet') once in
      (once.handlers ≡ r.handlers ++ h ∷ [])
      × (slice h once ≡ packet)
      × (slice h twice ≡ take (length packet) packet')
unfolding udp_turn slice received_length read_into
late_handler_reads_next r client client' packet packet' le fits =
    let all = take-all (length r.buffer) packet (omega (arith, le, fits)) in
    let rest = length-drop (length packet) r.buffer (omega (arith, le, fits)) in
    let size = length-append packet (drop (length packet) r.buffer) in
    let all' =
      take-all (length (packet ++ drop (length packet) r.buffer)) packet'
        (omega (arith, rest, size, fits)) in
    (
      refl,
      rw (all, take-append (length packet) packet (drop (length packet) r.buffer) (omega arith))
          (take-all (length packet) packet (omega arith)),
      rw (all, all')
          (take-append (length packet) packet'
            (drop (length packet') (packet ++ drop (length packet) r.buffer)) le),
    )
