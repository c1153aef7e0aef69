-- ===== src/Main/Shutdown/Group.antt =====
-- The shutdown of cmd/lb/main.go: the count of main's wait group.
use go_load_balancer.Prelude.{
  ℕ, zero, suc, ◌≡◌, ◌+◌, ◌≤◌, Option, none, some, List, arith, get_elem?,
}
use go_load_balancer.Main.Shutdown.{
  Drain, Waiter, waiting, finished, tcp_waits, udp_waits, on_count, wait_next, done_after,
  tcp_counts, udp_counts, server_done, proceed,
}

-- The goroutines of main that have not ended, against the count of its wait group.
abbrev pub open_waiter : Waiter → ℕ
open_waiter (waiting k) = 1
open_waiter finished = 0

abbrev pub Balanced : Drain → Type 0
Balanced s = s.pending ≡ open_waiter s.tcp_waiter + open_waiter s.udp_waiter + s.shutting

-- A waiting goroutine that ends takes itself off.
done_after-open :
    (w w' : Waiter) (n m : ℕ)
    → open_waiter w' ≤ open_waiter w
    → n ≡ open_waiter w + m
    → done_after w w' n ≡ open_waiter w' + m
unfolding done_after
done_after-open (waiting k) finished n m le e = omega (arith, e)
done_after-open (waiting k) (waiting j) n m le e = e
done_after-open finished finished n m le e = e
done_after-open finished (waiting j) n m le e = absurd (omega (arith, le))

on_count-open : (c : Option ℕ) (k : ℕ) → open_waiter (on_count c k) ≤ 1
unfolding on_count
on_count-open none k = omega arith
on_count-open (some zero) k = omega arith
on_count-open (some (suc n)) k = omega arith

wait_next-open : (counts : List ℕ) (w : Waiter) → open_waiter (wait_next counts w) ≤ open_waiter w
unfolding wait_next
wait_next-open counts (waiting k) = on_count-open (get_elem? counts k) k
wait_next-open counts finished = omega arith

-- One turn of such a goroutine, and one of a server's.
pub wait_balance :
    (counts : List ℕ) (w : Waiter) (n m : ℕ)
    → n ≡ open_waiter w + m
    → done_after w (wait_next counts w) n ≡ open_waiter (wait_next counts w) + m
wait_balance counts w n m e = done_after-open w (wait_next counts w) n m (wait_next-open counts w) e

pub tcp_wait-Balanced : (s : Drain) → Balanced s → Balanced (proceed tcp_waits s)
unfolding proceed
tcp_wait-Balanced s e =
    let b =
      wait_balance (tcp_counts s) s.tcp_waiter s.pending (open_waiter s.udp_waiter + s.shutting)
        (omega (arith, e)) in
    omega (arith, b)

pub udp_wait-Balanced : (s : Drain) → Balanced s → Balanced (proceed udp_waits s)
unfolding proceed
udp_wait-Balanced s e =
    let b =
      wait_balance (udp_counts s) s.udp_waiter s.pending (open_waiter s.tcp_waiter + s.shutting)
        (omega (arith, e)) in
    omega (arith, b)

pub server_done-Balanced :
    (n : ℕ) (s : Drain) → s.shutting ≡ n → Balanced s → Balanced (server_done n s)
unfolding server_done
server_done-Balanced zero s h e = e
server_done-Balanced (suc n) s h e = omega (arith, h, e)
