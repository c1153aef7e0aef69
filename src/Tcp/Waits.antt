-- ===== src/Tcp/Waits.antt =====
-- internal/lb/tcp_proxy.go: the wait group of a TCP listener's proxy, as its accept loop, its
-- connections and Shutdown move it.
use go_load_balancer.Prelude.{ℕ, suc, ◌-◌, Bool, true, if◌then◌else◌}

-- Where Run stands: in Accept, with a connection that the wait group does not count yet, or returned.
pub data RunStage : Type 0 where
  accepting holding returned : RunStage

-- A proxy's listener and its wait group, by the count.
pub record TcpWaits : Type 0 where
  pub is_closed : Bool
  pub run : RunStage
  pub active : ℕ

-- What one goroutine does of it: Accept answers a connection, or net.ErrClosed once the listener is
-- closed; it fails otherwise; Run counts the connection it holds, and starts its handler; a handler
-- ends.
pub data TcpAct : Type 0 where
  accepts accept_fails spawns connection_ends : TcpAct

unfoldable pub on_accept : Bool → RunStage → RunStage
on_accept closed accepting = if closed then returned else holding
on_accept closed holding = holding
on_accept closed returned = returned

unfoldable pub on_spawn : RunStage → TcpWaits → TcpWaits
on_spawn accepting l = l
on_spawn holding l = record l { run = accepting; active = suc l.active }
on_spawn returned l = l

unfoldable pub tcp_act : TcpAct → TcpWaits → TcpWaits
unfolding on_accept on_spawn
tcp_act accepts l = record l { run = on_accept l.is_closed l.run }
tcp_act accept_fails l = l
tcp_act spawns l = on_spawn l.run l
tcp_act connection_ends l = record l { active = l.active - 1 }

-- Shutdown.
unfoldable pub close_listener : TcpWaits → TcpWaits
close_listener l = record l { is_closed = true }
