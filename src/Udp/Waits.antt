-- ===== src/Udp/Waits.antt =====
-- internal/lb/udp_proxy.go: the wait group of a UDP listener's proxy, which counts Run and the
-- goroutine of each flow, but not the handlers of packets.
use go_load_balancer.Prelude.{ℕ, zero, suc, ◌+◌, ◌-◌, Bool, true, if◌then◌else◌}

-- Where the goroutine of Run stands: before its wg.Add(1), in its loop, or ended.
pub data LoopStage : Type 0 where
  unstarted reading ended : LoopStage

pub record UdpWaits : Type 0 where
  pub is_stopped : Bool
  pub loop : LoopStage
  pub handlers : ℕ
  pub carriers : ℕ

-- What one goroutine does: Run starts, reads a packet, or ends; a handler dials a backend and starts
-- the goroutine of the flow, or ends without one; the goroutine of a flow ends.
pub data UdpAct : Type 0 where
  starts_loop reads ends_loop opens drops flow_ends : UdpAct

unfoldable pub on_start : LoopStage → LoopStage
on_start unstarted = reading
on_start reading = reading
on_start ended = ended

-- The loop ends on its stop channel, or on an error.
unfoldable pub on_end : LoopStage → LoopStage
on_end unstarted = unstarted
on_end reading = ended
on_end ended = ended

-- The read of a closed listener fails.
unfoldable pub on_read : Bool → LoopStage → ℕ → ℕ
on_read stopped unstarted n = n
on_read stopped reading n = if stopped then n else suc n
on_read stopped ended n = n

unfoldable pub on_dial : ℕ → UdpWaits → UdpWaits
on_dial zero l = l
on_dial (suc n) l = record l { handlers = n; carriers = suc l.carriers }

unfoldable pub udp_act : UdpAct → UdpWaits → UdpWaits
unfolding on_start on_end on_read on_dial
udp_act starts_loop l = record l { loop = on_start l.loop }
udp_act reads l = record l { handlers = on_read l.is_stopped l.loop l.handlers }
udp_act ends_loop l = record l { loop = on_end l.loop }
udp_act opens l = on_dial l.handlers l
udp_act drops l = record l { handlers = l.handlers - 1 }
udp_act flow_ends l = record l { carriers = l.carriers - 1 }

-- Shutdown, of the wait group's side.
unfoldable pub stop_listener : UdpWaits → UdpWaits
stop_listener l = record l { is_stopped = true }

-- The count of the wait group.
unfoldable pub loop_count : LoopStage → ℕ
loop_count unstarted = 0
loop_count reading = 1
loop_count ended = 0

unfoldable pub wait_count : UdpWaits → ℕ
unfolding loop_count
wait_count l = loop_count l.loop + l.carriers
