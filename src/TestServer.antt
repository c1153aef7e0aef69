-- ===== src/TestServer.antt =====
-- internal/backend/server.go: the HTTP and the UDP server for tests and demonstrations.
pub mod Behind
pub mod Greets
mod Examples
use go_load_balancer.Prelude.{Bool, true, false, Option, none, some, List, [], ◌∷◌, ◌++◌}
use go_load_balancer.Text.{Str, str}
use go_load_balancer.Route.{Request}
use go_load_balancer.Http.{Writer, write_body, end_response}

-- What the handler of RunServer logs of a request.
pub record Logged : Type 0 where
  pub lb_ip : Str
  pub real_ip : Str
  pub host : Str
  pub proto : Str

unfoldable pub logged : Request → Logged
logged r = record {
  lb_ip = r.remote_addr;
  real_ip = r.header (str "X-Forwarded-For");
  host = r.header (str "X-Forwarded-Host");
  proto = r.header (str "X-Forwarded-Proto");
}

unfoldable pub hello : Str → Str
hello server_id = str "Hello from backend server: " ++ server_id ++ str "\n"

-- The handler of RunServer: what it logs, and what it writes.
unfoldable pub run_server : Str → Request → Writer → Logged × Writer
unfolding logged hello
run_server server_id r w = (logged r, end_response (write_body (hello server_id) w))

-- RunUDPServer: what its loop writes, each to an address, for what it reads, a packet of an address
-- or an error; and whether the loop has ended.
unfoldable pub hello_udp : Str → Str
hello_udp server_id = str "Hello from UDP server: " ++ server_id

unfoldable pub run_udp_server : Str → List (Option (Str × Str)) → List (Str × Str) × Bool
run_udp_server server_id [] = ([], false)
run_udp_server server_id (none ∷ reads) = ([], true)
run_udp_server server_id (some (addr, packet) ∷ reads) =
    let (written, ends) = run_udp_server server_id reads in
    ((addr, hello_udp server_id) ∷ written, ends)
