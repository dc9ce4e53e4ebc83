-- ===== src/Examples/Servers.antt =====
-- The theorems on HTTP and on the server of an index, at one request of a client.
use mathlib.Core.List.{reverse}
use redp2p_c.Prelude.{
  ◌≡◌, refl, true, false, [], ◌∷◌, ◌++◌, none, some, Bytes, codes, arith, length, Perm,
}
use redp2p_c.Http.Request.{complete, request_parse}
use redp2p_c.Http.Status.{IsAnswer, request_parse-IsAnswer}
use redp2p_c.Http.Client.{print_u, print_digits, lines_text, client_request}
use redp2p_c.Http.Delivery.{client_request-request_parse}
use redp2p_c.Http.Response.{silent, Wire, got, read_response, write_response}
use redp2p_c.Http.Replied.{is_printable, is_printable_sound}
use redp2p_c.Http.Reply.{write_response-read_response}
use redp2p_c.Index.Dispatch.{request}
use redp2p_c.Index.Tests.{inet, env_at, request_with, empty_index, empty_index-IsValid, env-IsValid}
use redp2p_c.Server.{Server, Io, process_connections}
use redp2p_c.Pending.{pending_call_evict_stale}
use redp2p_c.Server.Loop.{
  Turn, ready, continued, event_loop_turn, after_select, accept_connection, prepare_fdset,
  fdset_loop,
}
use redp2p_c.Server.Sweep.{visit_all, process_connections-visit_all}
use redp2p_c.Server.Invariant.{ServerIsValid, IoIsValid}
use redp2p_c.Server.Turns.{here, turn, Runs-ServerIsValid}

abbrev listing : Bytes
listing = codes "{}"

abbrev bytes_sent : Bytes
bytes_sent =
    lines_text (
      codes "POST /redp2p/ HTTP/1.1"
      ∷ codes "Host: ix"
      ∷ codes "Content-Length: 2"
      ∷ codes "Content-Type: application/json"
      ∷ codes "Connection: close"
      ∷ [])
    ++ listing

request_written : client_request (codes "ix") listing ≡ some bytes_sent
unfolding client_request print_u print_digits
request_written = refl

abbrev in_pieces : Wire
in_pieces = record { ending = silent; chunk = λ k. k; fits_fd_set = true }

write_response-read_response_example :
    (reply : Bytes) × (write_response 404
        (codes "Not Found")
        (codes "application/json")
        (codes "{}")
      ≡ some reply)
    × (read_response in_pieces reply ≡ got (404, codes "{}"))
unfolding is_printable
write_response-read_response_example =
    write_response-read_response in_pieces refl 404 (codes "Not Found") (codes "application/json")
      (codes "{}") (omega arith) (omega arith) (is_printable_sound (codes "Not Found") refl)
      (omega arith) (is_printable_sound (codes "application/json") refl) (omega arith) (omega arith)

client_request-request_parse_example :
    request_parse bytes_sent ≡ complete (codes "/redp2p/") listing
client_request-request_parse_example =
    client_request-request_parse (codes "ix") listing bytes_sent
      ((omega arith, refl, refl), ((omega arith, refl, refl), tt)) (omega arith) request_written

request_parse-IsAnswer_example : IsAnswer (length bytes_sent) (request_parse bytes_sent)
request_parse-IsAnswer_example = request_parse-IsAnswer bytes_sent

-- One client is connected, and has sent all of its request.
abbrev sockets : Io
sockets = record {
  readable = λ fd. true;
  read = λ fd cap. some bytes_sent;
  now_ms = λ fd. 2000;
  env = λ fd. env_at 100;
  parse = λ text. request (request_with ((codes "op", codes "list") ∷ []) []);
}

sockets-IoIsValid : IoIsValid inet sockets
sockets-IoIsValid = record { same_inet = λ fd. refl; env = λ fd. env-IsValid }

abbrev server : Server
server = record {
  context = empty_index;
  conns = record { fd = 5; buf = []; ts = 1000 } ∷ [];
  conns_cap = 16;
  prune_interval_s = 60;
  last_prune = 0;
}

server-ServerIsValid : ServerIsValid inet server
server-ServerIsValid = record {
  index = empty_index-IsValid;
  table = record { fits = omega arith; buffers = (omega arith, tt) };
  bounded = omega arith;
}

process_connections-visit_all_example :
    ((process_connections sockets server).0.context
      ≡ (visit_all sockets server.context (reverse server.conns)).context)
    × ((process_connections sockets server).1
        ≡ (visit_all sockets server.context (reverse server.conns)).answers)
    × Perm
        (process_connections sockets server).0.conns
        (visit_all sockets server.context (reverse server.conns)).conns
process_connections-visit_all_example = process_connections-visit_all sockets server

abbrev accepting : Turn
accepting = record {
  stop_at_start = false;
  stop_behind_select = false;
  fits = λ fd. true;
  listener = 4;
  swept_at = 100;
  selected = ready none 2000;
  grow = λ n. true;
  io = sockets;
}

abbrev prepared : Server
prepared = record server { context = pending_call_evict_stale empty_index 100 }

one_turn : event_loop_turn accepting server ≡ continued (process_connections sockets prepared)
unfolding event_loop_turn prepare_fdset fdset_loop after_select accept_connection
one_turn = refl

Runs-ServerIsValid_example : ServerIsValid inet (process_connections sockets prepared).0
Runs-ServerIsValid_example =
    Runs-ServerIsValid inet server (process_connections sockets prepared).0 server-ServerIsValid
      (turn accepting (process_connections sockets prepared) here sockets-IoIsValid one_turn)
