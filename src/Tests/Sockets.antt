-- ===== src/Tests/Sockets.antt =====
-- Listening sockets. The state of the host is the number of the next socket.
use nginx_engine.Base.{ℕ, ◌+◌, ◌≡◌, refl, Bool, true, false, [], ◌∷◌, none, some}
use nginx_engine.Base.{Option, List}
use nginx_engine.State.{World}
use nginx_engine.Api.{Reply, state_of}
use nginx_engine.Api.Servers.{server, server_listens}
use nginx_engine.Tests.Calls.{globals, supply, accepted_one}
use nginx_engine.Client.{SockAddr, made, create_peer}
use nginx_engine.Listen.{
  inet, Listening, bound, Host, Net, open_listening_socket, add_listening_connection,
}
use nginx_engine.Listen.Sockets.{NoneLost, open_listening_socket-NoneLost}
use nginx_engine.Server.{server_create}
use nginx_engine.Server.Laws.{Accepts, server_create-Accepts}

-- A host on which listen() succeeds or not.
abbrev host : Bool → Host ℕ
host listens = record {
  socket = λ s. (some s, s + 1);
  set_reuseaddr = λ s k. (true, s);
  set_ipv6only = λ s k. (true, s);
  close_socket = λ s k. (true, s);
  aio_events = false;
  nonblocking = λ s k. (true, s);
  bind = λ s k. (bound, s);
  test_config = false;
  chmod = λ s. (true, s);
  delete_file = λ s. (true, s);
  listen = λ s k b. (listens, s);
  get_connection = λ s fd. (some 40, s);
  del_event = λ s c. (true, s);
  rtsig_events = false;
  add_conn = λ s c. (true, s);
  add_event = λ s c. (true, s);
  sock_ntop = λ a. 9;
  addr_strlen = λ f. 15;
  listen_backlog = 511;
}

abbrev net : Net ℕ
net = record { outside = 7; opened = 3 ∷ []; accepts = []; retired = []; lines = [] }

abbrev address : SockAddr
address = record { addr = 16777343; port = 36895 }

abbrev unopened : Listening
unopened = record {
  family = inet;
  sockaddr = address;
  addr_text_max_len = 15;
  addr_text_len = 9;
  fd = none;
  ignore = false;
  inherited = false;
  ipv6only = false;
  listen = false;
  backlog = 511;
  pool_size = 256;
  previous = none;
  connection = none;
}

opened_test : (open_listening_socket (host true) unopened net).1.opened ≡ 7 ∷ 3 ∷ []
unfolding open_listening_socket
opened_test = refl

refused_test : (open_listening_socket (host false) unopened net).1.opened ≡ 3 ∷ []
unfolding open_listening_socket
refused_test = refl

created_test : (server_create (host true) (λ i. true) 16777343 8080 net).1.accepts ≡ 40 ∷ []
unfolding server_create open_listening_socket add_listening_connection
created_test = refl

-- The address that the socket is to be bound to is in no field of the peer.
peer_test :
    create_peer (λ i. true) 33554559 16777343 8080
    ≡ made (record { sockaddr = record { addr = 16777343; port = 36895 }; local = none })
unfolding create_peer
peer_test = refl

open_listening_socket-NoneLost_example :
    NoneLost (host false) (3 ∷ []) unopened (open_listening_socket (host false) unopened net)
open_listening_socket-NoneLost_example =
    open_listening_socket-NoneLost (host false) unopened net refl

created_test-Accepts : Accepts (host true) (server_create (host true) (λ i. true) 16777343 8080 net)
created_test-Accepts = server_create-Accepts (host true) (λ i. true) 16777343 8080 net

abbrev served : Option (Reply ℕ) × Net ℕ
served =
    server 7 supply 1 (host true) (λ i. true) (λ a. some 16777343) globals (49 ∷ []) 8080 net
      accepted_one

abbrev reply_of : Option (Reply ℕ) → World ℕ
reply_of none = accepted_one
reply_of (some r) = state_of r

server_listens_example : (c : ℕ) × (rest : List ℕ) × (served.1.accepts ≡ c ∷ rest)
unfolding server add_listening_connection open_listening_socket
server_listens_example =
    server_listens 7 supply 1 (host true) (λ i. true) (λ a. some 16777343) globals (49 ∷ []) 8080
      net served.1 accepted_one (reply_of served.0) refl
