-- ===== src/Listen.antt =====
-- The listening sockets of ngxe_ngx.c and ngxe_server_create of ngxe_connection.c.
pub mod Sockets
use nginx_engine.Base.{
  ℕ, String, Bool, true, false, ◌&&◌, ◌||◌, Option, none, some, is_some, List, [], ◌∷◌, ◌==◌,
  if◌then◌else◌,
}
use nginx_engine.Client.{SockAddr}

pub data Family : Type 0 where
  inet inet6 unix_domain other_family : Family

-- `ngx_listening_t`, the fields that the program reads or sets. `fd` is none for -1; `connection`
-- names a connection; `previous` names the connection of an old cycle.
pub record Listening : Type 0 where
  pub family : Family
  pub sockaddr : SockAddr
  pub addr_text_max_len : ℕ
  pub addr_text_len : ℕ
  pub fd : Option ℕ
  pub ignore : Bool
  pub inherited : Bool
  pub ipv6only : Bool
  pub listen : Bool
  pub backlog : ℕ
  pub pool_size : ℕ
  pub previous : Option ℕ
  pub connection : Option ℕ

pub data Bound : Type 0 where
  bound addr_in_use bind_refused : Bound

-- The system's and nginx's functions that are called. A `Bool` is true if the call is successful.
pub record Host (S : Type 0) : Type 0 where
  pub socket : S → Option ℕ × S
  pub set_reuseaddr : S → ℕ → Bool × S
  pub set_ipv6only : S → ℕ → Bool × S
  pub close_socket : S → ℕ → Bool × S
  pub aio_events : Bool
  pub nonblocking : S → ℕ → Bool × S
  pub bind : S → ℕ → Bound × S
  pub test_config : Bool
  pub chmod : S → Bool × S
  pub delete_file : S → Bool × S
  pub listen : S → ℕ → ℕ → Bool × S
  pub get_connection : S → Option ℕ → Option ℕ × S
  pub del_event : S → ℕ → Bool × S
  pub rtsig_events : Bool
  pub add_conn : S → ℕ → Bool × S
  pub add_event : S → ℕ → Bool × S
  pub sock_ntop : SockAddr → ℕ
  pub addr_strlen : Family → ℕ
  pub listen_backlog : ℕ

-- `opened` holds the sockets that were made and not handed to ngx_close_socket, newest first;
-- `accepts` the connections whose read event has the handler ngx_event_accept; `retired` those of an
-- old cycle whose socket was set to -1.
pub record Net (S : Type 0) : Type 0 where
  pub outside : S
  pub opened : List ℕ
  pub accepts : List ℕ
  pub retired : List ℕ
  pub lines : List String

abbrev pub erase : ℕ → List ℕ → List ℕ
erase s [] = []
erase s (x ∷ xs) = if x == s then xs else x ∷ erase s xs

abbrev pub is_unix : Family → Bool
is_unix unix_domain = true
is_unix _ = false

abbrev pub is_inet6 : Family → Bool
is_inet6 inet6 = true
is_inet6 _ = false

module _ {S : Type 0} where
  abbrev pub note : String → Net S → Net S
  note line n = record n { lines = line ∷ n.lines }

  -- A call whose failure leaves a line in the log.
  abbrev pub checked : String → Bool × S → Net S → Net S
  checked line r n =
      if r.0 then record n { outside = r.1 } else note line (record n { outside = r.1 })

  module _ (h : Host S) where
    -- `if (ngx_close_socket(s) == -1) ngx_log_error(…)`
    unfoldable pub close_logged : ℕ → Net S → Net S
    close_logged s n =
        checked "close() socket failed" (h.close_socket n.outside s)
          (record n { opened = erase s n.opened })

    -- Lines 337 to 353: listen().
    unfoldable pub listen_on : ℕ → Listening → Net S → Listening × Net S
    unfolding close_logged
    listen_on s ls n =
        let (ok, o) = h.listen n.outside s ls.backlog in
        let n' = record n { outside = o } in
        if ok
        then (record ls { listen = true; fd = some s }, n')
        else (ls, close_logged s (note "listen() failed" n'))

    -- Lines 314 to 335: the file of a socket in the unix domain.
    unfoldable pub open_unix : Listening → Net S → Net S
    open_unix ls n =
        if is_unix ls.family
        then (let n' = checked "chmod() failed" (h.chmod n.outside) n in
            if h.test_config then checked "unlink() failed" (h.delete_file n'.outside) n' else n')
        else n

    -- Lines 291 to 312, on the result of bind().
    unfoldable pub after_bind : ℕ → Listening → Bound → Net S → Listening × Net S
    unfolding close_logged open_unix listen_on
    after_bind s ls bound n = listen_on s ls (open_unix ls n)
    after_bind s ls addr_in_use n =
        if h.test_config then (ls, n) else (ls, close_logged s (note "bind() failed" n))
    after_bind s ls bind_refused n = (ls, close_logged s (note "bind() failed" n))

    unfoldable pub bind_to : ℕ → Listening → Net S → Listening × Net S
    unfolding after_bind
    bind_to s ls n = let (b, o) = h.bind n.outside s in after_bind s ls b (record n { outside = o })

    -- Lines 272 to 286.
    unfoldable pub set_nonblocking : ℕ → Listening → Net S → Listening × Net S
    unfolding close_logged bind_to
    set_nonblocking s ls n =
        if h.aio_events
        then bind_to s ls n
        else (let (ok, o) = h.nonblocking n.outside s in
            let n' = record n { outside = o } in
            if ok then bind_to s ls n' else (ls, close_logged s (note "nonblocking failed" n')))

    -- Lines 253 to 269: a failure is logged and ignored.
    unfoldable pub set_ipv6only : ℕ → Listening → Net S → Net S
    set_ipv6only s ls n =
        if is_inet6 ls.family && ls.ipv6only
        then checked "setsockopt(IPV6_V6ONLY) failed, ignored" (h.set_ipv6only n.outside s) n
        else n

    -- Lines 236 to 251.
    unfoldable pub set_reuseaddr : ℕ → Listening → Net S → Listening × Net S
    unfolding close_logged set_ipv6only set_nonblocking
    set_reuseaddr s ls n =
        let (ok, o) = h.set_reuseaddr n.outside s in
        let n' = record n { outside = o } in
        if ok
        then set_nonblocking s ls (set_ipv6only s ls n')
        else (ls, close_logged s (note "setsockopt(SO_REUSEADDR) failed" n'))

    unfoldable pub with_socket : Option ℕ → Listening → Net S → Listening × Net S
    unfolding set_reuseaddr
    with_socket none ls n = (ls, note "socket() failed" n)
    with_socket (some s) ls n = set_reuseaddr s ls (record n { opened = s ∷ n.opened })

    -- ngx_ngxe_open_listening_socket
    unfoldable pub open_listening_socket : Listening → Net S → Listening × Net S
    unfolding with_socket
    open_listening_socket ls n =
        if ls.ignore || is_some ls.fd || ls.inherited
        then (ls, n)
        else (let (s, o) = h.socket n.outside in with_socket s ls (record n { outside = o }))

    -- ngx_ngxe_create_listening: `memory i` says whether the i-th allocation succeeds.
    unfoldable pub create_listening : (ℕ → Bool) → Family → SockAddr → Option Listening
    create_listening memory family addr =
        if memory 0 && memory 1 && memory 2
        then some (record {
          family = family;
          sockaddr = addr;
          addr_text_max_len = h.addr_strlen family;
          addr_text_len = h.sock_ntop addr;
          fd = none;
          ignore = false;
          inherited = false;
          ipv6only = false;
          listen = false;
          backlog = h.listen_backlog;
          pool_size = 0;
          previous = none;
          connection = none;
        })
        else none

    -- Lines 433 to 448: the accept event.
    unfoldable pub add_accept : ℕ → Net S → Bool × Net S
    add_accept c n =
        let (ok, o) = if h.rtsig_events then h.add_conn n.outside c else h.add_event n.outside c in
        (ok, record n { outside = o; accepts = c ∷ n.accepts })

    -- Lines 384 to 400: the accept event of the old cycle is deleted.
    unfoldable pub retire : Option ℕ → Net S → Bool × Net S
    retire none n = (true, n)
    retire (some old) n =
        let (ok, o) = h.del_event n.outside old in
        if ok
        then (true, record n { outside = o; retired = old ∷ n.retired })
        else (false, record n { outside = o })

    unfoldable pub connect_listening : Option ℕ → Listening → Net S → Bool × Listening × Net S
    unfolding add_accept retire
    connect_listening none ls n = (false, ls, n)
    connect_listening (some c) ls n =
        let ls' = record ls { connection = some c } in
        let (ok, n') = retire ls.previous n in
        if ok then (let (done, m) = add_accept c n' in (done, ls', m)) else (false, ls', n')

    -- ngx_ngxe_add_listening_connection, on a system that is not Windows
    unfoldable pub add_listening_connection : Listening → Net S → Bool × Listening × Net S
    unfolding connect_listening
    add_listening_connection ls n =
        let (c, o) = h.get_connection n.outside ls.fd in
        connect_listening c ls (record n { outside = o })
