-- ===== src/Natives/Sockets.antt =====
-- natives/inet_TcpSocket_std.c and natives/inet_TcpServerSocket_std.c: TCP sockets. A method gives its
-- cell, and the memory with the calls that open and close descriptors.
pub mod Laws
use sedona_vm_debug.Base.{
  ℕ, ◌+◌, ◌-◌, ◌^◌, Bool, not, List, [], ◌∷◌, Option, none, some, ◌==◌, if◌then◌else◌, length,
}
use sedona_vm_debug.Vm.Word.{Memory, to_u64, update, extend}
use sedona_vm_debug.Vm.Fields.{get_byte, set_byte_field, get_int, set_int}
use sedona_vm_debug.Natives.Component.{zero_cell, one_cell}
use sedona_vm_debug.Natives.Sys.{neg_one_cell}

-- What `recv` gives: bytes, none of them when the peer has shut down, or an error.
pub data Received : Type 0 where
  received : List ℕ → Received
  recv_would_block recv_failed : Received

-- What `send` gives: how many bytes it took, or an error.
pub data Sent : Type 0 where
  sent : ℕ → Sent
  send_would_block send_failed : Sent

-- What the calls of the system give in one method: a descriptor, or `none` below zero; whether a call
-- succeeds; of `select` whether nothing is ready, it fails, or the descriptor is in the exceptions; and
-- whether the socket has an error.
pub record Net : Type 0 where
  pub socket : Option ℕ
  pub reuses : Bool
  pub binds : Bool
  pub listens : Bool
  pub unblocks : Bool
  pub connects : Bool
  pub would_block : Bool
  pub accepts : Option ℕ
  pub pending : Bool
  pub excepted : Bool
  pub select_fails : Bool
  pub socket_error : Bool

-- The system gives a descriptor, or the program closes one.
pub data Call : Type 0 where
  gives closes : ℕ → Call

-- The latest call is first.
pub record Sockets : Type 0 where
  pub memory : Memory
  pub calls : List Call

abbrev pub get_closed : Memory → ℕ → ℕ
get_closed m self = get_byte m self 0

abbrev pub set_closed : Memory → ℕ → ℕ → Memory
set_closed m self val = set_byte_field m self 0 val

abbrev pub get_socket : Memory → ℕ → ℕ
get_socket m self = get_int m self 4

abbrev pub set_socket : Memory → ℕ → ℕ → Memory
set_socket m self val = set_int m self 4 val

-- `socket` or `accept` gave a descriptor.
abbrev pub opened : ℕ → Sockets → Sockets
opened sock s = record s { calls = gives sock ∷ s.calls }

-- `closesocket`.
abbrev pub close_socket : ℕ → Sockets → Sockets
close_socket sock s = record s { calls = closes sock ∷ s.calls }

-- `false`, with the descriptor closed again.
abbrev pub give_up : ℕ → Sockets → ℕ × Sockets
give_up sock s = (zero_cell, close_socket sock s)

abbrev pub connect_with : Net → ℕ → ℕ → Sockets → ℕ × Sockets
connect_with net self sock s =
    if not net.unblocks
    then give_up sock s
    else if not net.connects
    then (if net.would_block
        then (one_cell, record s { memory = set_socket s.memory self sock })
        else give_up sock s)
    else (one_cell, record s { memory = set_socket s.memory self sock })

abbrev pub connect_socket : Net → ℕ → Option ℕ → Sockets → ℕ × Sockets
connect_socket net self none s = (zero_cell, s)
connect_socket net self (some sock) s = connect_with net self sock (opened sock s)

unfoldable pub tcp_socket_connect : Net → ℕ → Sockets → ℕ × Sockets
tcp_socket_connect net self s = connect_socket net self net.socket s

unfoldable pub tcp_socket_finish_connect : Net → ℕ → Sockets → ℕ × Sockets
tcp_socket_finish_connect net self s =
    if net.pending
    then (zero_cell, s)
    else if net.excepted
    then (one_cell, s)
    else if net.select_fails
    then (one_cell, s)
    else if net.socket_error
    then (one_cell, s)
    else (one_cell, record s { memory = set_closed s.memory self 0 })

-- `closesocket`, and a descriptor of -1.
unfoldable pub shut : ℕ → Sockets → Sockets
shut self s =
    let s = close_socket (get_socket s.memory self) s in
    record s { memory = set_socket (set_closed s.memory self 1) self (2 ^ 32 - 1) }

unfoldable pub tcp_socket_close : ℕ → Sockets → ℕ × Sockets
tcp_socket_close self s = (zero_cell, shut self s)

unfoldable pub tcp_socket_write : Sent → ℕ → Sockets → ℕ × Sockets
tcp_socket_write (sent n) self s = (n, s)
tcp_socket_write send_would_block self s = (zero_cell, s)
tcp_socket_write send_failed self s = (neg_one_cell, shut self s)

-- The bytes that `recv` stores.
unfoldable pub store_bytes : Memory → ℕ → List ℕ → Memory
store_bytes m addr [] = m
store_bytes m addr (b ∷ bs) = store_bytes (update m (to_u64 addr) b) (addr + 1) bs

unfoldable pub tcp_socket_read : Received → ℕ → ℕ → ℕ → Sockets → ℕ × Sockets
tcp_socket_read (received []) self buf off s = (neg_one_cell, shut self s)
tcp_socket_read (received (b ∷ bs)) self buf off s =
    (length (b ∷ bs), record s { memory = store_bytes s.memory (buf + extend 32 off) (b ∷ bs) })
tcp_socket_read recv_would_block self buf off s = (zero_cell, s)
tcp_socket_read recv_failed self buf off s = (neg_one_cell, s)

abbrev pub bind_with : Net → ℕ → ℕ → Sockets → ℕ × Sockets
bind_with net self sock s =
    if not net.reuses
    then give_up sock s
    else if not net.binds
    then give_up sock s
    else if not net.listens
    then give_up sock s
    else if not net.unblocks
    then give_up sock s
    else (one_cell, record s { memory = set_closed (set_socket s.memory self sock) self 0 })

abbrev pub bind_socket : Net → ℕ → Option ℕ → Sockets → ℕ × Sockets
bind_socket net self none s = (zero_cell, s)
bind_socket net self (some sock) s = bind_with net self sock (opened sock s)

unfoldable pub tcp_server_socket_bind : Net → ℕ → Sockets → ℕ × Sockets
tcp_server_socket_bind net self s =
    if get_closed s.memory self == 0 then (zero_cell, s) else bind_socket net self net.socket s

abbrev pub accept_socket : Net → ℕ → Option ℕ → Sockets → ℕ × Sockets
accept_socket net accepted none s = (zero_cell, s)
accept_socket net accepted (some sock) s =
    let s = opened sock s in
    if not net.unblocks
    then give_up sock s
    else (one_cell, record s { memory = set_closed (set_socket s.memory accepted sock) accepted 0 })

unfoldable pub tcp_server_socket_accept : Net → ℕ → Sockets → ℕ × Sockets
tcp_server_socket_accept net accepted s = accept_socket net accepted net.accepts s

unfoldable pub tcp_server_socket_close : ℕ → Sockets → ℕ × Sockets
tcp_server_socket_close self s =
    (zero_cell, if get_closed s.memory self == 0 then shut self s else s)
