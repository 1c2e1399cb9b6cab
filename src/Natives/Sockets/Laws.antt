-- ===== src/Natives/Sockets/Laws.antt =====
-- natives/inet_TcpSocket_std.c and natives/inet_TcpServerSocket_std.c: a descriptor is closed or kept.
use sedona_vm_debug.Base.{
  ℕ, ◌+◌, ◌^◌, ◌%◌, ◌<◌, ◌≡◌, refl, ap, arith, ◌∙◌, false, Bool-cases, inl, inr, ◌==◌, some, none,
  Option, ◌∷◌,
}
use sedona_vm_debug.Vm.Word.{Memory, to_u64, store_u8, load_u32}
use sedona_vm_debug.Vm.Fields.Laws.{getters-setters}
use sedona_vm_debug.Vm.Fields.{get_int, set_byte_field}
use sedona_vm_debug.Natives.Component.{zero_cell, one_cell}
use sedona_vm_debug.Natives.Sockets.{
  Net, Sockets, gives, give_up, opened, connect_with, bind_with, connect_socket, tcp_socket_connect,
  bind_socket, tcp_server_socket_bind, accept_socket, tcp_server_socket_accept, get_socket,
  get_closed, set_socket, set_closed,
}

-- A method that opens a socket: `false` with no descriptor given, `false` with the descriptor closed
-- again, or `true` with a descriptor that the object has.
pub data Opens (self : ℕ) (s : Sockets) : ℕ × Sockets → Type 0 where
  refused : Opens self s (zero_cell, s)
  gives_up : (sock : ℕ) → Opens self s (give_up sock (opened sock s))
  opens :
      (sock : ℕ) (m : Memory)
      → get_socket m self ≡ sock % 2 ^ 32
      → Opens self s (one_cell, record { memory = m; calls = gives sock ∷ s.calls })

-- The byte of `closed` and the descriptor at offset 4 do not overlap.
apart :
    (self k : ℕ) → k < 4 → (to_u64 (to_u64 (self + 4) + k) == to_u64 (to_u64 (self + 0))) ≡ false
apart self k h = ground arith

load_u32-store_u8 :
    (m : Memory) (a b v : ℕ)
    → ((k : ℕ) → k < 4 → (to_u64 (a + k) == to_u64 b) ≡ false)
    → load_u32 (store_u8 m b v) a ≡ load_u32 m a
load_u32-store_u8 m a b v h =
    let h0 : (to_u64 a == to_u64 b) ≡ false =
      ap (λ i. to_u64 i == to_u64 b) (omega arith) ∙ h 0 (omega arith) in
    let h1 = h 1 (omega arith) in
    let h2 = h 2 (omega arith) in
    let h3 : (to_u64 (a + 2 + 1) == to_u64 b) ≡ false =
      ap (λ i. to_u64 i == to_u64 b) (omega arith) ∙ h 3 (omega arith) in
    rw h0 (rw h1 (rw h2 (rw h3 refl)))

get_socket-set_socket :
    (m : Memory) (self v : ℕ) → get_socket (set_socket m self v) self ≡ v % 2 ^ 32
get_socket-set_socket m self v = (getters-setters m self 4 v).2

get_socket-set_closed :
    (m : Memory) (self v : ℕ) → get_socket (set_closed m self v) self ≡ get_socket m self
unfolding get_int set_byte_field
get_socket-set_closed m self v = load_u32-store_u8 m _ _ v (apart self)

stored-Opens :
    (self sock : ℕ) (s : Sockets)
    → Opens self s
        (one_cell, record { memory = set_socket s.memory self sock; calls = gives sock ∷ s.calls })
stored-Opens self sock s = opens sock _ (get_socket-set_socket s.memory self sock)

unclosed-Opens :
    (self sock : ℕ) (s : Sockets)
    → Opens self s (
      one_cell,
      record {
        memory = set_closed (set_socket s.memory self sock) self 0;
        calls = gives sock ∷ s.calls;
      },
    )
unclosed-Opens self sock s = opens sock _ (
    get_socket-set_closed (set_socket s.memory self sock) self 0
    ∙ get_socket-set_socket s.memory self sock)

connect_with-Opens :
    (net : Net) (self sock : ℕ) (s : Sockets)
    → Opens self s (connect_with net self sock (opened sock s))
connect_with-Opens net self sock s = elim (Bool-cases net.unblocks) [
  | inr h ↦ rw h (gives_up sock)
  | inl h ↦ elim (Bool-cases net.connects) [
    | inl c ↦ rw (h, c) (stored-Opens self sock s)
    | inr c ↦ elim (Bool-cases net.would_block) [
      | inl w ↦ rw (h, c, w) (stored-Opens self sock s)
      | inr w ↦ rw (h, c, w) (gives_up sock)
    ]
  ]
]

bind_with-Opens :
    (net : Net) (self sock : ℕ) (s : Sockets)
    → Opens self s (bind_with net self sock (opened sock s))
bind_with-Opens net self sock s = elim (Bool-cases net.reuses) [
  | inr h ↦ rw h (gives_up sock)
  | inl h ↦ elim (Bool-cases net.binds) [
    | inr b ↦ rw (h, b) (gives_up sock)
    | inl b ↦ elim (Bool-cases net.listens) [
      | inr l ↦ rw (h, b, l) (gives_up sock)
      | inl l ↦ elim (Bool-cases net.unblocks) [
        | inr u ↦ rw (h, b, l, u) (gives_up sock)
        | inl u ↦ rw (h, b, l, u) (unclosed-Opens self sock s)
      ]
    ]
  ]
]

connect_socket-Opens :
    (net : Net) (self : ℕ) (sock : Option ℕ) (s : Sockets)
    → Opens self s (connect_socket net self sock s)
connect_socket-Opens net self none s = refused
connect_socket-Opens net self (some sock) s = connect_with-Opens net self sock s

bind_socket-Opens :
    (net : Net) (self : ℕ) (sock : Option ℕ) (s : Sockets)
    → Opens self s (bind_socket net self sock s)
bind_socket-Opens net self none s = refused
bind_socket-Opens net self (some sock) s = bind_with-Opens net self sock s

bind-Opens : (net : Net) (self : ℕ) (s : Sockets) → Opens self s (tcp_server_socket_bind net self s)
unfolding tcp_server_socket_bind
bind-Opens net self s = elim (Bool-cases (get_closed s.memory self == 0)) [
  | inl h ↦ rw h refused
  | inr h ↦ rw h (bind_socket-Opens net self net.socket s)
]

accept_socket-Opens :
    (net : Net) (accepted : ℕ) (sock : Option ℕ) (s : Sockets)
    → Opens accepted s (accept_socket net accepted sock s)
accept_socket-Opens net accepted none s = refused
accept_socket-Opens net accepted (some sock) s = elim (Bool-cases net.unblocks) [
  | inr h ↦ rw h (gives_up sock)
  | inl h ↦ rw h (unclosed-Opens accepted sock s)
]

-- Each method that opens a socket (`connect`, `bind` and `accept`) leaves the memory as it was and
-- gives false, with no descriptor or with one that it has closed again, or gives true with one that
-- it has not closed, which `getSocket` of its object gives, cut to 32 bits.
pub sockets-Opens :
    (net : Net) (self : ℕ) (s : Sockets)
    → Opens self s (tcp_socket_connect net self s)
      × Opens self s (tcp_server_socket_bind net self s)
      × Opens self s (tcp_server_socket_accept net self s)
unfolding tcp_socket_connect tcp_server_socket_accept
sockets-Opens net self s = (
  connect_socket-Opens net self net.socket s,
  bind-Opens net self s,
  accept_socket-Opens net self net.accepts s,
)
