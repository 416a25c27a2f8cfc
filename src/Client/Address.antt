-- ===== src/Client/Address.antt =====
-- src/Client.cpp: the addresses of a connection's ends, and withSockAddr.
use async_tcpsock.Base.{ℕ, List, ◌≡◌, ◌≢◌, true, not, arith, ◌==◌, if◌then◌else◌}
use async_tcpsock.Os.{Os, SockName}
use async_tcpsock.Connection.{is_open}
use async_tcpsock.Client.State.{ClientBase}

module _ (os : Os) where
  open os use {World}

  -- What is read from the memory once the getter has run. Its parameter `size` is a copy, so what
  -- the call reports through it does not come back: `size` is still the size of the memory.
  unfoldable pub read_sock_addr : {R : Type 0} → (List ℕ → R) → (List ℕ → R) → R → ℕ → List ℕ → R
  read_sock_addr use_ipv4 use_ipv6 empty size memory =
      if size == os.sizeof_in
      then use_ipv4 memory
      else if size == os.sizeof_in6
      then use_ipv6 memory
      else empty

  -- withSockAddr: `empty` is the result `{}`.
  unfoldable pub with_sock_addr :
      {R : Type 0}
      → (ℕ → World → SockName × World)
      → (List ℕ → R)
      → (List ℕ → R)
      → R
      → World
      → R × World
  unfolding read_sock_addr
  with_sock_addr getter use_ipv4 use_ipv6 empty w =
      let (name, w') = getter os.sizeof_storage w in
      (read_sock_addr use_ipv4 use_ipv6 empty os.sizeof_storage name.memory, w')

  unfoldable pub remote_ip : ClientBase → World → ℕ × World
  unfolding is_open with_sock_addr
  remote_ip c w =
      if not (is_open c.connection)
      then (os.ip_none, w)
      else with_sock_addr (os.get_peer_name c.socket) os.address_in os.address_in6 os.ip_none w

  unfoldable pub remote_port : ClientBase → World → ℕ × World
  unfolding is_open with_sock_addr
  remote_port c w =
      if not (is_open c.connection)
      then (0, w)
      else with_sock_addr (os.get_peer_name c.socket) os.port_in os.port_in6 0 w

  unfoldable pub local_ip : ClientBase → World → ℕ × World
  unfolding is_open with_sock_addr
  local_ip c w =
      if not (is_open c.connection)
      then (os.ip_none, w)
      else with_sock_addr (os.get_sock_name c.socket) os.address_in os.address_in6 os.ip_none w

  unfoldable pub local_port : ClientBase → World → ℕ × World
  unfolding is_open with_sock_addr
  local_port c w =
      if not (is_open c.connection)
      then (0, w)
      else with_sock_addr (os.get_sock_name c.socket) os.port_in os.port_in6 0 w

  -- If the memory for an address has the size of an IPv6 address and not that of an IPv4 one, then
  -- of an open client all four address queries read it as an IPv6 address, whatever size the call
  -- reports.
  addresses_as_ipv6 :
      (c : ClientBase) (w : World)
      → is_open c.connection ≡ true
      → os.sizeof_storage ≡ os.sizeof_in6
      → os.sizeof_in ≢ os.sizeof_in6
      → let peer = (os.get_peer_name c.socket os.sizeof_storage w).0 in
        let own = (os.get_sock_name c.socket os.sizeof_storage w).0 in
        ((remote_ip c w).0 ≡ os.address_in6 peer.memory)
        × ((remote_port c w).0 ≡ os.port_in6 peer.memory)
        × ((local_ip c w).0 ≡ os.address_in6 own.memory)
        × ((local_port c w).0 ≡ os.port_in6 own.memory)
  unfolding remote_ip remote_port local_ip local_port
  addresses_as_ipv6 c w o storage differ = ground arith
