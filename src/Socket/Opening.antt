-- ===== src/Socket/Opening.antt =====
-- A socket that connects, and one that listens.
use nju_networking_lab.Base.{◌≡◌, refl, some, none, true}
use nju_networking_lab.Connection
use nju_networking_lab.Connection.{TcpConfig, TcpConnection}
use nju_networking_lab.State
use nju_networking_lab.State.{state_of, of_official, same_state}
use nju_networking_lab.State.Opening.{connect-state_of}
use nju_networking_lab.Adapter.{FdAdapterConfig}
use nju_networking_lab.Socket.{AdapterOps, TcpSpongeSocket}
use nju_networking_lab.Socket.Running.{initialize_tcp, is_in, start_connect}

module _ {A D : Type 0} (ops : AdapterOps A D) where
  same_syn_sent :
      (c : TcpConnection)
      → state_of c ≡ of_official State.syn_sent
      → same_state (state_of c) (of_official State.syn_sent) ≡ true
  unfolding same_state of_official
  same_syn_sent c e = rw (e) refl

  -- On a socket without a connection, `connect` never throws: it gets past the test of the state,
  -- with the connection in SYN_SENT, where its loop begins.
  pub start_connect_lem :
      (c_tcp : TcpConfig) (c_ad : FdAdapterConfig) (s : TcpSpongeSocket A)
      → s.tcp ≡ none
      → (s' : TcpSpongeSocket A) × (start_connect ops c_tcp c_ad s ≡ some s')
        × (is_in ops State.syn_sent s' ≡ some true)
  unfolding start_connect is_in initialize_tcp
  start_connect_lem c_tcp c_ad s e = go (connect-state_of c_tcp).1
    where
      go :
          ((c : TcpConnection) × (Connection.connect (Connection.fresh c_tcp) ≡ some c)
            × (state_of c ≡ of_official State.syn_sent))
          → (s' : TcpSpongeSocket A) × (start_connect ops c_tcp c_ad s ≡ some s')
            × (is_in ops State.syn_sent s' ≡ some true)
      go (c, run, state) = (
        record s { tcp = some c; adapter = ops.set_config c_ad s.adapter },
        rw (e) (rw (run) (rw (same_syn_sent c state) refl)),
        rw (same_syn_sent c state) refl,
      )
