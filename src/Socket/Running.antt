-- ===== src/Socket/Running.antt =====
-- How the socket of libsponge/tcp_helpers/tcp_sponge_socket opens, and its loop.
use nju_networking_lab.Base.{
  ℕ, List, [], ◌∷◌, Option, none, some, ◌>>=◌, Bool, true, false, not, ◌||◌, if◌then◌else◌, sub64,
}
use nju_networking_lab.Connection
use nju_networking_lab.Connection.{TcpConfig, TcpConnection}
use nju_networking_lab.State
use nju_networking_lab.State.{state_of, of_official, same_state, Official}
use nju_networking_lab.Adapter.{FdAdapterConfig}
use nju_networking_lab.Loop.{Rule, Result, Poll, exit, wait_next_event}
use nju_networking_lab.Socket.{AdapterOps, Given, TcpSpongeSocket}

module _ {A D : Type 0} (ops : AdapterOps A D) where
  unfoldable pub initialize_tcp : TcpConfig → TcpSpongeSocket A → TcpSpongeSocket A
  initialize_tcp config s = record s { tcp = some (Connection.fresh config) }

  -- The state is the official one.
  unfoldable pub is_in : Official → TcpSpongeSocket A → Option Bool
  is_in official s = s.tcp >>= λ c. some (same_state (state_of c) (of_official official))

  -- What the world does in a round of `_tcp_loop`.
  pub record Round : Type 0 where
    pub system_poll : List (Rule (TcpSpongeSocket A) (Given D) × Bool) → Poll (Given D)
    pub next_time : ℕ

  -- An active connection, and the adapter, are told the time that has passed; the new base time.
  tick_parts : ℕ → ℕ → TcpConnection → TcpSpongeSocket A → Option (ℕ × TcpSpongeSocket A)
  tick_parts base_time next_time c s =
      let ticked = Connection.tick (sub64 next_time base_time) c >>= λ c'. some (
        next_time,
        record s { tcp = some c'; adapter = ops.tick (sub64 next_time base_time) s.adapter },
      ) in
      if c.active then ticked else some (base_time, s)

  abbrev is_exit : Result → Bool
  is_exit exit = true
  is_exit _ = false

  -- `_tcp_loop`, for the rounds that the world gives: the rules that are left, and the socket.
  unfoldable pub tcp_loop :
      (TcpSpongeSocket A → Option Bool)
      → ℕ
      → List Round
      → List (Rule (TcpSpongeSocket A) (Given D))
      → TcpSpongeSocket A
      → Option (List (Rule (TcpSpongeSocket A) (Given D)) × TcpSpongeSocket A)
  unfolding tick_parts
  tcp_loop condition base_time [] rs s = some (rs, s)
  tcp_loop condition base_time (round ∷ rounds) rs s =
      let go = wait_next_event round.system_poll rs s >>= λ x.
      (let later = (x.2).tcp >>= λ c.
      tick_parts base_time round.next_time c x.2 >>= λ y. tcp_loop condition y.0 rounds x.1 y.1 in
        if is_exit x.0 || (x.2).abort then some (x.1, x.2) else later) in
      condition s >>= λ more. (if more then go else some (rs, s))

  abbrev is_initialized : Option TcpConnection → Bool
  is_initialized none = false
  is_initialized (some c) = true

  -- `connect` up to its loop: `none` is one of its two exceptions.
  unfoldable pub start_connect :
      TcpConfig → FdAdapterConfig → TcpSpongeSocket A → Option (TcpSpongeSocket A)
  start_connect c_tcp c_ad s =
      let s' = record (initialize_tcp c_tcp s) { adapter = ops.set_config c_ad s.adapter } in
      let go = s'.tcp >>= λ c. Connection.connect c >>= λ c'.
      (let s'' = record s' { tcp = some c' } in
        is_in State.syn_sent s'' >>= λ expected. (if not expected then none else some s'')) in
      if is_initialized s.tcp then none else go

  -- `listen_and_accept` up to its loop.
  unfoldable pub start_listening :
      TcpConfig → FdAdapterConfig → TcpSpongeSocket A → Option (TcpSpongeSocket A)
  start_listening c_tcp c_ad s =
      if is_initialized s.tcp
      then none
      else some (record (initialize_tcp c_tcp s) {
        adapter = ops.set_listening true (ops.set_config c_ad s.adapter);
      })

  -- The loop of `listen_and_accept` goes on in three states.
  unfoldable pub accepting : TcpSpongeSocket A → Option Bool
  accepting s = is_in State.listen s >>= λ a.
      is_in State.syn_rcvd s >>= λ b. is_in State.syn_sent s >>= λ c. some (a || (b || c))

  -- `_tcp_main`: the loop until nothing is left to do; then the connection goes away. The shutdown
  -- in between is of the application's end of the pipe, which is not part of the state.
  unfoldable pub tcp_main :
      ℕ
      → List Round
      → List (Rule (TcpSpongeSocket A) (Given D))
      → TcpSpongeSocket A
      → Option (TcpSpongeSocket A)
  tcp_main base_time rounds rs s = s.tcp >>= λ c.
      tcp_loop (λ s. some true) base_time rounds rs s >>= λ x. some (record (x.1) { tcp = none })
