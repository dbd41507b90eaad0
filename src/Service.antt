-- ===== src/Service.antt =====
-- server.go: the users of a Service, and one flow up to its handler. `usersMu` makes each change of the
-- users one step.
pub mod Users
pub mod Dispatched
pub mod Gate
pub mod Once
pub mod History
pub mod Session
pub mod Conn
pub mod Calls
pub mod FirstDatagram
pub mod UdpSession
pub mod Toy
mod Tests
use sing_ewp.Framer.{read_message}
use sing_ewp.StreamConn.{StreamConn}
use sing_ewp.PacketConn.{new_server_packet_conn, PacketConn}
use sing_ewp.Handshake.Asymmetric.{KeyExchange}
use sing_ewp.Uuid.{parse_uuid}
use sing_ewp.Kdf.{SessionKeys}
use sing_ewp.Frame.{udp_new}
use sing_ewp.Crypto.{Primitives}
use sing_ewp.SecureStream.{recv_event, new_server_stream, SecureStream}
use sing_ewp.AntiReplay.{new_replay_cache, replay_window, ReplayCache}
use sing_ewp.Handshake.{UuidLookup, make_uuid_lookup, accept_client_hello, ServerTimes}
use sing_ewp.Address.{Address}
use sing_ewp.Errors.{
  err, Result, bad_command, ok, unexpected_frame, Error, ◌>>=◌, transport, nil_key,
}
use sing_ewp.Hello.{ClientHello, command_tcp, command_udp, or_fail}
use sing_ewp.Prelude.{
  ◌==◌, none, false, if◌then◌else◌, ◌∷◌, ◌++◌, Bool, ℕ, some, bytes_eq, true, ◌||◌, Option, not, [],
  List,
}

pub record Service : Type 0 where
  pub users : List (List ℕ)
  -- rebuilt on each change of the users
  pub lookup : UuidLookup
  pub replay : Option ReplayCache

-- `existing == u` for one of the users
unfoldable pub listed : List ℕ → List (List ℕ) → Bool
listed u [] = false
listed u (v ∷ vs) = bytes_eq v u || listed u vs

-- `append(s.users[:i], s.users[i+1:]...)` at the first match
unfoldable pub remove_first : List ℕ → List (List ℕ) → List (List ℕ)
remove_first u [] = []
remove_first u (v ∷ vs) = let rest = remove_first u vs in if bytes_eq v u then vs else v ∷ rest

module _ (p : Primitives) where
  abbrev pub rebuild_lookup : Service → Service
  rebuild_lookup s = record s { lookup = make_uuid_lookup p s.users }

  -- NewService, without its handler
  abbrev pub new_service : Service
  new_service = record {
    users = [];
    lookup = make_uuid_lookup p [];
    replay = some (new_replay_cache replay_window);
  }

  abbrev pub set_replay_cache : Option ReplayCache → Service → Service
  set_replay_cache cache s = record s { replay = cache }

  unfoldable pub add_user : List ℕ → Service → Service × Option Error
  add_user uuid_str s = elim (parse_uuid uuid_str) [
    | err e ↦ (s, some e)
    | ok u ↦
        if listed u s.users
        then (s, none)
        else (rebuild_lookup (record s { users = s.users ++ (u ∷ []) }), none)
  ]

  unfoldable pub remove_user : List ℕ → Service → Service × Bool
  remove_user uuid_str s = elim (parse_uuid uuid_str) [
    | err e ↦ (s, false)
    | ok u ↦
        if listed u s.users
        then (rebuild_lookup (record s { users = remove_first u s.users }), true)
        else (s, false)
  ]

-- The fields of Metadata that come from the hello; Source is the remote address of the connection.
pub record Metadata : Type 0 where
  pub user_uuid : List ℕ
  pub destination : Address

-- The two calls of the handler.
pub data Dispatch : Type 0 where
  new_connection : StreamConn → Metadata → Dispatch
  new_packet_connection : PacketConn → Metadata → Dispatch

module _ (p : Primitives) where
  -- The CommandUDP case: the wait for the first UDP_NEW. `underlying` says that the underlying
  -- connection is not nil.
  unfoldable pub dispatch_udp : Bool → SecureStream → Metadata → Result (List ℕ) → Result Dispatch
  dispatch_udp underlying stream meta first =
      let (stream', r) = recv_event p first stream in
      r >>= λ ev.
      if not (ev.type == udp_new)
      then err unexpected_frame
      else (let dst = if ev.has_addr then ev.address else meta.destination in
          ok (
            new_packet_connection
              (new_server_packet_conn stream' underlying ev.global_id dst ev.payload) meta))

  -- The switch on the command.
  unfoldable pub dispatch : Bool → ClientHello → SessionKeys → Result (List ℕ) → Result Dispatch
  dispatch underlying ch keys first =
      let stream = new_server_stream keys in
      let meta : Metadata = record { user_uuid = ch.uuid; destination = ch.address } in
      if ch.command == command_tcp
      then ok (new_connection (record { stream = stream; read_buf = [] }) meta)
      else if ch.command == command_udp
      then dispatch_udp underlying stream meta first
      else err bad_command

-- SendMessage of the answer: the messages that the transport took, and the error.
unfoldable pub offer : (List ℕ → Bool) → List ℕ → List (List ℕ) × Option Error
offer delivers m = if delivers m then (m ∷ [], none) else ([], some transport)

-- The service after a flow, the call of the handler or the error, and the messages that the transport
-- took before the handler was called.
abbrev pub Handled : Type 0
Handled = Service × Result Dispatch × List (List ℕ)

module _ (p : Primitives) (kx : KeyExchange) where
  -- handleTransport up to the call of the handler. `hello` and `first` are what ReadMessage gives, the
  -- second for UDP; `s` is the service when the call takes its lookup and cache. Every error closes the
  -- transport. The lookup is never nil, since NewService builds one; the result of a successful
  -- accept has a ClientHello, so the last error does not occur.
  unfoldable pub handle_transport :
      ServerTimes
      → Option (List ℕ)
      → List ℕ
      → (List ℕ → Bool)
      → Bool
      → Result (List ℕ)
      → Result (List ℕ)
      → Service
      → Handled
  handle_transport times x25519_key coins delivers underlying (err e) first s = (s, err e, [])
  handle_transport times x25519_key coins delivers underlying (ok msg) first s =
      let (cache, r) = accept_client_hello p kx s.lookup times x25519_key coins msg s.replay in
      let answered : Result Dispatch × List (List ℕ) = elim r [
        | err e ↦ (err e, [])
        | ok (out, res) ↦
            let (sent, failure) = offer delivers out in
            elim failure [
              | some e ↦ (err e, sent)
              | none ↦ (
                or_fail res.client_hello nil_key >>= λ ch. dispatch p underlying ch res.keys first,
                sent,
              )
            ]
      ] in
      (record s { replay = cache }, answered.0, answered.1)

  -- HandleConn: the bytes of the connection through a LengthFramer, whose SendMessage may fail.
  unfoldable pub handle_conn :
      ServerTimes → Option (List ℕ) → List ℕ → (List ℕ → Bool) → List ℕ → Service → Handled
  handle_conn times x25519_key coins delivers input s =
      let (left, hello) = read_message input in
      let (left', first) = read_message left in
      handle_transport times x25519_key coins delivers true hello first s
