-- ===== src/World.antt =====
-- The objects of the library at their addresses, beside the operating system: what a member
-- function reads and writes through its pointers. An address with no object is dangling.
-- Objects stay at their addresses; the counts of the shared pointers are not kept.
use librapid.Prelude.{◌+◌, ℕ, ℤ, Bool, Option, none, some, List, ◌==◌, if◌then◌else◌}
use librapid.Kernel.{Kernel, SockAddr}
use librapid.Outcome.{Outcome, ok, thrown, stuck, M, dangling, modify}
use librapid.Channel.{Channel}
use librapid.Uuid.{Uuid}

-- A std::function<void(std::shared_ptr<TcpConnection>)>: the closures that the server and the client
-- install, or a handler of the program, by a number.
pub data Handler : Type 0 where
  user : ℕ → Handler
  server_close : Handler
  client_close : Handler

pub data ConnectionState : Type 0 where
  disconnected connecting connected disconnecting : ConnectionState

-- class TcpConnection; the buffers are their characters.
pub record TcpConnection : Type 0 where
  pub state : ConnectionState
  pub id : Uuid
  pub loop : ℕ
  pub channel : ℕ
  pub connected_handler : Option Handler
  pub read_handler : Option Handler
  pub write_handler : Option Handler
  pub close_handler : Option Handler
  pub read_buffer : List ℕ
  pub write_buffer : List ℕ

-- class EventLoop with its EPollPoller. Of the vector events_ only the size is kept.
pub record EventLoop : Type 0 where
  pub quit : Bool
  pub epollfd : ℤ
  pub events_size : ℕ
  pub wakeup_channel : ℕ
  pub active_channels : List ℕ
  pub running : Bool  -- thread_ runs

-- class EventLoopPool
pub record EventLoopPool : Type 0 where
  pub count : ℕ  -- uint32_t
  pub loops : List ℕ

-- A std::function<void(int, sockaddr_storage, socklen_t)>: that of the server, or one of the program.
pub data AcceptHandler : Type 0 where
  user_accept : ℕ → AcceptHandler
  server_accept : AcceptHandler

-- class Acceptor
pub record Acceptor : Type 0 where
  pub channel : ℕ
  pub new_connection_handler : Option AcceptHandler

-- enum class ConnectState
pub data ConnectState : Type 0 where
  dialling established broken_off : ConnectState

-- A std::function<void(int)>: that of the client, or one of the program.
pub data ConnectedHandler : Type 0 where
  user_connected : ℕ → ConnectedHandler
  client_connected : ConnectedHandler

-- class Connector. No constructor sets state_.
pub record Connector : Type 0 where
  pub loop : ℕ
  pub state : ConnectState
  pub channel : Option ℕ
  pub server_addr : SockAddr
  pub connected_handler : Option ConnectedHandler

-- class TcpServer. clients_ is an association list with each key once.
pub record TcpServer : Type 0 where
  pub pool : EventLoopPool
  pub acceptor : Option ℕ
  pub connected_handler : Option Handler
  pub read_handler : Option Handler
  pub write_handler : Option Handler
  pub close_handler : Option Handler
  pub locked : Bool  -- mutex_
  pub clients : List (Uuid × ℕ)

-- class TcpClient
pub record TcpClient : Type 0 where
  pub loop : ℕ
  pub connector : Option ℕ
  pub connection : Option ℕ
  pub read_handler : Option Handler
  pub write_handler : Option Handler
  pub close_handler : Option Handler

pub record World (K : Kernel) : Type 0 where
  pub kernel : K.State
  pub loops : ℕ → Option EventLoop
  pub channels : ℕ → Option Channel
  pub connections : ℕ → Option TcpConnection
  pub acceptors : ℕ → Option Acceptor
  pub connectors : ℕ → Option Connector
  pub fresh : ℕ  -- where the next object goes
  pub server : TcpServer
  pub client : TcpClient

-- A store without the object at one address.
abbrev pub without : {A : Type 0} → (ℕ → Option A) → ℕ → ℕ → Option A
without f p q = if p == q then none else f q

-- A store with the object at one address given anew.
abbrev pub update : {A : Type 0} → (ℕ → Option A) → ℕ → A → ℕ → Option A
update f p v q = if p == q then some v else f q

module _ {K : Kernel} where
  abbrev pub deref : {A : Type 0} → Option A → M (World K) A
  deref none w = stuck dangling
  deref (some a) w = ok a w

  unfoldable pub connection : ℕ → M (World K) TcpConnection
  connection p w = deref (w.connections p) w

  unfoldable pub channel : ℕ → M (World K) Channel
  channel p w = deref (w.channels p) w

  unfoldable pub event_loop : ℕ → M (World K) EventLoop
  event_loop p w = deref (w.loops p) w

  unfoldable pub acceptor : ℕ → M (World K) Acceptor
  acceptor p w = deref (w.acceptors p) w

  unfoldable pub connector : ℕ → M (World K) Connector
  connector p w = deref (w.connectors p) w

  -- Where `new` puts the next object.
  unfoldable pub allocate : M (World K) ℕ
  allocate w = ok w.fresh (record w { fresh = w.fresh + 1 })

  unfoldable pub put_acceptor : ℕ → Acceptor → M (World K) (Unit {0})
  put_acceptor p a = modify λ w. record w { acceptors = update w.acceptors p a }

  unfoldable pub put_connector : ℕ → Connector → M (World K) (Unit {0})
  put_connector p c = modify λ w. record w { connectors = update w.connectors p c }

  unfoldable pub put_connection : ℕ → TcpConnection → M (World K) (Unit {0})
  put_connection p c = modify λ w. record w { connections = update w.connections p c }

  unfoldable pub put_channel : ℕ → Channel → M (World K) (Unit {0})
  put_channel p c = modify λ w. record w { channels = update w.channels p c }

  unfoldable pub put_loop : ℕ → EventLoop → M (World K) (Unit {0})
  put_loop p l = modify λ w. record w { loops = update w.loops p l }

  abbrev pub settle :
      {A : Type 0} → ℕ → World K → Outcome (Channel × K.State) A → Outcome (World K) A
  settle p w (ok a (c, k)) = ok a (record w { kernel = k; channels = update w.channels p c })
  settle p w (thrown e (c, k)) =
      thrown e (record w { kernel = k; channels = update w.channels p c })
  settle p w (stuck f) = stuck f

  -- A method of the channel at p, with the poller of the loop that the channel points to.
  unfoldable pub on_site : {A : Type 0} → ℕ → (ℤ → M (Channel × K.State) A) → M (World K) A
  on_site p method w = elim (w.channels p) [
    | none ↦ stuck dangling
    | some c ↦ elim (w.loops c.loop) [
      | none ↦ stuck dangling
      | some l ↦ settle p w (method l.epollfd (c, w.kernel))
    ]
  ]
