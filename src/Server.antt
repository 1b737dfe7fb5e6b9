-- ===== src/Server.antt =====
-- src/tcpserver.cpp: the connections that an acceptor brings in, by their ids.
pub mod Clients
pub mod Close
pub mod Stop
pub mod Turns
pub mod Refines
pub mod Refused
pub mod Restart
pub mod Enter
pub mod Steady
pub mod Threads
pub mod Thrown
pub mod Session
pub mod Registry
use librapid.Prelude.{
  ℕ, ℤ, Bool, true, false, not, Option, none, some, List, [], ◌∷◌, if◌then◌else◌,
}
use librapid.Kernel.{Kernel}
use librapid.Handle.{handle}
use librapid.Outcome.{
  Outcome, ok, thrown, stuck, M, pure, fault, relock, invoke, ensure_or_throw, within, ◌>>=◌, ◌>>◌,
}
use librapid.Uuid.{Uuid, uuid_eq, new_uuid}
use librapid.World.{
  World, Handler, server_close, AcceptHandler, server_accept, TcpServer, EventLoopPool, connection,
  put_connection, allocate,
}
use librapid.Connection.{construct, connect_established, connect_destroyed}
use librapid.LoopPool
use librapid.Acceptor
use librapid.EventLoop.Build.{destroy_loops}

abbrev pub Clients : Type 0
Clients = List (Uuid × ℕ)

-- clients_.insert: a key that is there keeps its value.
unfoldable pub lookup : Uuid → Clients → Option ℕ
lookup id [] = none
lookup id ((k, c) ∷ m) = if uuid_eq k id then some c else lookup id m

unfoldable pub insert : Uuid → ℕ → Clients → Clients
unfolding lookup
insert id c m = elim (lookup id m) [ none ↦ (id, c) ∷ m | some _ ↦ m ]

unfoldable pub erase : Uuid → Clients → Clients
erase id [] = []
erase id ((k, c) ∷ m) = if uuid_eq k id then m else (k, c) ∷ erase id m

abbrev pub is_none : {A : Type 0} → Option A → Bool
is_none none = true
is_none (some a) = false

module _ {K : Kernel} where
  unfoldable pub server : M (World K) TcpServer
  server w = ok w.server w

  unfoldable pub put_server : TcpServer → M (World K) (Unit {0})
  put_server s w = ok tt (record w { server = s })

  -- std::mutex::lock by the thread that holds it is undefined; with the usual mutex it waits forever.
  unfoldable pub lock : M (World K) (Unit {0})
  unfolding server put_server
  lock = do s ← server; if s.locked then fault relock else put_server (record s { locked = true })

  abbrev pub unlocked : World K → World K
  unlocked w = record w { server = record (w.server) { locked = false } }

  abbrev pub unlock : {A : Type 0} → Outcome (World K) A → Outcome (World K) A
  unlock (ok a w) = ok a (unlocked w)
  unlock (thrown e w) = thrown e (unlocked w)
  unlock (stuck f) = stuck f

  -- The scope of a std::lock_guard.
  unfoldable pub locked_scope : {A : Type 0} → M (World K) A → M (World K) A
  unfolding lock
  locked_scope body = lock >> λ w. unlock (body w)

  unfoldable pub set_clients : (Clients → Clients) → M (World K) (Unit {0})
  unfolding server put_server
  set_clients f = do s ← server; put_server (record s { clients = f s.clients })

  -- pool_.nextLoop()
  unfoldable pub next_loop : M (World K) ℕ
  unfolding LoopPool.next_loop
  next_loop =
      within (λ w. w.server.pool) (λ w p. record w { server = record (w.server) { pool = p } })
        LoopPool.next_loop

  unfoldable pub generate_uuid : M (World K) Uuid
  unfolding new_uuid
  generate_uuid w =
      let (id, k) = K.uuid_generate w.kernel in ok (new_uuid id) (record w { kernel = k })

  -- EventLoopPool::stop on pool_.
  unfoldable pub stop_pool : M (World K) (Unit {0})
  unfolding server put_server LoopPool.stop_loops LoopPool.wait_loops destroy_loops
  stop_pool = do
    s ← server
    LoopPool.stop_loops s.pool.loops
    LoopPool.wait_loops s.pool.loops
    destroy_loops s.pool.loops
    s' ← server
    put_server (record s' { pool = record (s'.pool) { loops = [] } })

  -- acceptor_.reset()
  unfoldable pub reset_acceptor : M (World K) (Unit {0})
  unfolding server put_server Acceptor.destroy
  reset_acceptor = do
    s ← server
    elim s.acceptor [ none ↦ pure tt | some a ↦ Acceptor.destroy a ]
    s' ← server
    put_server (record s' { acceptor = none })

  module _ (call : Handler → ℕ → M (World K) (Unit {0})) where
    -- TcpServer::handleClose
    unfoldable pub handle_close : ℕ → M (World K) (Unit {0})
    unfolding server locked_scope connection set_clients erase
    handle_close conn = do
      s ← server
      invoke (λ h. call h conn) s.close_handler
      locked_scope (do c ← connection conn; set_clients (erase c.id))

    -- The four setters on a new connection.
    unfoldable pub set_handlers : ℕ → TcpServer → M (World K) (Unit {0})
    unfolding connection put_connection
    set_handlers conn s = do
      c ← connection conn
      put_connection conn (record c {
        connected_handler = s.connected_handler;
        read_handler = s.read_handler;
        write_handler = s.write_handler;
        close_handler = some server_close;
      })

    -- TcpServer::handleNewConnection
    unfoldable pub handle_new_connection : ℤ → M (World K) (Unit {0})
    unfolding generate_uuid next_loop allocate construct set_handlers server locked_scope
        set_clients insert connect_established
    handle_new_connection fd = do
      id ← generate_uuid
      loop ← next_loop
      conn ← allocate
      chan ← allocate
      construct conn chan loop id (handle fd)
      s ← server
      set_handlers conn s
      locked_scope (do set_clients (insert id conn); connect_established call conn)

    -- The loop of TcpServer::stop; `clients_` is iterated in its order here.
    unfoldable pub destroy_all : Clients → M (World K) (Unit {0})
    unfolding connect_destroyed
    destroy_all [] = pure tt
    destroy_all ((id, conn) ∷ rest) = connect_destroyed call conn >> destroy_all rest

    -- TcpServer::stop
    unfoldable pub stop : M (World K) (Unit {0})
    unfolding server put_server locked_scope destroy_all set_clients stop_pool reset_acceptor
    stop = do
      locked_scope (do s ← server; destroy_all s.clients; set_clients (λ m. []))
      stop_pool
      reset_acceptor

  -- The acceptor that start() stores, before it listens.
  unfoldable pub set_acceptor : ℕ → M (World K) (Unit {0})
  unfolding server put_server
  set_acceptor a = do s ← server; put_server (record s { acceptor = some a })

  -- TcpServer::start
  unfoldable pub start : ℕ → M (World K) (Unit {0})
  unfolding server next_loop set_acceptor Acceptor.bind_local_address Acceptor.construct
      Acceptor.set_new_connection_handler Acceptor.listen LoopPool.start_loops
  start port = do
    s ← server
    ensure_or_throw (is_none s.acceptor) "server must be stop first"
    loop ← next_loop
    fd ← Acceptor.bind_local_address port
    a ← Acceptor.construct loop fd
    set_acceptor a
    Acceptor.set_new_connection_handler a server_accept
    Acceptor.listen a
    s' ← server
    LoopPool.start_loops s'.pool.loops

-- onConnected, onWrite, onMessage and onClose.
unfoldable pub on_connected : Handler → TcpServer → TcpServer
on_connected h c = record c { connected_handler = some h }

unfoldable pub on_write : Handler → TcpServer → TcpServer
on_write h c = record c { write_handler = some h }

unfoldable pub on_message : Handler → TcpServer → TcpServer
on_message h c = record c { read_handler = some h }

unfoldable pub on_close : Handler → TcpServer → TcpServer
on_close h c = record c { close_handler = some h }
