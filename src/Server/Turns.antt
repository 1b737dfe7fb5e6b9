-- ===== src/Server/Turns.antt =====
-- src/tcpserver.cpp with src/tcpconnection.cpp: the turns of the loop threads for the connections of
-- a server, and what each means for its clients.
use mathlib.Core.Quot.{Quot}
use librapid.Prelude.{ℕ, ℤ, suc, pos, ◌≡◌, false, some, none, [], ◌∷◌, List, int_eq}
use librapid.Kernel.{filled, Kernel, EpollCtl, EpollEvent}
use librapid.Outcome.{ok, thrown, M, invoke, Exception}
use librapid.Channel.{Channel}
use librapid.World.{World, TcpConnection, EventLoop, EventLoopPool, server_close, user}
use librapid.Uuid.{Uuid}
use librapid.LoopPool
use librapid.Connection.{handle_read, is_disconnected}
use librapid.Connection.Read.{fed}
use librapid.Connection.Close.{Attached, closed}
use librapid.Handlers.{call}
use librapid.Server.{lookup, handle_new_connection}
use librapid.Server.Clients.{IsMap}
use librapid.Server.Registry.{Registry, put, drop}
use librapid.Server.Enter.{new_id, added_kernel, entered}

-- What a turn means for the clients.
pub data Event : Type 0 where
  comes : Uuid → ℕ → Event
  goes : Uuid → Event
  -- The close handler of the program throws.
  breaks : Uuid → Event
  talks : Uuid → List ℕ → Event

unfoldable pub happen : Registry → Event → Registry
unfolding put drop
happen x (comes id conn) = put id conn x
happen x (goes id) = drop id x
happen x (breaks id) = x
happen x (talks id bytes) = x

abbrev pub history : Registry → List Event → Registry
history x [] = x
history x (e ∷ es) = history (happen x e) es

-- The server has the clients x, in some order.
abbrev pub Shows : {K : Kernel} → World K → Registry → Type 0
Shows w x = (map : IsMap w.server.clients) × (x ≡ Quot.mk (w.server.clients, map))

module _ {K : Kernel} (L : EpollCtl K) (app : ℕ → ℕ → M (World K) (Unit {0})) where
  -- One turn, where the handlers of the program leave the clients alone.
  pub data Turn (w : World K) (w' : World K) (e : Event) : Type 0 where
    enters :
        (n : ℕ) (fd : ℤ) (p : ℕ) (l : EventLoop) (pool : EventLoopPool) (w1 : World K)
        → LoopPool.next_loop w.server.pool ≡ ok p pool
        → w.loops p ≡ some l
        → w.server.locked ≡ false
        → (added_kernel w fd p l pool).0 ≡ pos 0
        → invoke (λ h. call app n h w.fresh) w.server.connected_handler (entered w fd p l pool)
          ≡ ok tt w1
        → w1.server.clients ≡ (entered w fd p l pool).server.clients
        → handle_new_connection (call app n) fd w ≡ ok tt w'
        → e ≡ comes (new_id w fd p l pool) w.fresh
        → Turn w w' e
    is_refused :
        (n : ℕ) (fd : ℤ) (p : ℕ) (l : EventLoop) (pool : EventLoopPool) (x : Exception)
        → LoopPool.next_loop w.server.pool ≡ ok p pool
        → w.loops p ≡ some l
        → w.server.locked ≡ false
        → lookup (new_id w fd p l pool) w.server.clients ≡ none
        → int_eq (added_kernel w fd p l pool).0 (pos 0) ≡ false
        → handle_new_connection (call app n) fd w ≡ thrown x w'
        → e ≡ comes (new_id w fd p l pool) w.fresh
        → Turn w w' e
    ends :
        (self : ℕ) (c : TcpConnection) (ch : Channel) (l : EventLoop) (at : Attached w self c ch l)
        (old : EpollEvent) (n t : ℕ) (w1 : World K) (c1 : TcpConnection)
        → is_disconnected c.state ≡ false
        → (K.read ch.fd.value 4096 w.kernel).0 ≡ filled []
        → L.interest (K.read ch.fd.value 4096 w.kernel).1 l.epollfd ch.fd.value ≡ some old
        → c.close_handler ≡ some server_close
        → w.server.close_handler ≡ some (user t)
        → app t self
            (closed (record w { kernel = (K.read ch.fd.value 4096 w.kernel).1 }) self c ch l)
          ≡ ok tt w1
        → w1.server.locked ≡ false
        → w1.connections self ≡ some c1
        → c1.id ≡ c.id
        → w1.server.clients ≡ w.server.clients
        → handle_read (call app (suc (suc n))) self w ≡ ok tt w'
        → e ≡ goes c.id
        → Turn w w' e
    is_thrown :
        (self : ℕ) (c : TcpConnection) (ch : Channel) (l : EventLoop) (at : Attached w self c ch l)
        (old : EpollEvent) (n t : ℕ) (w1 : World K) (x : Exception)
        → is_disconnected c.state ≡ false
        → (K.read ch.fd.value 4096 w.kernel).0 ≡ filled []
        → L.interest (K.read ch.fd.value 4096 w.kernel).1 l.epollfd ch.fd.value ≡ some old
        → c.close_handler ≡ some server_close
        → w.server.close_handler ≡ some (user t)
        → app t self
            (closed (record w { kernel = (K.read ch.fd.value 4096 w.kernel).1 }) self c ch l)
          ≡ thrown x w1
        → w1.server.clients ≡ w.server.clients
        → handle_read (call app (suc (suc n))) self w ≡ thrown x w'
        → e ≡ breaks c.id
        → Turn w w' e
    reads :
        (self : ℕ) (c : TcpConnection) (ch : Channel) (n t : ℕ) (is : w.connections self ≡ some c)
        (b : ℕ) (bs : List ℕ) (w1 : World K) (c1 : TcpConnection)
        → w.channels c.channel ≡ some ch
        → is_disconnected c.state ≡ false
        → (K.read ch.fd.value 4096 w.kernel).0 ≡ filled (b ∷ bs)
        → c.read_handler ≡ some (user t)
        → app t self (
            fed
              (call app (suc n))
              self
              (record w { kernel = (K.read ch.fd.value 4096 w.kernel).1 })
              c
              is
              (b ∷ bs))
          ≡ ok tt w1
        → w1.connections self ≡ some c1
        → w1.server.clients ≡ w.server.clients
        → handle_read (call app (suc n)) self w ≡ ok tt w'
        → e ≡ talks c.id (b ∷ bs)
        → Turn w w' e

  -- Turns one after the other, with what each means for the clients.
  abbrev pub Turns : World K → World K → List Event → Type 0
  Turns w w' [] = w ≡ w'
  Turns w w' (e ∷ es) = (v : World K) × Turn w v e × Turns v w' es
