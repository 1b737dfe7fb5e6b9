-- ===== src/Server/Threads.antt =====
-- src/tcpserver.cpp: the mutex around clients_, one atomic step of a thread at a time. The thread
-- of the acceptor's loop brings a connection in, the thread of the connection's loop serves it and
-- takes it out, a third one calls stop(), more than once, and the threads of other connections come
-- and go. The handlers of the program return.
-- A run in which one thread has both loops is one of these too. stop() is followed to the end of its
-- lock; the pool and the acceptor come after it.
pub mod Guard
pub mod Quiet
pub mod Closes
pub mod Safety
pub mod Starved
use librapid.Prelude.{ℕ, ◌+◌, ◌≡◌, ◌≢◌, Bool, true, false, Option, none, some, []}
use librapid.Uuid.{Uuid, uuid_eq}
use librapid.Server.{Clients, lookup, insert, erase}
use librapid.World.{ConnectionState, disconnected, connected}

-- Who has the mutex.
pub data Holder : Type 0 where
  nobody : Holder
  enterer : Holder
  closer : Holder
  stopper : Holder
  stranger : Holder

-- The connection's channel for epoll: not there yet, there with or without events to read, or taken
-- away. updateChannel has EPOLL_CTL_ADD for the first and EPOLL_CTL_MOD for the others.
pub data Registration : Type 0 where
  unknown : Registration
  listed : (reading : Bool) → Registration
  removed : Registration

unfoldable pub is_listed : Registration → Bool
is_listed unknown = false
is_listed (listed m) = true
is_listed removed = false

-- Whether disableAll can return; an EPOLL_CTL_MOD of what was taken away fails.
unfoldable pub can_disable : Registration → Bool
can_disable unknown = true
can_disable (listed m) = true
can_disable removed = false

-- Where the thread stands that runs handleNewConnection for the connection.
pub data EnterPoint : Type 0 where
  locking_in : EnterPoint
  inserting : EnterPoint
  -- in connectEstablished
  establishing : EnterPoint
  enabling : EnterPoint
  greeting : EnterPoint
  unlocking_in : EnterPoint
  entered : EnterPoint
  -- enableRead has thrown
  refused : EnterPoint

-- Where the thread of the connection's loop stands.
pub data ClosePoint : Type 0 where
  serving : ClosePoint
  -- in Channel::handleEvent
  woken : ClosePoint
  -- in TcpConnection::handleClose
  disabling : ClosePoint
  removing : ClosePoint
  closing : ClosePoint
  -- in TcpServer::handleClose
  parting : ClosePoint
  locking_out : ClosePoint
  erasing : ClosePoint
  unlocking_out : ClosePoint
  left : ClosePoint

-- Where the thread stands that calls stop().
pub data StopPoint : Type 0 where
  outside : StopPoint
  sweeping : StopPoint
  -- in connectDestroyed of this connection
  disabling_here : StopPoint
  removing_here : StopPoint
  closing_here : StopPoint
  parting_here : StopPoint
  -- before the lock_guard in the close handler of this connection or of another
  stuck_here : StopPoint
  stuck_there : Uuid → StopPoint

pub record Threads : Type 0 where
  pub holder : Holder
  pub clients : Clients
  pub state : ConnectionState
  pub registration : Registration
  pub greeted : ℕ  -- runs of the connected handler for this connection
  pub parted : ℕ  -- and of the close handler
  pub enter : EnterPoint
  pub close : ClosePoint
  pub stop : StopPoint

-- Whether the thread is between its lock of the mutex and its unlock.
unfoldable pub in_enter : EnterPoint → Bool
in_enter locking_in = false
in_enter entered = false
in_enter refused = false
in_enter _ = true

unfoldable pub in_close : ClosePoint → Bool
in_close erasing = true
in_close unlocking_out = true
in_close _ = false

unfoldable pub in_stop : StopPoint → Bool
in_stop outside = false
in_stop _ = true

module _ (id : Uuid) (conn : ℕ) where
  pub data Step (s : Threads) (t : Threads) : Type 0 where
    locks_in :
        s.enter ≡ locking_in
        → s.holder ≡ nobody
        → t ≡ record s { holder = enterer; enter = inserting }
        → Step s t
    inserts :
        s.enter ≡ inserting
        → t ≡ record s { clients = insert id conn s.clients; enter = establishing }
        → Step s t
    establishes :
        s.enter ≡ establishing → t ≡ record s { state = connected; enter = enabling } → Step s t
    enables :
        s.enter ≡ enabling
        → s.registration ≡ unknown
        → t ≡ record s { registration = listed true; enter = greeting }
        → Step s t
    -- the exception of enableRead unlocks the mutex
    refuses : s.enter ≡ enabling → t ≡ record s { holder = nobody; enter = refused } → Step s t
    greets :
        s.enter ≡ greeting
        → t ≡ record s { greeted = s.greeted + 1; enter = unlocking_in }
        → Step s t
    unlocks_in :
        s.enter ≡ unlocking_in → t ≡ record s { holder = nobody; enter = entered } → Step s t
    wakes :
        (m : Bool)
        → s.close ≡ serving
        → s.registration ≡ listed m
        → t ≡ record s { close = woken }
        → Step s t
    -- handleRead on bytes, on an error or of a connection that is Disconnected, or handleWrite
    reads : s.close ≡ woken → t ≡ record s { close = serving } → Step s t
    hears_end :
        s.close ≡ woken → s.state ≢ disconnected → t ≡ record s { close = disabling } → Step s t
    hears_hangup : s.close ≡ woken → t ≡ record s { close = disabling } → Step s t
    disables :
        s.close ≡ disabling
        → can_disable s.registration ≡ true
        → t ≡ record s { registration = listed false; close = removing }
        → Step s t
    -- the loop catches what handleEvent throws
    disable_fails :
        s.close ≡ disabling
        → is_listed s.registration ≡ false
        → t ≡ record s { close = serving }
        → Step s t
    removes :
        s.close ≡ removing
        → is_listed s.registration ≡ true
        → t ≡ record s { registration = removed; close = closing }
        → Step s t
    remove_fails :
        s.close ≡ removing
        → is_listed s.registration ≡ false
        → t ≡ record s { close = serving }
        → Step s t
    closes : s.close ≡ closing → t ≡ record s { state = disconnected; close = parting } → Step s t
    parts :
        s.close ≡ parting → t ≡ record s { parted = s.parted + 1; close = locking_out } → Step s t
    locks_out :
        s.close ≡ locking_out
        → s.holder ≡ nobody
        → t ≡ record s { holder = closer; close = erasing }
        → Step s t
    erases :
        s.close ≡ erasing
        → t ≡ record s { clients = erase id s.clients; close = unlocking_out }
        → Step s t
    unlocks_out :
        s.close ≡ unlocking_out → t ≡ record s { holder = nobody; close = left } → Step s t
    stops :
        s.stop ≡ outside
        → s.holder ≡ nobody
        → t ≡ record s { holder = stopper; stop = sweeping }
        → Step s t
    sweeps_here :
        (c : ℕ)
        → s.stop ≡ sweeping
        → lookup id s.clients ≡ some c
        → t ≡ record s { state = disconnected; stop = disabling_here }
        → Step s t
    disables_here :
        s.stop ≡ disabling_here
        → can_disable s.registration ≡ true
        → t ≡ record s { registration = listed false; stop = removing_here }
        → Step s t
    -- the exception leaves stop() and unlocks the mutex
    disable_fails_here :
        s.stop ≡ disabling_here
        → is_listed s.registration ≡ false
        → t ≡ record s { holder = nobody; stop = outside }
        → Step s t
    removes_here :
        s.stop ≡ removing_here
        → is_listed s.registration ≡ true
        → t ≡ record s { registration = removed; stop = closing_here }
        → Step s t
    remove_fails_here :
        s.stop ≡ removing_here
        → is_listed s.registration ≡ false
        → t ≡ record s { holder = nobody; stop = outside }
        → Step s t
    closes_here :
        s.stop ≡ closing_here
        → t ≡ record s { state = disconnected; stop = parting_here }
        → Step s t
    parts_here :
        s.stop ≡ parting_here → t ≡ record s { parted = s.parted + 1; stop = stuck_here } → Step s t
    -- the lock_guard of the close handler, its erase and its unlock
    erases_here :
        s.stop ≡ stuck_here
        → s.holder ≡ nobody
        → t ≡ record s { clients = erase id s.clients; stop = sweeping }
        → Step s t
    sweeps_there :
        (k : Uuid) (c : ℕ)
        → s.stop ≡ sweeping
        → lookup k s.clients ≡ some c
        → uuid_eq k id ≡ false
        → t ≡ record s { stop = stuck_there k }
        → Step s t
    sweep_fails_there :
        (k : Uuid) (c : ℕ)
        → s.stop ≡ sweeping
        → lookup k s.clients ≡ some c
        → uuid_eq k id ≡ false
        → t ≡ record s { holder = nobody; stop = outside }
        → Step s t
    erases_there :
        (k : Uuid)
        → s.stop ≡ stuck_there k
        → s.holder ≡ nobody
        → uuid_eq k id ≡ false
        → t ≡ record s { clients = erase k s.clients; stop = sweeping }
        → Step s t
    sweeps_none :
        s.stop ≡ sweeping
        → s.clients ≡ []
        → t ≡ record s { holder = nobody; stop = outside }
        → Step s t
    stranger_locks : s.holder ≡ nobody → t ≡ record s { holder = stranger } → Step s t
    stranger_inserts :
        (k : Uuid) (c : ℕ)
        → s.holder ≡ stranger
        → uuid_eq k id ≡ false
        → t ≡ record s { clients = insert k c s.clients }
        → Step s t
    stranger_erases :
        (k : Uuid)
        → s.holder ≡ stranger
        → uuid_eq k id ≡ false
        → t ≡ record s { clients = erase k s.clients }
        → Step s t
    stranger_unlocks : s.holder ≡ stranger → t ≡ record s { holder = nobody } → Step s t

  -- So many steps of any of the threads, one after the other.
  pub data Steps (s : Threads) : Threads → Type 0 where
    none_yet : Steps s s
    one_more : {t u : Threads} → Steps s t → Step t u → Steps s u

  -- A new connection, its id in no other's use.
  abbrev pub IsFresh : Threads → Type 0
  IsFresh s =
      (s.enter ≡ locking_in)
      × (s.close ≡ serving)
      × (s.state ≡ disconnected)
      × (s.registration ≡ unknown)
      × (s.greeted ≡ 0)
      × (s.parted ≡ 0)
      × (s.stop ≡ outside)
      × ((s.holder ≡ nobody) × (lookup id s.clients ≡ none))
