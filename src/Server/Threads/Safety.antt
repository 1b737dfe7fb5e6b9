-- ===== src/Server/Threads/Safety.antt =====
-- src/tcpserver.cpp: what the mutex around clients_ keeps in every interleaving.
use librapid.Prelude.{ℕ, ◌≤◌, ◌≡◌, true, none, arith}
use librapid.Uuid.{Uuid}
use librapid.World.{disconnected}
use librapid.Server.{lookup}
use librapid.Server.Clients.{IsMap}
use librapid.Server.Threads.Guard.{has_inserted, IsGuarded, IsEarly, Step-IsGuarded, Step-IsEarly}
use librapid.Server.Threads.Quiet.{before_enable, greetings, works_here, IsQuiet, Step-IsQuiet}
use librapid.Server.Threads.Closes.{
  is_over, has_closed, has_parted, has_locked, has_erased, removals, owed, owed_here, IsLate,
  IsParted, Step-IsLate, Step-IsParted,
}
use librapid.Server.Threads.{
  left, Threads, Steps, IsFresh, none_yet, one_more, in_enter, in_close, in_stop, Registration,
  unknown, listed, removed, EnterPoint,
}

removals_le : (r : Registration) → removals r ≤ 1
unfolding removals
removals_le unknown = ground arith
removals_le (listed m) = ground arith
removals_le removed = ground arith

greetings_le : (e : EnterPoint) → greetings e ≤ 1
unfolding greetings
greetings_le e = ground arith

module _ (id : Uuid) (conn : ℕ) where
  abbrev IsKept : Threads → Type 0
  IsKept s =
      IsGuarded s × IsEarly id conn s × IsQuiet id conn s × IsLate id conn s × IsParted id conn s

  Steps-IsKept : {s t : Threads} → Steps id conn s t → IsKept s → IsKept t
  Steps-IsKept none_yet h = h
  Steps-IsKept (one_more {t} {u} r st) h =
      let (g, y, q, l, p) = Steps-IsKept r h in
      (
        Step-IsGuarded id conn t u st g,
        Step-IsEarly id conn t u st g y,
        Step-IsQuiet id conn t u st g y q,
        Step-IsLate id conn t u st g y q l,
        Step-IsParted id conn t u st p,
      )

  Fresh-IsKept : (s : Threads) → IsFresh id conn s → IsMap s.clients → IsKept s
  unfolding in_enter in_close in_stop has_inserted before_enable greetings works_here has_closed
      has_parted has_locked has_erased removals owed owed_here
  Fresh-IsKept s f m =
      (ground arith, (m, λ _. ground arith), ground arith, ground arith, ground arith)

  pub Steps-IsGuarded :
      (s t : Threads) → IsFresh id conn s → IsMap s.clients → Steps id conn s t → IsGuarded t
  Steps-IsGuarded s t f m r = (Steps-IsKept r (Fresh-IsKept s f m)).0

  -- What the thread of the connection's loop leaves when it has come back from handleClose.
  abbrev pub IsSettled : Threads → Type 0
  IsSettled s =
      (is_over s.enter ≡ true)
      × (s.state ≡ disconnected)
      × (lookup id s.clients ≡ none)
      × (s.parted ≡ 1)

  abbrev pub IsSafe : Threads → Type 0
  IsSafe s =
      (¬ ((in_enter s.enter ≡ true) × (in_close s.close ≡ true)))
      × (¬ ((in_enter s.enter ≡ true) × (in_stop s.stop ≡ true)))
      × (¬ ((in_close s.close ≡ true) × (in_stop s.stop ≡ true)))
      × (s.greeted ≤ 1)
      × (s.parted ≤ 1)
      × (s.close ≡ left → IsSettled s)

  IsKept-IsSafe : (s : Threads) → IsKept s → IsSafe s
  unfolding in_close in_enter has_closed has_erased has_locked has_parted
  IsKept-IsSafe s (g, y, q, l, p) =
      let one = removals_le s.registration in
      let once = greetings_le s.enter in
      (
        ground arith,
        ground arith,
        ground arith,
        omega (arith, q, once),
        omega (arith, p, one),
        λ e. ground (arith, one),
      )

  -- In every interleaving of the threads around the clients of a server, from a new connection
  -- whose id no other has, where epoll may refuse the connection and stop() and the loop may
  -- close it at the same time: never two of the thread that brings the connection in, the one
  -- that takes it out and the one in stop() are between their lock and their unlock; the
  -- connected handler runs once at most, and so does the close handler, whichever of the two
  -- calls it; and when the loop has come back from a close, the thread that brought the
  -- connection in is done, the connection is Disconnected and no client, and the close handler
  -- has run. The handlers of the program return.
  pub Steps-IsSafe :
      (s t : Threads) → IsFresh id conn s → IsMap s.clients → Steps id conn s t → IsSafe t
  Steps-IsSafe s t f m r = IsKept-IsSafe t (Steps-IsKept r (Fresh-IsKept s f m))
