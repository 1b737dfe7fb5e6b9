-- ===== src/Client/Close.antt =====
-- src/tcpclient.cpp and src/tcpconnection.cpp together: the connection of a client that the peer has closed.
use librapid.Prelude.{ℕ, suc, ◌≡◌, ap, ◌∙◌, Option, some, arith}
use librapid.Kernel.{Kernel, EpollCtl, EpollEvent}
use librapid.Outcome.{M, invoke}
use librapid.Outcome.Laws.{Throws, Throws-and_then, Throws-mono}
use librapid.Channel.{Channel, clear_all}
use librapid.Poller.Sync.{ctl_failed}
use librapid.World.{World, Handler, TcpConnection, EventLoop, disconnected, client_close, update}
use librapid.Connection
use librapid.Connection.{connect_destroyed, set_connection_state}
use librapid.Connection.Close.{
  Attached, closed, handle_close_lem, handle_close-unlisted, detached_unlisted,
  set_connection_state_lem,
}
use librapid.Handlers.{call}
use librapid.Client.{client, connection_of, handle_close}

module _ {K : Kernel} (L : EpollCtl K) (app : ℕ → ℕ → M (World K) (Unit {0})) where
  -- TcpClient::handleClose begins with connectDestroyed.
  handle_close-Throws :
      (run : Handler → ℕ → M (World K) (Unit {0})) (w : World K) (p : ℕ) (P : World K → Type 0)
      → w.client.connection ≡ some p
      → Throws ctl_failed P (connect_destroyed run p w)
      → Throws ctl_failed P (handle_close run w)
  unfolding handle_close connection_of client
  handle_close-Throws run w p P e h =
      simp e (Throws-and_then ctl_failed P (connect_destroyed run p w) _ h)

  module _ (w : World K) (self : ℕ) (c : TcpConnection) (ch : Channel) (l : EventLoop)
      (at : Attached w self c ch l) (old : EpollEvent)
      (listed : L.interest w.kernel l.epollfd ch.fd.value ≡ some old) where
    -- The world in which connectDestroyed calls handleClose for the second time.
    abbrev again : World K
    again = record (closed w self c ch l) {
      connections =
          update (closed w self c ch l).connections self (record c { state = disconnected });
    }

    again-Attached : Attached again self (record c { state = disconnected }) (clear_all ch) l
    unfolding clear_all
    again-Attached = record {
      is_connection = ground arith;
      is_channel = ground arith;
      is_loop = at.is_loop;
      is_added = at.is_added;
    }

    connect_destroyed-again :
        (run : Handler → ℕ → M (World K) (Unit {0}))
        → Throws ctl_failed
            (λ w'. w'.client ≡ w.client)
            (connect_destroyed run self (closed w self c ch l))
    unfolding connect_destroyed
    connect_destroyed-again run =
        rw
          (set_connection_state_lem (closed w self c ch l) self (record c { state = disconnected })
            disconnected (ground arith))
          (Throws-mono ctl_failed _ _ (Connection.handle_close run self again)
            (handle_close-unlisted L again self (record c { state = disconnected }) (clear_all ch) l
              again-Attached (unfold clear_all in detached_unlisted L w self c ch l at old listed)
              run)
            λ w' p. p.2)

    -- TcpConnection::handleClose of the registered connection of a client, with the close
    -- handler of the client, throws the exception of a failed epoll_ctl, and the client is as
    -- before, its connection kept.
    pub close-Throws :
        (n : ℕ)
        → c.close_handler ≡ some client_close
        → w.client.connection ≡ some self
        → Throws ctl_failed
            (λ w'. w'.client ≡ w.client)
            (Connection.handle_close (call app (suc n)) self w)
    close-Throws n set mine =
        let step =
          handle_close_lem L w self c ch l at old listed (call app (suc n))
          ∙ ap
              (λ (h : Option Handler).
                invoke (λ h. call app (suc n) h self) h (closed w self c ch l))
              set in
        rw step (
          unfold call in
          handle_close-Throws (call app n) (closed w self c ch l) self (λ w'. w'.client ≡ w.client)
            mine (connect_destroyed-again (call app n)))
