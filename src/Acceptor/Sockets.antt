-- ===== src/Acceptor/Sockets.antt =====
-- src/acceptor.cpp: what becomes of a descriptor that a system call gave.
use librapid.Prelude.{ℕ, ℤ, pos, ◌≡◌, none, some, arith, int_eq, if◌then◌else◌}
use librapid.Kernel.{Kernel, any_address}
use librapid.Outcome.{ok, thrown, M, assert_failed}
use librapid.Channel.{Channel}
use librapid.World.{World, Acceptor, AcceptHandler, acceptor, channel}
use librapid.Acceptor.{
  is_fd, sys_socket, sys_bind, sys_close, sys_accept, drop_fd, bind_local_address, handle_read,
}

module _ {K : Kernel} where
  -- Acceptor::bindLocalAddress gives the socket that was bound, or closes it and throws; a
  -- socket that could not be made is not closed.
  pub bind_local_address_lem :
      (port : ℕ) (w : World K) (fd res : ℤ) (k1 k2 : K.State)
      → K.socket w.kernel ≡ (fd, k1)
      → K.bind fd (any_address port) k1 ≡ (res, k2)
      → bind_local_address port w ≡ (
          if int_eq res (pos 0)
          then ok fd (record w { kernel = k2 })
          else thrown
              (assert_failed "bind TCP port fail!")
              (record w { kernel = if is_fd fd then K.close fd k2 else k2 }))
  unfolding bind_local_address sys_socket sys_bind drop_fd sys_close
  bind_local_address_lem port w fd res k1 k2 made bound = ground arith

  -- Acceptor::handleRead on every result of accept4: the descriptor goes to the handler, is
  -- closed where there is none, and nothing happens where accept4 failed.
  pub handle_read_lem :
      (accept : AcceptHandler → ℤ → M (World K) (Unit {0})) (self : ℕ) (w : World K) (a : Acceptor)
      (c : Channel) (fd : ℤ) (k : K.State)
      → w.acceptors self ≡ some a
      → w.channels a.channel ≡ some c
      → K.accept4 c.fd.value w.kernel ≡ (fd, k)
      → handle_read accept self w ≡ (
          if is_fd fd
          then elim a.new_connection_handler [
            | none ↦ ok tt (record w { kernel = K.close fd k })
            | some h ↦ accept h fd (record w { kernel = k })
          ]
          else ok tt (record w { kernel = k }))
  unfolding handle_read acceptor channel sys_accept drop_fd sys_close
  handle_read_lem accept self w a c fd k is is_channel got = ground arith
