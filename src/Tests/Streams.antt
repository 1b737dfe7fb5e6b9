-- ===== src/Tests/Streams.antt =====
-- The bytes of a stream whose read handler throws on the first of two reads.
use librapid.Prelude.{ℕ, pos, refl, List, none, some, [], ◌∷◌, length, ◌==◌, if◌then◌else◌}
use librapid.Outcome.{M, pure, throw, runtime_error}
use librapid.World.{Handler, TcpConnection, server_close, user, update}
use librapid.Connection.{handle_read}
use librapid.Connection.Stream.{
  handled, not_handled, Turns, all_got, all_given, Conserves, Turns-Conserves,
}
use librapid.Tests.Scenes.{Here, link, link_channel, listed_row, world}

-- The read handler throws as long as there are fewer than five bytes.
abbrev until_five : Handler → ℕ → M Here (Unit {0})
until_five h conn w = elim (w.connections conn) [
  | none ↦ pure tt w
  | some c ↦ if length c.read_buffer == 5 then pure tt w else throw (runtime_error (pos 4)) w
]

abbrev two_bytes : List ℕ
two_bytes = b'h' ∷ b'i' ∷ []

abbrev first_link : TcpConnection
first_link = record (link server_close) { read_buffer = b'a' ∷ two_bytes }

abbrev second_link : TcpConnection
second_link = record first_link { read_buffer = b'a' ∷ b'h' ∷ b'i' ∷ two_bytes }

abbrev talking : Here
talking = world (listed_row (pos 5)) (pos 5) server_close

abbrev pending : Here
pending = record talking { connections = update talking.connections 10 first_link }

abbrev given_all : Here
given_all = record pending { connections = update pending.connections 10 second_link }

abbrev cleared : Here
cleared = record given_all {
  connections = update given_all.connections 10 (record second_link { read_buffer = [] });
}

abbrev read_twice : List (List ℕ × List ℕ)
read_twice = (two_bytes, []) ∷ (two_bytes, second_link.read_buffer) ∷ []

talking-Turns : Turns until_five 10 talking cleared read_twice
unfolding handle_read
talking-Turns = (
  talking,
  pending,
  refl,
  not_handled (link server_close) (link_channel (pos 5)) refl b'h' (b'i' ∷ []) (user 1)
      (runtime_error (pos 4)) pending first_link refl refl refl refl refl refl refl refl refl refl,
  (
    pending,
    cleared,
    refl,
    handled first_link (link_channel (pos 5)) refl b'h' (b'i' ∷ []) (user 1) given_all second_link
        refl refl refl refl refl refl refl refl refl refl,
    refl,
  ),
)

Turns-Conserves_example :
    Conserves until_five 10 (link server_close) cleared (all_got read_twice) (all_given read_twice)
Turns-Conserves_example =
    Turns-Conserves until_five 10 read_twice talking cleared (link server_close) refl talking-Turns
