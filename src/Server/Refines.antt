-- ===== src/Server/Refines.antt =====
-- src/tcpserver.cpp: the turns of the loop threads against the clients up to their order.
use mathlib.Core.Quot.{Quot}
use librapid.Prelude.{ℕ, suc, ◌≡◌, refl, sym, ap, subst, ◌∙◌, [], ◌∷◌, List}
use librapid.Outcome.Laws.{ok_state, thrown_state}
use librapid.Kernel.{Kernel, EpollCtl}
use librapid.Outcome.{M}
use librapid.World.{World, user}
use librapid.Uuid.{Uuid}
use librapid.Connection.Read.{handle_read-data}
use librapid.Handlers.{call}
use librapid.Server.{Clients, lookup, insert, erase, unlock}
use librapid.Server.Clients.{IsMap, insert-IsMap, erase-IsMap}
use librapid.Server.Registry.{Registry, find, put, drop}
use librapid.Server.Close.{eof_forgets}
use librapid.Server.Enter.{enter_lem}
use librapid.Server.Thrown.{eof-thrown}
use librapid.Server.Refused.{new_connection-refused}
use librapid.Server.Turns.{
  Event, comes, goes, breaks, talks, happen, history, Shows, Turn, enters, is_refused, ends,
  is_thrown, reads, Turns,
}

module _ {K : Kernel} (L : EpollCtl K) (app : ℕ → ℕ → M (World K) (Unit {0})) where
  -- The clients after a turn, in the order of the list.
  abbrev next : Clients → Event → Clients
  next m (comes id conn) = insert id conn m
  next m (goes id) = erase id m
  next m (breaks id) = m
  next m (talks id bytes) = m

  Turn-clients :
      (w w' : World K) (e : Event) → Turn L app w w' e → w'.server.clients ≡ next w.server.clients e
  Turn-clients w w' e (enters n fd p l pool w1 turn is free done run keeps code label) =
      let worlds =
        ok_state
          (sym code ∙ enter_lem w fd p l pool (call app n) turn is free done ∙ ap unlock run) in
      ap (λ (v : World K). v.server.clients) worlds ∙ keeps ∙ ap (next w.server.clients) (sym label)
  Turn-clients w w' e (is_refused n fd p l pool x turn is free fresh bad code label) =
      let worlds = thrown_state (
        sym code
        ∙ (new_connection-refused w fd p l pool L (call app n) turn is free fresh bad).0) in
      ap (λ (v : World K). v.server.clients) worlds ∙ ap (next w.server.clients) (sym label)
  Turn-clients w w' e
        (ends self c ch l at old n t w1 c1 live got listed set close run free is same keeps code
          label) =
      let worlds = ok_state (
        sym code
        ∙ eof_forgets app L w self c ch l at old n t w1 c1 live got listed set close run free is) in
      ap (λ (v : World K). v.server.clients) worlds
      ∙ ap (λ id. erase id w1.server.clients) same
      ∙ ap (erase c.id) keeps
      ∙ ap (next w.server.clients) (sym label)
  Turn-clients w w' e
        (is_thrown self c ch l at old n t w1 x live got listed set close run keeps code label) =
      let worlds =
        thrown_state (
          sym code
          ∙ eof-thrown app L w self c ch l at old n t w1 x live got listed set close run) in
      ap (λ (v : World K). v.server.clients) worlds ∙ keeps ∙ ap (next w.server.clients) (sym label)
  Turn-clients w w' e
        (reads self c ch n t is b bs w1 c1 chan live got set run is1 keeps code label) =
      let worlds = ok_state (
        sym code
        ∙ handle_read-data (call app (suc n)) self w c ch is chan b bs (user t) w1 c1 live got set
            (unfold call in run) is1) in
      ap (λ (v : World K). v.server.clients) worlds ∙ keeps ∙ ap (next w.server.clients) (sym label)

  next-IsMap : (m : Clients) (e : Event) → IsMap m → IsMap (next m e)
  next-IsMap m (comes id conn) h = insert-IsMap id conn m h
  next-IsMap m (goes id) h = erase-IsMap id m h
  next-IsMap m (breaks id) h = h
  next-IsMap m (talks id bytes) h = h

  happen-next :
      (m : Clients) (e : Event) (h : IsMap m)
      → happen (Quot.mk (m, h)) e ≡ Quot.mk (next m e, next-IsMap m e h)
  unfolding happen put drop next-IsMap
  happen-next m (comes id conn) h = refl
  happen-next m (goes id) h = refl
  happen-next m (breaks id) h = refl
  happen-next m (talks id bytes) h = refl

  shown :
      (w' : World K) (m : Clients) (h : IsMap m) → w'.server.clients ≡ m → Shows w' (Quot.mk (m, h))
  shown w' m h is = subst (λ n. (g : IsMap n) → Shows w' (Quot.mk (n, g))) is (λ g. (g, refl)) h

  -- A turn does to the clients up to their order what its event means.
  Turn-Shows :
      (w w' : World K) (e : Event) (x : Registry)
      → Turn L app w w' e
      → Shows w x
      → Shows w' (happen x e)
  Turn-Shows w w' e x turn (h, is) =
      let to =
        shown w' (next w.server.clients e) (next-IsMap w.server.clients e h)
          (Turn-clients w w' e turn) in
      (to.0, ap (λ y. happen y e) is ∙ happen-next w.server.clients e h ∙ to.1)

  Turns-Shows_from :
      (es : List Event) (w w' : World K) (x : Registry)
      → Shows w x
      → Turns L app w w' es
      → Shows w' (history x es)
  Turns-Shows_from [] w w' x shows is = subst (λ v. Shows v x) is shows
  Turns-Shows_from (e ∷ es) w w' x shows (v, turn, rest) =
      Turns-Shows_from es v w' (happen x e) (Turn-Shows w v e x turn shows) rest

  Shows-find :
      (w : World K) (x : Registry) → Shows w x → (k : Uuid) → lookup k w.server.clients ≡ find k x
  unfolding find
  Shows-find w x (h, is) k = sym (ap (find k) is)

  -- Turns of the loop threads one after the other, in which the handlers of the program leave
  -- the clients alone, refine the clients up to the order of their list: where the server has
  -- the clients x, after the turns it has what their events make of x, in which a connection
  -- that comes is put, also where epoll refuses it, one that goes is dropped, and one that sends
  -- bytes or whose close handler of the program throws changes nothing; and its lookup of any id
  -- is that of the result.
  pub Turns-Shows :
      (es : List Event) (w w' : World K) (x : Registry)
      → Shows w x
      → Turns L app w w' es
      → Shows w' (history x es) × ((k : Uuid) → lookup k w'.server.clients ≡ find k (history x es))
  Turns-Shows es w w' x shows turns =
      let after = Turns-Shows_from es w w' x shows turns in
      (after, Shows-find w' (history x es) after)
