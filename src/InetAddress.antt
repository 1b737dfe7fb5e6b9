-- ===== src/InetAddress.antt =====
-- src/inetaddress.cpp and include/rapid/core/inetaddress.h: a socket address by its bytes. getnameinfo, getpeername and
-- inet_pton are parameters.
use librapid.Prelude.{
  ℕ, ◌+◌, ◌*◌, ℤ, Option, none, some, List, [], ◌∷◌, ◌++◌, ◌==◌, if◌then◌else◌, get_or, replicate,
  codes,
}
use librapid.Kernel.{Kernel}
use librapid.Outcome.{M, pure, throw, assert_failed, ◌>>=◌}
use librapid.World.{World}
use librapid.Connector.{get_address_family}

-- class InetAddress: the 128 bytes of a sockaddr_storage and a length.
pub record InetAddress : Type 0 where
  pub addr : List ℕ
  pub addr_len : ℕ

pub record Resolver : Type 0 where
  -- the bytes that inet_pton(3) writes: 4 or 16 of them, or nothing where the text is no address
  pub inet_pton : (family host : ℕ) → Option (List ℕ)
  -- what getpeername(2) writes, and the length
  pub getpeername : (fd : ℤ) → Option (List ℕ × ℕ)
  -- the two texts of getnameinfo(3), empty where it fails
  pub getnameinfo : (addr : List ℕ) → (addr_len : ℕ) → List ℕ × List ℕ

-- A write over the start of an object.
abbrev pub overwrite : List ℕ → List ℕ → List ℕ
overwrite [] bytes = bytes
overwrite (v ∷ vs) [] = []
overwrite (v ∷ vs) (b ∷ bytes) = v ∷ overwrite vs bytes

-- sizeof(sockaddr_storage)
abbrev pub storage_size : ℕ
storage_size = 128

-- InetAddress::InetAddress(addr, addrLen)
unfoldable pub from_storage : List ℕ → ℕ → InetAddress
from_storage addr addr_len = record { addr = addr; addr_len = addr_len }

-- InetAddress::family: ss_family, two bytes at the start.
unfoldable pub family : InetAddress → ℕ
family a = get_or a.addr 0 0 + 256 * get_or a.addr 1 0

module _ (R : Resolver) where
  abbrev put_address : Option (List ℕ) → InetAddress → InetAddress
  put_address none a = a
  put_address (some bytes) a = record a { addr = overwrite bytes a.addr }

  -- InetAddress::InetAddress(host, port), on memory that nothing initialises; the port is not used.
  unfoldable pub from_host : {K : Kernel} → InetAddress → (host port : ℕ) → M (World K) InetAddress
  unfolding get_address_family
  from_host indeterminate host port = do
    family ← get_address_family host
    if (family == 2)
        then pure (put_address (R.inet_pton 2 host) indeterminate)
        else if family == 10
        then pure (put_address (R.inet_pton 10 host) indeterminate)
        else throw (assert_failed "unknown address family")

  -- InetAddress::getPeerAddr
  unfoldable pub get_peer_addr : ℤ → InetAddress
  unfolding from_storage
  get_peer_addr fd = elim (R.getpeername fd) [
    | none ↦ from_storage (replicate storage_size 0) storage_size
    | some (bytes, len) ↦ from_storage (overwrite bytes (replicate storage_size 0)) len
  ]

  -- InetAddress::getAddressAndPort
  unfoldable pub get_address_and_port : InetAddress → List ℕ
  get_address_and_port a =
      let (host, port) = R.getnameinfo a.addr a.addr_len in host ++ (codes ":" ++ port)
