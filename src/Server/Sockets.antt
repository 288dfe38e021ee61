-- ===== src/Server/Sockets.antt =====
-- server/src/linux/server.c: the sockets of the server, as the calls of the system that its creation
-- and its closing make.
pub mod Laws
mod Tests
use mcmp.Common.{ℤ, negsuc, List, [], ◌∷◌, ◌++◌}

-- `struct McmchServer`, as far as it has descriptors.
pub record Server : Type 0 where
  pub listen4fd : ℤ
  pub listen6fd : ℤ
  pub epollfd : ℤ

pub data SystemCall : Type 0 where
  reuse : (fd : ℤ) → SystemCall
  bind : (fd : ℤ) → SystemCall
  watch : (epollfd fd : ℤ) → SystemCall
  shut : (fd : ℤ) → SystemCall

-- `__priv__mcmch__load_ipv4_server`; `fd` is what `socket` returns.
unfoldable pub load_ipv4_server : (fd : ℤ) → Server → Server × List SystemCall
load_ipv4_server fd server =
    let loaded : Server = record server { listen4fd = fd } in
    (loaded, reuse loaded.listen4fd ∷ bind loaded.listen4fd ∷ [])

-- `__priv__mcmch__load_ipv6_server`: the descriptor goes to `listen4fd`.
unfoldable pub load_ipv6_server : (fd : ℤ) → Server → Server × List SystemCall
load_ipv6_server fd server =
    let loaded : Server = record server { listen4fd = fd } in
    (loaded, reuse loaded.listen6fd ∷ bind loaded.listen6fd ∷ [])

-- `mcmchServerCreate`, given memory; `epoll`, `first` and `second` are what `epoll_create1` and the
-- two calls of `socket` return.
unfoldable pub create : (epoll first second : ℤ) → Server × List SystemCall
create epoll first second =
    let blank : Server = record { listen4fd = negsuc 0; listen6fd = negsuc 0; epollfd = epoll } in
    let (server4, calls4) = load_ipv4_server first blank in
    let (server, calls6) = load_ipv6_server second server4 in
    (
      server,
      calls4
          ++ calls6
          ++ (watch server.epollfd server.listen4fd ∷ watch server.epollfd server.listen6fd ∷ []),
    )

-- `mcmchServerClose`
unfoldable pub close : Server → List SystemCall
close server = shut server.listen4fd ∷ shut server.listen6fd ∷ shut server.epollfd ∷ []
