-- ===== src/Server/Sockets/Laws.antt =====
-- What becomes of the sockets of the server.
use mcmp.Common.{ℕ, ◌≡◌, ◌≢◌, ◌⊎◌, refl, inl, inr, pos, negsuc, List, [], ◌∷◌, Each}
use mcmp.Server.Sockets.{
  SystemCall, bind, watch, shut, load_ipv4_server, load_ipv6_server, create, close,
}

abbrev pub Occurs : SystemCall → List SystemCall → Type 0
Occurs call [] = ⊥
Occurs call (other ∷ calls) = (call ≡ other) ⊎ Occurs call calls

-- The socket of IPv4, the first that the creation of a server opens, is bound, but it is lost: epoll
-- never watches it, so that its datagrams are not received, and closing the server does not close it.
-- The second one is watched and closed, but not bound: what is bound and watched in its place is the
-- descriptor -1. The two calls of `socket` and that of `epoll_create1` have succeeded, with three
-- different descriptors.
pub create-Occurs :
    (epoll first second : ℕ)
    → pos first ≢ pos second
    → pos first ≢ pos epoll
    → (let (server, calls) = create (pos epoll) (pos first) (pos second) in
        Occurs (bind (pos first)) calls
        × Each (λ call. call ≢ watch (pos epoll) (pos first)) calls
        × Each (λ call. call ≢ shut (pos first)) (close server)
        × Occurs (watch (pos epoll) (pos second)) calls
        × Each (λ call. call ≢ bind (pos second)) calls
        × Occurs (bind (negsuc 0)) calls)
unfolding create close load_ipv4_server load_ipv6_server
create-Occurs epoll first second two three = (
  inr (inl refl),
  ((λ e. cc), ((λ e. cc), ((λ e. cc), ((λ e. cc), ((λ e. two cc), ((λ e. cc), tt)))))),
  ((λ e. two cc), ((λ e. cc), ((λ e. three cc), tt))),
  inr (inr (inr (inr (inl refl)))),
  ((λ e. cc), ((λ e. two cc), ((λ e. cc), ((λ e. two cc), ((λ e. cc), ((λ e. three cc), tt)))))),
  inr (inr (inr (inl refl))),
)
