-- ===== src/Server/Sockets/Tests.antt =====
-- The creation of a server at concrete descriptors.
use mcmp.Common.{ℕ, ◌≡◌, ◌≢◌, refl, ◌==◌, false, ap, ℤ, pos, negsuc, Each, arith}
use mcmp.Server.Sockets.{bind, watch, shut, create, close}
use mcmp.Server.Sockets.Laws.{Occurs, create-Occurs}

abbrev descriptor : ℤ → ℕ
descriptor (pos n) = n
descriptor (negsuc n) = 0

differ : (a b : ℕ) → (a == b) ≡ false → pos a ≢ pos b
differ a b apart e = let same : a ≡ b = ap descriptor e in absurd (ground (arith, same, apart))

create-Occurs_example :
    let (server, calls) = create (pos 3) (pos 4) (pos 5) in
    Occurs (bind (pos 4)) calls
    × Each (λ call. call ≢ watch (pos 3) (pos 4)) calls
    × Each (λ call. call ≢ shut (pos 4)) (close server)
    × Occurs (watch (pos 3) (pos 5)) calls
    × Each (λ call. call ≢ bind (pos 5)) calls
    × Occurs (bind (negsuc 0)) calls
create-Occurs_example = create-Occurs 3 4 5 (differ 4 5 refl) (differ 4 3 refl)
