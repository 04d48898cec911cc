-- ===== src/Tests/Servers.antt =====
-- The theorems on the eBPF activator at a server with one port.
use zeropod.Base.{◌≡◌, refl, true, false, [], ◌∷◌, All, arith}
use zeropod.Activator.Server
use zeropod.Activator.Server.{is_redirected}
use zeropod.Activator.Server.Start.{Wired, start-Wired}
use zeropod.Activator.Server.Redirects.{reset-redirects, disable_redirects-disables}
use zeropod.Tests.Fixtures.{kernel, new_server, running_server}

reset-redirects_example :
    All (λ p. is_redirected (Server.reset kernel running_server).1 p ≡ true) (80 ∷ [])
unfolding Server.reset
reset-redirects_example = reset-redirects kernel running_server refl

disable_redirects-disables_example :
    All (λ p. is_redirected (Server.disable_redirects kernel running_server).1 p ≡ false) (80 ∷ [])
unfolding Server.disable_redirects
disable_redirects-disables_example = disable_redirects-disables kernel running_server refl

start-Wired_example :
    Wired (80 ∷ 81 ∷ []) true (Server.start kernel (80 ∷ 81 ∷ []) true new_server).1
    × ((Server.start kernel (80 ∷ 81 ∷ []) true new_server).1.is_started ≡ true)
unfolding Server.start
start-Wired_example =
    start-Wired kernel (λ i j q a b. ground arith) (80 ∷ 81 ∷ []) true new_server refl refl
