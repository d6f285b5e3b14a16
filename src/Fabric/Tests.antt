-- ===== src/Fabric/Tests.antt =====
-- performance/multi-node: runs over a libfabric whose calls succeed a given number of times, and the
-- theorems at inputs that meet their hypotheses.
use cray_tests.Prelude.{◌<◌, ◌≤◌, ◌≡◌, refl, arith, true, false, ok, List, [], ◌∷◌}
use cray_tests.Fabric.Libfabric.{Handle, ℤ, pos, negsuc, remove, succeeded, limited}
use cray_tests.Fabric.Ends.{attempt, Closes, Ends}
use cray_tests.Fabric.Gnix
use cray_tests.Fabric.Gnix.Lifecycle.{init_endpoint-Ends}
use cray_tests.Fabric.Gnix.Main as GnixMain
use cray_tests.Fabric.Regions.{Registers}
use cray_tests.Fabric.AuthKey
use cray_tests.Fabric.AuthKey.Main as AuthKeyMain
use cray_tests.Fabric.OneSided
use cray_tests.Fabric.OneSided.Lifecycle.{init_endpoint-closes_domain}
use cray_tests.Fabric.Pingpong
use cray_tests.Fabric.Threads.{AllInit}
use cray_tests.Fabric.OneSided.Main as OneSidedMain
use cray_tests.Fabric.Mbw
use cray_tests.Fabric.Mbw.{TestType}
use cray_tests.Fabric.Mbw.Setup.{init_fabric-EndsOrLeaks, EndsOrLeaks}
use cray_tests.Fabric.Mbw.Wait.{WaitType, Turn, completions, AreTurns, cq_turn, cntr_turn, turn_end}
use cray_tests.Fabric.Mbw.WaitEnds.{AreWaits}
use cray_tests.Fabric.Mbw.Bandwidth.{SendRecvType}
use cray_tests.Fabric.Completion
use cray_tests.Fabric.Completion.{AreReads, wait_for_comp-error}

limited-Closes : Closes limited
limited-Closes h w = refl

-- The domain is open, and two more calls succeed: the endpoint and its first queue are opened.
abbrev two_calls : limited.World
two_calls = (2, Handle.dom ∷ [])

abbrev many_calls : limited.World
many_calls = (100, Handle.dom ∷ [])

abbrev fresh : limited.World
fresh = (100, [])

init_gnix_prov_succeeds : succeeded (Gnix.init_gnix_prov limited 2 fresh).0 ≡ true
unfolding Gnix.init_gnix_prov Gnix.init_fabric Gnix.init_endpoints Gnix.init_endpoint
    Gnix.alloc_ep_res Gnix.bind_ep_res Gnix.free_ep_res Gnix.init_av attempt
init_gnix_prov_succeeds = refl

auth_key_init_succeeds : succeeded (AuthKey.init_gnix_prov limited 2 fresh).0 ≡ true
unfolding AuthKey.init_gnix_prov AuthKey.init_fabric AuthKey.init_endpoints AuthKey.init_endpoint
    AuthKey.alloc_ep_res AuthKey.bind_ep_res AuthKey.free_ep_res AuthKey.init_av attempt
auth_key_init_succeeds = refl

init_endpoint-Ends_example :
    Ends limited
      (Handle.rcq 0 ∷ Handle.scq 0 ∷ Handle.ep 0 ∷ Handle.dom ∷ [])
      (Handle.dom ∷ [])
      (Gnix.init_endpoint limited 0 two_calls)
init_endpoint-Ends_example =
    init_endpoint-Ends limited limited-Closes 0 two_calls (Handle.dom ∷ []) refl

gups_Registers : Registers limited GnixMain.regions (Gnix.init_gnix_prov limited 2 fresh).1
unfolding Gnix.init_gnix_prov Gnix.init_fabric Gnix.init_endpoints Gnix.init_endpoint
    Gnix.alloc_ep_res Gnix.bind_ep_res Gnix.free_ep_res Gnix.init_av attempt
gups_Registers = (refl, (refl, (refl, tt)))

gups_main-live_example :
    (after : limited.World) × (GnixMain.main limited 2 false fresh ≡ ok after)
    × (limited.live after ≡ [])
gups_main-live_example =
    GnixMain.gups_main-live limited limited-Closes 2 false fresh init_gnix_prov_succeeds
      gups_Registers

auth_key_Registers :
    Registers limited AuthKeyMain.regions (AuthKey.init_gnix_prov limited 2 fresh).1
unfolding AuthKey.init_gnix_prov AuthKey.init_fabric AuthKey.init_endpoints AuthKey.init_endpoint
    AuthKey.alloc_ep_res AuthKey.bind_ep_res AuthKey.free_ep_res AuthKey.init_av attempt
auth_key_Registers = (refl, (refl, tt))

auth_key_main-live_example :
    (after : limited.World) × (AuthKeyMain.main limited 2 false fresh ≡ ok after)
    × (limited.live after ≡ [])
auth_key_main-live_example =
    AuthKeyMain.auth_key_main-live limited limited-Closes 2 false fresh auth_key_init_succeeds
      auth_key_Registers

init_endpoint-closes_domain_example :
    Ends limited
      (Handle.thread_av 0 ∷ Handle.rcq 0 ∷ Handle.scq 0 ∷ Handle.ep 0 ∷ Handle.dom ∷ [])
      (remove Handle.dom (Handle.dom ∷ []))
      (OneSided.init_endpoint limited 0 two_calls)
init_endpoint-closes_domain_example =
    init_endpoint-closes_domain limited limited-Closes 0 two_calls (Handle.dom ∷ []) refl

init_fabric-EndsOrLeaks_example :
    EndsOrLeaks limited limited-Closes [] (Mbw.init_fabric limited TestType.cq_test (5, []))
init_fabric-EndsOrLeaks_example = init_fabric-EndsOrLeaks limited limited-Closes (5, []) [] refl

-- A read that finds nothing, and one that finds a completion.
abbrev idle_turn : Turn
idle_turn = record { cq_read = negsuc 10; cntr_read = 0; cntr_wait = pos 0; wait = pos 0 }

abbrev full_turn : Turn
full_turn = record { cq_read = pos 1; cntr_read = 3; cntr_wait = pos 0; wait = pos 0 }

abbrev turns : List Turn
turns = idle_turn ∷ full_turn ∷ idle_turn ∷ []

turns-AreTurns : AreTurns WaitType.wait_set turns
unfolding AreTurns cq_turn turn_end
turns-AreTurns = (refl, (refl, (refl, tt)))

turns-completions : 1 ≤ completions WaitType.wait_set turns
unfolding completions cq_turn turn_end
turns-completions = omega arith

idle_AreWaits : AreWaits WaitType.wait_unspec 2 (idle_turn ∷ [])
unfolding AreWaits cntr_turn turn_end
idle_AreWaits = (refl, tt)

abbrev reads : List ℤ
reads = negsuc 10 ∷ pos 1 ∷ pos 0 ∷ pos 1 ∷ pos 1 ∷ []

eagain_AreReads : AreReads (negsuc 10 ∷ [])
unfolding AreReads
eagain_AreReads = (refl, tt)

no_completion : Completion.completions (negsuc 10 ∷ []) < 1
unfolding Completion.completions
no_completion = omega arith

two_windows : ¬ (SendRecvType.send_recv ≡ SendRecvType.fin)
two_windows e = absurd (cc)

one_sided_AllInit :
    AllInit limited
      (λ i. OneSided.init_per_thread_data limited i 2)
      0
      2
      (OneSided.init_fabric limited fresh).1
unfolding AllInit OneSided.init_per_thread_data OneSided.init_endpoint OneSided.alloc_ep_res
    OneSided.bind_ep_res OneSided.free_ep_res OneSided.init_av OneSided.init_fabric attempt
one_sided_AllInit = (refl, (refl, tt))

one_sided_main-live_example :
    limited.live (OneSidedMain.main limited 2 2 true fresh).1 ≡ limited.live fresh
one_sided_main-live_example =
    OneSidedMain.one_sided_main-live limited limited-Closes 2 2 fresh one_sided_AllInit

pingpong_AllInit :
    AllInit limited
      (λ i. Pingpong.init_per_thread_data limited i 2)
      0
      2
      (Pingpong.init_fabric limited fresh).1
unfolding AllInit Pingpong.init_per_thread_data Pingpong.init_endpoint Pingpong.alloc_ep_res
    Pingpong.bind_ep_res Pingpong.free_ep_res Pingpong.init_av Pingpong.init_fabric attempt
pingpong_AllInit = (refl, (refl, tt))
