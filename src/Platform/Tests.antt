-- ===== src/Platform/Tests.antt =====
-- A bring-up that fails in the middle, mappings that are removed again, and the echo.
use t113_c.Base.{ℕ, ◌+◌, ◌*◌, if◌then◌else◌, true, ◌≡◌, ◌≢◌, refl, arith}
use t113_c.Base.{List, [], ◌∷◌, ◌++◌, none, some, length, get_or, ℤ, pos, negsuc, is_zero}
use t113_c.Calls.{
  Call, metal_init, metal_list_init, metal_list_first, remoteproc_init, remoteproc_config,
}
use t113_c.Hw.{Device, Library, Trace}
use t113_c.Hw.History.{called}
use t113_c.Irq.Tracks.{irq_at_start}
use t113_c.Plic.Startup.{ready}
use t113_c.Msgbox.Setup.{Polled, rv_id, arm_id}
use t113_c.Msgbox.Setup.Returns.{empty_fifo-Bounded}
use t113_c.Base.{replicate}
use t113_c.Platform.Echo.{Incoming, echoes, sent_to, echoes-sent_to}
use t113_c.Platform.{
  rpmsg_addr_any, World, cleared, cleared_mailbox, done, returned, platform_rproc_init,
  platform_get_rpmsg_device,
}
use t113_c.Platform.Bringup.{steady, first_failure, attempted}
use t113_c.Platform.Bringup.Order.{setup_order}
use t113_c.Platform.Bringup.Whole.{platform_rproc_init-first_failure}
use t113_c.Platform.Memory.{platform_rproc_remove}
use t113_c.Platform.Memory.Freed.{
  Request, KnowsFirst, members, freed, map_all, platform_rproc_remove-frees,
}

-- `remoteproc_config` fails; every other call succeeds.
abbrev answers : Call → ℤ
answers remoteproc_config = negsuc 21
answers c = pos 0

abbrev pointers : Call → ℕ
pointers c = 0x41500000

abbrev quiet : Device
quiet = record { bus = λ t w a. 0; csr_of = λ t c. 0 }

abbrev before : World
before = record {
  plat = cleared;
  driver = record { mb = cleared_mailbox; last_vqid = 0; repeat = 0 };
  irq = irq_at_start Polled ready;
  trace = [];
}

abbrev plat_at : ℕ
plat_at = 0x41480000

plat_at-ne : plat_at ≢ 0
plat_at-ne e = omega arith

abbrev order : List Call
order =
    metal_list_init ∷ metal_init ∷ remoteproc_init plat_at ∷ setup_order answers pointers 0x41490000

-- The result is the code of the call, and three calls follow the first three.
stops : first_failure answers pointers order ≡ negsuc 21
unfolding first_failure
stops = refl

six : length (attempted answers pointers order []) ≡ 6
unfolding attempted
six = refl

platform_rproc_init-first_failure_example :
    let z = first_failure answers pointers order in
    let (o, w') =
      platform_rproc_init (steady answers pointers) quiet 4 9 0x41490000 plat_at before in
    (o ≡ (if is_zero z then done (pos 0) else returned z))
    × (called w'.trace ≡ attempted answers pointers order (called []))
    × (platform_get_rpmsg_device 0x41480100 plat_at w'.plat ≡ (if is_zero z then 0x41480100 else 0))
platform_rproc_init-first_failure_example =
    platform_rproc_init-first_failure answers pointers quiet 4 9 plat_at plat_at-ne
      (empty_fifo-Bounded quiet 4 rv_id arm_id 0 plat_at (omega arith) (λ t w a. refl)) 0x41490000
      0x41480100 before

-- A heap that hands out one block after the other.
blocks : Call → Trace → ℕ
blocks metal_list_first t = get_or (members t) 0 0
blocks c t = 0x1000 + 64 * length (members t)

abbrev heap : Library
heap = record { code = λ c t. pos 0; pointer = blocks }

heap-KnowsFirst : KnowsFirst heap
unfolding blocks
heap-KnowsFirst t = refl

-- One address is enough, and without any the mapping is refused.
abbrev three_requests : List Request
three_requests =
    record { pa = some 0x414AC000; da = none; size = 0x2000; attribute = 0 }
    ∷ record { pa = none; da = none; size = 0x1000; attribute = 0 }
    ∷ record { pa = none; da = some 0x414B0000; size = 0x40000; attribute = 0 }
    ∷ []

nothing_yet : members [] ≡ []
unfolding members
nothing_yet = refl

platform_rproc_remove-frees_example :
    let (es, t1) = map_all heap plat_at three_requests [] in
    let (ended, t2) = platform_rproc_remove heap 4 plat_at t1 in
    (ended ≡ true) × (members t2 ≡ []) × (freed t2 ≡ freed [] ++ es)
platform_rproc_remove-frees_example =
    platform_rproc_remove-frees heap plat_at 4 three_requests [] heap-KnowsFirst plat_at-ne
      nothing_yet (omega arith)

-- Two peers talk to the echo of a platform that cannot send.
abbrev ping : Incoming
ping = record { data_at = 0x41500100; len = 4; src = 0x400 }

abbrev other_ping : Incoming
other_ping = record { data_at = 0x41500200; len = 8; src = 0x401 }

abbrev mute : Library
mute = record { code = λ c t. negsuc 4; pointer = λ c t. 0 }

echoes-sent_to_example :
    let ((last, codes), u) = echoes mute (ping ∷ other_ping ∷ []) rpmsg_addr_any [] in
    (last ≡ 0x400)
    × (codes ≡ replicate 2 (pos 0))
    × (called u ≡ sent_to 0x400 (ping ∷ other_ping ∷ []) (called []))
echoes-sent_to_example =
    echoes-sent_to mute ping (other_ping ∷ []) []
      (λ (e : ping.src ≡ rpmsg_addr_any). omega (arith, e))
