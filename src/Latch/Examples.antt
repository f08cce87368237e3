-- ===== src/Latch/Examples.antt =====
-- A latch for two signals, of which both were given.
use so_1920v_li41n.Prelude.{ltb, if◌then◌else◌, ◌≡◌, ◌≢◌, arith}
use so_1920v_li41n.Latch.{blocked, passed, cdl_init, cdl_signal_one, cdl_wait_for_all}
use so_1920v_li41n.Latch.Waits.{System, Reach, here, next, signal, cdl_wait_for_all-passes}
use so_1920v_li41n.Latch.Atomic
use so_1920v_li41n.Latch.Atomic.{cdl_signal_sub-early}

abbrev both : System
both = record { cdl = cdl_signal_one (cdl_signal_one (cdl_init 2)); signals = 2 }

both-Reach : Reach 2 both
both-Reach = next (next here signal) signal

cdl_wait_for_all-passes_example :
    if ltb both.signals 2
    then both.cdl.thread 7 ≢ passed
    else ((both.cdl.thread 7 ≢ blocked) × ((cdl_wait_for_all 7 both.cdl).thread 7 ≡ passed))
cdl_wait_for_all-passes_example = cdl_wait_for_all-passes 2 7 both-Reach

cdl_signal_sub-early_example :
    (s : Atomic.System) × Atomic.Reach 3 s × (s.cdl.thread 7 ≡ passed) × (s.cdl.pending ≡ 1)
cdl_signal_sub-early_example = cdl_signal_sub-early 3 7 (omega arith)
