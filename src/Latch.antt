-- ===== src/Latch.antt =====
-- aula-05-13a/cdl.c: a latch on which threads wait for a number of signals.
-- Every operation holds the latch's lock, but for the time in which it waits on the condition.
-- The counter is an int that falls below 0 with more signals than it was made for; all that is read
-- of it is whether it is positive, and whether it becomes 0, so it stands for its positive part.
pub mod Atomic
mod Examples
pub mod Waits
use so_1920v_li41n.Prelude.{ℕ, ◌-◌, ◌==◌, ltb, if◌then◌else◌, update}

-- Where a thread stands in `cdl_wait_for_all`: not called, about to test the counter, waiting on the
-- condition, and returned.
pub data Place : Type 0 where
  outside : Place
  testing : Place
  blocked : Place
  passed : Place

pub record Cdl : Type 0 where
  pub counter : ℕ
  pub thread : ℕ → Place

abbrev pub woken : Place → Place
woken blocked = testing
woken p = p

unfoldable pub cdl_init : ℕ → Cdl
cdl_init initial = record { counter = initial; thread = λ t. outside }

unfoldable pub cdl_signal_one : Cdl → Cdl
cdl_signal_one cdl =
    if cdl.counter == 1
    then record { counter = 0; thread = λ t. woken (cdl.thread t) }
    else record cdl { counter = cdl.counter - 1 }

-- The test of the loop of `cdl_wait_for_all` by the thread `t`, and the wait.
unfoldable pub cdl_wait_for_all : ℕ → Cdl → Cdl
cdl_wait_for_all t cdl = record cdl {
  thread = update cdl.thread t (if ltb 0 cdl.counter then blocked else passed);
}
