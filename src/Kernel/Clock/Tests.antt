-- ===== src/Kernel/Clock/Tests.antt =====
-- The clock interrupt at a small table.
use dlos.Prelude.{ℕ, ◌≡◌, ◌<◌, ◌≤◌, ◌⊎◌, refl, [], List, arith}
use dlos.Const.{max_ticks}
use dlos.Kernel.Proc.{Kernel, done}
use dlos.Kernel.Sample.{all_idle, kernel}
use dlos.Kernel.Ipc.Base.{ldt_seg_linear}
use dlos.Kernel.Ipc.Valid.{IsValid}
use dlos.Kernel.Ipc.Waits.{stops}
use dlos.Kernel.Clock.{clock_handler, clock_handler-IsValid}
use dlos.Prelude.{inl}

abbrev nobody_sends : ℕ → List ℕ
nobody_sends _ = []

idle-IsValid : IsValid all_idle nobody_sends
unfolding ldt_seg_linear
idle-IsValid = record {
  queue = λ d h. refl;
  distinct = λ d h. tt;
  members = λ d s h i. cc;
  listed = λ s h i. cc;
  phase = λ p h. inl (refl, refl, refl, refl);
  small = λ p h. omega arith;
  flat = λ p h. refl;
  ends = λ p h. (0, stops refl);
}

clock_handler-IsValid_example :
    (k' : Kernel) × (clock_handler (kernel all_idle) ≡ done tt k')
    × IsValid k'.proc_table nobody_sends
    × (k'.ticks < max_ticks)
    × ((k'.p_proc_ready ≡ 5) ⊎ (((kernel all_idle).k_reenter ≡ 0) × (0 ≤ 1)))
clock_handler-IsValid_example =
    clock_handler-IsValid (kernel all_idle) nobody_sends 7 idle-IsValid (omega arith) refl
      (omega arith)
