-- ===== src/Kernel/Ipc/Tests.antt =====
-- The theorems on kernel/proc.c at concrete tables, and runs of its functions there.
use dlos.Prelude.{ℕ, ◌≡◌, refl, List, [], arith, inl, inr, Option}
use dlos.Const.{any, receive_function}
use dlos.Kernel.Proc.{Table, Kernel, done, stop, panic, assertion}
use dlos.Kernel.Sched.Choice.{Scheduled}
use dlos.Kernel.Sample.{all_idle, kernel}
use dlos.Kernel.Ipc.{sys_sendrec}
use dlos.Kernel.Ipc.Base.{ldt_seg_linear}
use dlos.Kernel.Ipc.Send.{msg_send}
use dlos.Kernel.Ipc.Receive.{msg_receive, inform_int}
use dlos.Kernel.Ipc.Valid.{IsValid, IsValid-same}
use dlos.Kernel.Ipc.Waits.{stops, Waits, direct, through}
use dlos.Kernel.Ipc.Deliver.{delivered, msg_send-delivered}
use dlos.Kernel.Ipc.Enqueue
use dlos.Kernel.Ipc.Enqueue.{queued, with_table}
use dlos.Kernel.Ipc.Pushed.{pushed, pushed-IsValid}
use dlos.Kernel.Ipc.SendQueued.{msg_send-pushed, msg_send-panic}
use dlos.Kernel.Ipc.Taken.{popped}
use dlos.Kernel.Ipc.ReceiveTaken.{fetched, msg_receive-popped}
use dlos.Kernel.Ipc.ReceiveWait.{
  interrupted, waiting, msg_receive-interrupted, msg_receive-waiting, msg_receive-assertion,
}
use dlos.Kernel.Ipc.Inform.{informed, inform_int-informed}
use dlos.Kernel.Ipc.Calls.{Outcome, sys_sendrec-Outcome}

abbrev empty : ℕ → List ℕ
empty _ = []

all_idle-IsValid : IsValid all_idle empty
unfolding ldt_seg_linear
all_idle-IsValid = record {
  queue = λ d h. refl;
  distinct = λ d h. tt;
  members = λ d s h i. cc;
  listed = λ s h i. cc;
  phase = λ p h. inl (refl, refl, refl, refl);
  small = λ p h. omega arith;
  flat = λ p h. refl;
  ends = λ p h. (0, stops refl);
}

-- FS waits for anybody, with a buffer at 0x5000.
abbrev fs_waits : Table
fs_waits = (waiting (kernel all_idle) 3 any 0x5000).proc_table

fs_waits-IsValid : IsValid fs_waits empty
fs_waits-IsValid =
    IsValid-same all_idle fs_waits empty all_idle-IsValid
      (λ r. record {
        q = ground arith;
        next = ground arith;
        sending = ground arith;
        sendto = ground arith;
        rw_segment = ground arith;
      })
      (λ r h. (ground arith, ground arith))

-- INIT waits to send to FS the message at 0x6000.
abbrev init_sends : Table
init_sends = queued all_idle 5 3 0x6000 []

init_sends-IsValid : IsValid init_sends (pushed empty 3 5)
init_sends-IsValid =
    pushed-IsValid all_idle init_sends empty 5 3 0x6000 all_idle-IsValid (omega arith) (omega arith)
      (omega arith) refl (omega arith) (omega arith)
      (record {
        self = Enqueue.queued_self all_idle 5 3 0x6000 [] (omega arith) refl;
        other = Enqueue.queued_other all_idle 5 3 0x6000 [];
        same_q = Enqueue.queued_q all_idle 5 3 0x6000 [];
        same_next = Enqueue.queued_next all_idle 5 3 0x6000 [];
        chain = Enqueue.queued-Chain all_idle 5 3 0x6000 [] (omega arith) refl tt refl;
      })
      not_waiting
  where
    not_waiting : ¬ Waits all_idle 5 3
    not_waiting (direct s e) = cc
    not_waiting (through s w) = cc

-- A key was pressed while TTY was busy.
abbrev tty_pending : Table
tty_pending = (informed (kernel all_idle) 0).proc_table

tty_pending-IsValid : IsValid tty_pending empty
tty_pending-IsValid =
    (inform_int-informed (kernel all_idle) empty 0 all_idle-IsValid (omega arith)).1

msg_send-delivered_example :
    (msg_send 5 3 0x6000 (kernel fs_waits) ≡ done 0 (delivered (kernel fs_waits) 5 3 0x6000))
    × IsValid (delivered (kernel fs_waits) 5 3 0x6000).proc_table empty
msg_send-delivered_example =
    msg_send-delivered (kernel fs_waits) empty 5 3 0x6000 fs_waits-IsValid (omega arith)
      (omega arith) (omega arith) refl (omega arith) (omega arith) refl

msg_send-pushed_example :
    (k' : Kernel) × (msg_send 5 3 0x6000 (kernel all_idle) ≡ done 0 k')
    × Scheduled (with_table (kernel all_idle) init_sends) k'
    × IsValid k'.proc_table (pushed empty 3 5)
msg_send-pushed_example =
    msg_send-pushed (kernel all_idle) empty 5 3 0x6000 all_idle-IsValid (omega arith) (omega arith)
      (omega arith) refl (omega arith) (omega arith) 0 refl not_waiting (omega arith) (omega arith)
      refl (omega arith)
  where
    not_waiting : ¬ Waits all_idle 5 3
    not_waiting (direct s e) = cc
    not_waiting (through s w) = cc

msg_send-panic_example : msg_send 3 5 0x7000 (kernel init_sends) ≡ stop panic
msg_send-panic_example =
    msg_send-panic (kernel init_sends) (pushed empty 3 5) 3 5 0x7000 init_sends-IsValid
      (omega arith) (omega arith) (direct refl refl)

msg_receive-popped_example :
    (prev : Option ℕ) × (msg_receive 3 any 0x5000 (kernel init_sends)
      ≡ done 0 (fetched (kernel init_sends) 3 5 prev 0x5000))
    × IsValid
        (fetched (kernel init_sends) 3 5 prev 0x5000).proc_table
        (popped (pushed empty 3 5) 3 5)
msg_receive-popped_example =
    msg_receive-popped (kernel init_sends) (pushed empty 3 5) 3 5 0x5000 init_sends-IsValid
      (omega arith) refl (omega arith) (omega arith) any (omega arith) (inr refl) refl refl

msg_receive-interrupted_example :
    (msg_receive 0 any 0x5000 (kernel tty_pending)
      ≡ done 0 (interrupted (kernel tty_pending) 0 0x5000))
    × IsValid (interrupted (kernel tty_pending) 0 0x5000).proc_table empty
msg_receive-interrupted_example =
    msg_receive-interrupted (kernel tty_pending) empty 0 any 0x5000 tty_pending-IsValid
      (omega arith) refl (omega arith) (omega arith) (omega arith) refl

msg_receive-waiting_example :
    (k' : Kernel) × (msg_receive 3 any 0x5000 (kernel all_idle) ≡ done 0 k')
    × Scheduled (waiting (kernel all_idle) 3 any 0x5000) k'
    × IsValid k'.proc_table empty
msg_receive-waiting_example =
    msg_receive-waiting (kernel all_idle) empty 3 any 0x5000 all_idle-IsValid (omega arith) refl
      (omega arith) (omega arith) (omega arith) (inr (inl refl)) refl refl 5 (omega arith)
      (omega arith) refl (omega arith) refl

-- TTY waits for SYS while the key is pending.
msg_receive-assertion_example : msg_receive 0 1 0x5000 (kernel tty_pending) ≡ stop (assertion 342)
msg_receive-assertion_example =
    msg_receive-assertion (kernel tty_pending) empty 0 1 0x5000 tty_pending-IsValid (omega arith)
      refl (omega arith) (omega arith) (omega arith) (inl (omega arith)) refl refl 5 (omega arith)
      (omega arith) refl (omega arith) refl

inform_int-informed_example :
    (inform_int 3 (kernel fs_waits) ≡ done tt (informed (kernel fs_waits) 3))
    × IsValid (informed (kernel fs_waits) 3).proc_table empty
inform_int-informed_example =
    inform_int-informed (kernel fs_waits) empty 3 fs_waits-IsValid (omega arith)

sys_sendrec-Outcome_example :
    Outcome init_sends receive_function 5 3
      (sys_sendrec receive_function 5 0x5000 3 (kernel init_sends))
sys_sendrec-Outcome_example =
    sys_sendrec-Outcome (kernel init_sends) (pushed empty 3 5) receive_function 3 5 0x5000
      init_sends-IsValid (omega arith) refl (omega arith) (omega arith) (omega arith) refl
      (inr (refl, inl (omega arith)))
