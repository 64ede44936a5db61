-- ===== src/Kernel/Ipc/Valid.antt =====
-- The invariant of the message system of kernel/proc.c: the queues hold exactly the processes that
-- send, every process is in one of four phases, and no processes wait for one another in a circle.
use dlos.Prelude.{ℕ, ◌+◌, ◌^◌, ◌<◌, ◌≡◌, ◌≢◌, ◌⊎◌, true, List, arith, has, Distinct}
use dlos.Const.{nr_tasks, nr_native_procs, nr_all, no_task}
use dlos.Kernel.Proc.{Proc, Table, Kernel, done, is_clear, is_sending, is_receiving, is_free_slot}
use dlos.Kernel.Ipc.Base.{ldt_seg_linear, linear, va2la}
use dlos.Kernel.Ipc.Queue.{Chain, Chain-frame}
use dlos.Kernel.Ipc.Waits.{Ends, Ends-same}

-- Neither sending nor receiving.
abbrev pub IsIdle : Proc → Type 0
IsIdle r =
    (is_clear r.p_flags ≡ true) × (r.p_msg ≡ 0) × (r.p_recvfrom ≡ no_task) × (r.p_sendto ≡ no_task)

abbrev pub IsSender : Proc → Type 0
IsSender r = (is_sending r.p_flags ≡ true) × (r.p_msg ≢ 0) × (r.p_recvfrom ≡ no_task)

abbrev pub IsReceiver : Proc → Type 0
IsReceiver r =
    (is_receiving r.p_flags ≡ true)
    × (r.p_msg ≢ 0)
    × (r.p_sendto ≡ no_task)
    × (r.p_recvfrom ≢ no_task)

abbrev pub IsUnused : Proc → Type 0
IsUnused r = is_free_slot r.p_flags ≡ true

abbrev pub InPhase : Proc → Type 0
InPhase r = IsIdle r ⊎ IsSender r ⊎ IsReceiver r ⊎ IsUnused r

-- `qs` lists for each process those that wait to send to it, the first to come first.
pub record IsValid (t : Table) (qs : ℕ → List ℕ) : Type 0 where
  pub queue : (d : ℕ) → d < nr_all → Chain t (t d).q_sending (qs d)
  pub distinct : (d : ℕ) → d < nr_all → Distinct (qs d)
  pub members :
      (d s : ℕ)
      → d < nr_all
      → has s (qs d) ≡ true
      → (s < nr_all) × ((t s).p_flags.sending ≡ true) × ((t s).p_sendto ≡ d)
  pub listed :
      (s : ℕ)
      → s < nr_all
      → (t s).p_flags.sending ≡ true
      → ((t s).p_sendto < nr_all) × (has s (qs (t s).p_sendto) ≡ true)
  pub phase : (p : ℕ) → p < nr_all → InPhase (t p)
  pub small : (p : ℕ) → p < nr_all → (t p).p_msg < 2 ^ 32
  pub flat : (p : ℕ) → p < nr_tasks + nr_native_procs → ldt_seg_linear (t p).ldt_rw ≡ 0
  pub ends : (p : ℕ) → p < nr_all → (n : ℕ) × Ends t p n

-- An address below 2 ^ 32 is translated, in the first processes to itself.
pub va2la-linear :
    (k : Kernel) (p va : ℕ)
    → (p < nr_tasks + nr_native_procs → ldt_seg_linear (k.proc_table p).ldt_rw ≡ 0)
    → va < 2 ^ 32
    → va2la p va k ≡ done (linear k.proc_table p va) k
unfolding va2la
va2la-linear k p va flat small = ground (arith)

-- A process that is ready is idle.
pub IsIdle-of_ready :
    (t : Table) (qs : ℕ → List ℕ) (p : ℕ)
    → IsValid t qs
    → p < nr_all
    → is_clear (t p).p_flags ≡ true
    → IsIdle (t p)
IsIdle-of_ready t qs p v h r = ground (arith, v.phase p h)

-- The two entries of a process agree on queues, on what it waits for and on its segment.
pub record SameLinks (t t' : Table) (p : ℕ) : Type 0 where
  pub q : (t' p).q_sending ≡ (t p).q_sending
  pub next : (t' p).next_sending ≡ (t p).next_sending
  pub sending : (t' p).p_flags.sending ≡ (t p).p_flags.sending
  pub sendto : (t p).p_flags.sending ≡ true → (t' p).p_sendto ≡ (t p).p_sendto
  pub rw_segment : (t' p).ldt_rw ≡ (t p).ldt_rw

-- A change that keeps queues, waits and segments keeps the invariant, if it keeps the phases.
pub IsValid-same :
    (t t' : Table) (qs : ℕ → List ℕ)
    → IsValid t qs
    → ((p : ℕ) → SameLinks t t' p)
    → ((p : ℕ) → p < nr_all → InPhase (t' p) × ((t' p).p_msg < 2 ^ 32))
    → IsValid t' qs
IsValid-same t t' qs v same now = record {
  queue = λ d h. rw ((same d).q) (Chain-frame t t' (qs d) _ (λ p i. (same p).next) (v.queue d h));
  distinct = v.distinct;
  members = λ d s h i. ground (arith, v.members d s h i, same s);
  listed = λ s h i. ground (arith, v.listed s h, same s);
  phase = λ p h. (now p h).0;
  small = λ p h. (now p h).1;
  flat = λ p h. rw ((same p).rw_segment) (v.flat p h);
  ends = λ p h. (
    (v.ends p h).0,
    Ends-same t t' p _ (λ q. ((same q).sending, (same q).sendto)) (v.ends p h).1,
  );
}
