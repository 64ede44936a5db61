-- ===== src/Kernel/Ipc/Enqueue.antt =====
-- msg_send of kernel/proc.c when the receiver does not wait: the table with the sender queued.
use dlos.Prelude.{
  ℕ, ◌≤◌, ◌≡◌, ◌≢◌, none, some, true, false, List, [], ◌∷◌, ◌++◌, arith, has, Distinct, length,
  update,
}
use dlos.Const.{nr_all}
use dlos.Kernel.Proc.{Proc, Table, Kernel, done}
use dlos.Kernel.Ipc.Send.{append_sending}
use dlos.Kernel.Ipc.Queue.{Chain, Chain-append, last_or, has-last_or, last_sending-last_or}

-- The two writes to the sender before the queue is touched.
abbrev pub marked : Proc → Proc
marked r = record r { p_flags = record r.p_flags { sending = true } }

abbrev pub addressed : ℕ → ℕ → Proc → Proc
addressed d m r = record r { p_sendto = d; p_msg = m }

abbrev pub headed : ℕ → Proc → Proc
headed s r = record r { q_sending = some s }

abbrev pub linked : ℕ → Proc → Proc
linked s r = record r { next_sending = some s }

abbrev pub ended : Proc → Proc
ended r = record r { next_sending = none }

abbrev pub alter : Table → ℕ → (Proc → Proc) → Table
alter t p f = update t p (f (t p))

-- `s` behind the queue `xs` of `d`.
abbrev pub appended : Table → ℕ → ℕ → List ℕ → Table
appended t s d [] = alter (alter t d (headed s)) s ended
appended t s d (q ∷ xs) = alter (alter t (last_or q xs) (linked s)) s ended

abbrev pub queued : Table → ℕ → ℕ → ℕ → List ℕ → Table
queued t s d m xs = appended (alter (alter t s marked) s (addressed d m)) s d xs

abbrev pub with_table : Kernel → Table → Kernel
with_table k t = record k { proc_table = t }

pub append_sending-appended :
    (k : Kernel) (s d : ℕ) (xs : List ℕ)
    → Chain k.proc_table (k.proc_table d).q_sending xs
    → length xs ≤ nr_all
    → append_sending s d k ≡ done tt (with_table k (appended k.proc_table s d xs))
unfolding append_sending
append_sending-appended k s d [] c h = ground arith
append_sending-appended k s d (q ∷ xs) c h =
    ground (arith, last_sending-last_or k.proc_table nr_all q xs (omega arith) c.1)

module _ (t : Table) (s d m : ℕ) where
  -- The queued sender.
  pub queued_self :
      (xs : List ℕ)
      → s ≢ d
      → has s xs ≡ false
      → queued t s d m xs s ≡ ended (addressed d m (marked (t s)))
  queued_self [] ne out = ground arith
  queued_self (q ∷ xs) ne out = ground (arith, has-last_or q xs)

  -- Everybody else keeps all but the links of the queue.
  pub queued_other :
      (xs : List ℕ) (p : ℕ)
      → p ≢ s
      → queued t s d m xs p ≡ record (t p) {
        q_sending = (queued t s d m xs p).q_sending;
        next_sending = (queued t s d m xs p).next_sending;
      }
  queued_other [] p ne = ground arith
  queued_other (q ∷ xs) p ne = ground arith

  pub queued_q : (xs : List ℕ) (p : ℕ) → p ≢ d → (queued t s d m xs p).q_sending ≡ (t p).q_sending
  queued_q [] p ne = ground arith
  queued_q (q ∷ xs) p ne = ground arith

  -- No process outside the queue of `d` gets another link, but for the sender.
  pub queued_next :
      (xs : List ℕ) (p : ℕ)
      → p ≢ s
      → has p xs ≡ false
      → (queued t s d m xs p).next_sending ≡ (t p).next_sending
  queued_next [] p ne out = ground arith
  queued_next (q ∷ xs) p ne out = ground (arith, has-last_or q xs)

  -- The queue of `d` has the sender at its end.
  pub queued-Chain :
      (xs : List ℕ)
      → s ≢ d
      → has s xs ≡ false
      → Distinct xs
      → Chain t (t d).q_sending xs
      → Chain (queued t s d m xs) (queued t s d m xs d).q_sending (xs ++ s ∷ [])
  queued-Chain [] ne out u c = (ground arith, ground arith)
  queued-Chain (q ∷ xs) ne out u c = (
    ground arith,
    Chain-append t (queued t s d m (q ∷ xs)) s q xs u c.1 (ground arith)
        (ground (arith, has-last_or q xs)) (λ p h n. ground arith),
  )
