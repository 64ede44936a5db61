-- ===== src/Fs/Task/Resume.antt =====
-- A process reads from a terminal through task_fs of fs/main.c.
use Prim.Native.Nat.{bit_and}
use dlos.Prelude.{
  ℕ, ◌/◌, ◌%◌, ◌^◌, ◌<◌, ◌≡◌, refl, true, false, ltb, ◌==◌, if◌then◌else◌, Option, none, some, ◌∷◌,
  arith, ap, ◌∙◌,
}
use dlos.Const.{task_tty, read_type, dev_read, suspend_proc, resume_proc, syscall_ret}
use dlos.Kernel.Proc.{Message, Code, done, pure, ◌>>◌, assert, >>=-done}
use dlos.Fs.State.{Fs, nr_file_desc, nr_inode, i_char_special}
use dlos.Fs.Files.{with_some}
use dlos.Fs.ReadWrite.{forward, rdwt_inode, rdwt_desc, do_rdwt, rw_file}
use dlos.Fs.Task.{returned, set_cnt, served, answer, fs_round}

-- What the terminals get for a request to read from the device `dev`.
abbrev pub asked : Message → ℕ → Message
asked msg dev = record msg { type = dev_read; m3i4 = dev % 2 ^ 8; m3i3 = msg.source }

-- Entry FD of the caller is an open terminal: descriptor `f`, inode `q`.
pub record IsTerminal (s : Fs) (msg : Message) (f q : ℕ) : Type 0 where
  pub entry : (s.kernel.proc_table msg.source).filp msg.m3i1 ≡ some f
  pub f_in_table : f < nr_file_desc
  pub mode : (s.f_desc_table f).fd_mode / 2 % 2 ≡ 1
  pub inode : (s.f_desc_table f).fd_inode ≡ some q
  pub q_in_table : q < nr_inode
  pub special : bit_and (s.inode_table q).i_mode 0xF000 ≡ i_char_special
  pub major : (s.inode_table q).i_start_sect / 2 ^ 8 % 2 ^ 8 ≡ 4

abbrev taken : Fs → Message → Fs
taken s msg = record s { fs_msg = msg; pcaller = msg.source }

-- The state behind the call of the driver.
abbrev passed_on : (Message → Message) → Fs → Message → ℕ → Fs
passed_on driver s msg dev = record (taken s msg) {
  fs_msg = driver (asked msg dev);
  outbox = (task_tty, asked msg dev) ∷ s.outbox;
}

forward-asked :
    (driver : Message → Message) (s : Fs) (msg : Message) (dev : ℕ)
    → msg.type ≡ read_type
    → dev / 2 ^ 8 % 2 ^ 8 ≡ 4
    → (driver (asked msg dev)).m3i2 ≡ msg.m3i2
    → forward driver dev (taken s msg)
      ≡ done (some (driver (asked msg dev)).m3i2) (passed_on driver s msg dev)
unfolding forward
forward-asked driver s msg dev reads major count =
    let is_read : (msg.type == read_type) ≡ true = ground (arith, reads) in
    let is_tty : (dev / 2 ^ 8 % 2 ^ 8 == 4) ≡ true = ground (arith, major) in
    let same : ((driver (asked msg dev)).m3i2 == msg.m3i2) ≡ true = ground (arith, count) in
    rw (is_read, is_tty, same) refl

do_rdwt-asked :
    (driver : Message → Message) (s : Fs) (msg : Message) (f q : ℕ)
    → msg.type ≡ read_type
    → IsTerminal s msg f q
    → (driver (asked msg (s.inode_table q).i_start_sect)).m3i2 ≡ msg.m3i2
    → do_rdwt driver (taken s msg)
      ≡ done
          (some (driver (asked msg (s.inode_table q).i_start_sect)).m3i2)
          (passed_on driver s msg (s.inode_table q).i_start_sect)
unfolding do_rdwt rdwt_desc rdwt_inode
do_rdwt-asked driver s msg f q reads t count =
    let s0 = taken s msg in
    let f_test : ltb f nr_file_desc ≡ true = ground (arith, t.f_in_table) in
    let mode : ((s.f_desc_table f).fd_mode / 2 % 2 == 0) ≡ false = ground (arith, t.mode) in
    let q_test : ltb q nr_inode ≡ true = ground (arith, t.q_in_table) in
    let special : (bit_and (s.inode_table q).i_mode 0xF000 == i_char_special) ≡ true =
      ground (arith, t.special) in
    let call = forward driver (s.inode_table q).i_start_sect in
    let of_desc = with_some (s.f_desc_table f).fd_inode (rdwt_inode driver f) in
    let of_inode : Code Fs (Option ℕ) =
      if bit_and (s.inode_table q).i_mode 0xF000 == i_char_special then call else rw_file f q in
    ap (λ o. with_some o (rdwt_desc driver) s0) t.entry
    ∙ ap
        (λ b.
          (assert 22 b >> (if (s.f_desc_table f).fd_mode / 2 % 2 == 0 then pure none else of_desc))
            s0)
        f_test
    ∙ ap (λ b. (if b then pure none else of_desc) s0) mode
    ∙ ap (λ o. with_some o (rdwt_inode driver f) s0) t.inode
    ∙ ap (λ b. (assert 32 b >> of_inode) s0) q_test
    ∙ ap (λ b. (if b then call else rw_file f q) s0) special
    ∙ forward-asked driver s msg (s.inode_table q).i_start_sect reads t.major count

-- The state behind a round that a terminal suspends.
abbrev suspended : (Message → Message) → Fs → Message → ℕ → Fs
suspended driver s msg dev = record (passed_on driver s msg dev) {
  fs_msg = record (driver (asked msg dev)) { m3i2 = (driver (asked msg dev)).m3i2 };
}

answer-suspended : (src : ℕ) (s : Fs) → s.fs_msg.type ≡ suspend_proc → answer src s ≡ done tt s
unfolding answer
answer-suspended src s h =
    let test : (s.fs_msg.type == suspend_proc) ≡ true = ground (arith, h) in rw test refl

read-suspended :
    (driver : Message → Message) (s : Fs) (msg : Message) (f q : ℕ)
    → msg.type ≡ read_type
    → IsTerminal s msg f q
    → (driver (asked msg (s.inode_table q).i_start_sect)).m3i2 ≡ msg.m3i2
    → (driver (asked msg (s.inode_table q).i_start_sect)).type ≡ suspend_proc
    → fs_round driver msg s ≡ done tt (suspended driver s msg (s.inode_table q).i_start_sect)
unfolding fs_round served
read-suspended driver s msg f q reads t count suspends =
    let dev = (s.inode_table q).i_start_sect in
    let s0 = taken s msg in
    let reply : Option ℕ → Code Fs ℕ = λ n. set_cnt (returned n) >> pure msg.source in
    let run =
      ap (λ x. served driver x msg.source s0) reads
      ∙ >>=-done (do_rdwt driver) reply (do_rdwt-asked driver s msg f q reads t count) in
    >>=-done (served driver msg.type msg.source) answer run
    ∙ answer-suspended msg.source (suspended driver s msg dev) suspends

resume-answered :
    (driver : Message → Message) (s : Fs) (r : Message)
    → r.type ≡ resume_proc
    → fs_round driver r s
      ≡ done tt (record (taken s r) {
        fs_msg = record r { type = syscall_ret };
        outbox = (r.m3i3, record r { type = syscall_ret }) ∷ s.outbox;
      })
unfolding fs_round served answer
resume-answered driver s r resumes =
    let run = ap (λ x. served driver x r.source (taken s r)) resumes in
    let test : (r.type == suspend_proc) ≡ false = ground (arith, resumes) in
    >>=-done (served driver r.type r.source) answer run ∙ rw test refl

-- A process asks to read from a terminal, and the terminal's answer is SUSPEND_PROC with the count
-- asked for; later the terminal sends RESUME_PROC with the process as PROC_NR. The first round passes
-- the request on to the terminals as DEV_READ and does not answer; the second one answers the
-- process, and nobody else, with the terminal's message. Nothing else of the state changes but the
-- message and its caller.
pub fs_round-resumed :
    (driver : Message → Message) (s : Fs) (msg r : Message) (f q : ℕ)
    → msg.type ≡ read_type
    → IsTerminal s msg f q
    → (driver (asked msg (s.inode_table q).i_start_sect)).m3i2 ≡ msg.m3i2
    → (driver (asked msg (s.inode_table q).i_start_sect)).type ≡ suspend_proc
    → r.type ≡ resume_proc
    → r.m3i3 ≡ msg.source
    → (s1 s2 : Fs) × (fs_round driver msg s ≡ done tt s1)
      × (s1.outbox ≡ (task_tty, asked msg (s.inode_table q).i_start_sect) ∷ s.outbox)
      × (fs_round driver r s1 ≡ done tt s2)
      × (s2.outbox ≡ (msg.source, record r { type = syscall_ret }) ∷ s1.outbox)
      × (s2 ≡ record s { fs_msg = s2.fs_msg; pcaller = s2.pcaller; outbox = s2.outbox })
fs_round-resumed driver s msg r f q reads t count suspends resumes who =
    let s1 = suspended driver s msg (s.inode_table q).i_start_sect in
    (
      s1,
      record (taken s1 r) {
        fs_msg = record r { type = syscall_ret };
        outbox = (r.m3i3, record r { type = syscall_ret }) ∷ s1.outbox;
      },
      read-suspended driver s msg f q reads t count suspends,
      refl,
      resume-answered driver s1 r resumes,
      ap (λ p. (p, record r { type = syscall_ret }) ∷ s1.outbox) who,
      refl,
    )
