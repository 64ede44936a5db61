-- ===== src/Fs/Task/Close.antt =====
-- A process closes a file: close of lib/close.c, served by task_fs of fs/main.c with do_close.
use dlos.Prelude.{
  ℕ, ◌+◌, ◌-◌, ◌%◌, ◌^◌, ◌<◌, ◌≤◌, ◌≡◌, ◌≢◌, refl, sym, true, not, ◌==◌, if◌then◌else◌, none, some,
  ◌∷◌, ℕ_discrete, inl, inr, ◌⊎◌, update, update_self, update_ne, arith, ap, ◌∙◌,
}
use dlos.Const.{task_fs, close_type, syscall_ret}
use dlos.Kernel.Proc.{Message, Proc, Code, done, pure, ◌>>=◌, ◌>>◌, get, >>=-done}
use dlos.Fs.State.{Inode, FileDesc, Fs, set_file_desc}
use dlos.Fs.Inode.{put_inode}
use dlos.Fs.Files.{with_some, set_filp, released, do_close}
use dlos.Fs.Task.{set_retval, served, answer, fs_round, ask_fs}
use dlos.Libc.Calls.{close}

-- The state behind put_inode for the inode `q`.
abbrev put_back : Fs → ℕ → Fs
put_back s q = record s {
  inode_table =
      update s.inode_table q (record (s.inode_table q) { i_cnt = (s.inode_table q).i_cnt - 1 });
}

-- The state behind do_close of entry `fd` of process `p`, with descriptor `f` and inode `q`.
abbrev closed_state : Fs → ℕ → ℕ → ℕ → ℕ → Fs
closed_state s p fd f q = record (put_back s q) {
  f_desc_table = update s.f_desc_table f (released (s.f_desc_table f));
  kernel = record s.kernel {
    proc_table =
        update s.kernel.proc_table p
          (record (s.kernel.proc_table p) { filp = update (s.kernel.proc_table p).filp fd none });
  };
}

put_inode-done :
    (s : Fs) (q : ℕ) → 1 ≤ (s.inode_table q).i_cnt → put_inode q s ≡ done tt (put_back s q)
unfolding put_inode
put_inode-done s q used =
    let test : not ((s.inode_table q).i_cnt == 0) ≡ true = ground (arith, used) in rw test refl

do_close-closed :
    (s : Fs) (f q : ℕ)
    → (s.kernel.proc_table s.pcaller).filp s.fs_msg.m3i1 ≡ some f
    → (s.f_desc_table f).fd_inode ≡ some q
    → 1 ≤ (s.inode_table q).i_cnt
    → do_close s ≡ done 0 (closed_state s s.pcaller s.fs_msg.m3i1 f q)
unfolding do_close
do_close-closed s f q entry inode used =
    let fd = s.fs_msg.m3i1 in
    let rest : ℕ → Code Fs ℕ =
      λ g. set_file_desc g released >> set_filp s.pcaller fd none >> pure 0 in
    let of_desc : ℕ → Code Fs ℕ = λ g. with_some (s.f_desc_table g).fd_inode put_inode >> rest g in
    ap (λ o. with_some o of_desc s) entry
    ∙ ap (λ o. (with_some o put_inode >> rest f) s) inode
    ∙ >>=-done (put_inode q) (λ _. rest f) (put_inode-done s q used)

-- Entry `fd` of process `p` is free again, and its descriptor `f` and inode `q` have one user less.
pub record Closed (s s' : Fs) (p fd f q : ℕ) : Type 0 where
  pub entry : (s'.kernel.proc_table p).filp fd ≡ none
  pub entries :
      (r i : ℕ)
      → (r ≢ p) ⊎ (i ≢ fd)
      → (s'.kernel.proc_table r).filp i ≡ (s.kernel.proc_table r).filp i
  pub fd_cnt : (s'.f_desc_table f).fd_cnt + 1 ≡ (s.f_desc_table f).fd_cnt
  pub fd_inode :
      (s'.f_desc_table f).fd_inode ≡ (if (s.f_desc_table f).fd_cnt == 1 then none else some q)
  pub i_cnt : (s'.inode_table q).i_cnt + 1 ≡ (s.inode_table q).i_cnt
  pub descriptors : (g : ℕ) → g ≢ f → s'.f_desc_table g ≡ s.f_desc_table g
  pub inodes : (x : ℕ) → x ≢ q → s'.inode_table x ≡ s.inode_table x

tables-Closed :
    (s s' : Fs) (p fd f q : ℕ)
    → s'.kernel.proc_table ≡ (closed_state s p fd f q).kernel.proc_table
    → s'.f_desc_table ≡ (closed_state s p fd f q).f_desc_table
    → s'.inode_table ≡ (closed_state s p fd f q).inode_table
    → (s.f_desc_table f).fd_inode ≡ some q
    → 1 ≤ (s.f_desc_table f).fd_cnt
    → (s.f_desc_table f).fd_cnt < 2 ^ 31
    → 1 ≤ (s.inode_table q).i_cnt
    → Closed s s' p fd f q
tables-Closed s s' p fd f q procs descs inodes inode some_fd few used =
    let t = s.kernel.proc_table in
    let own : Proc = record (t p) { filp = update (t p).filp fd none } in
    let mine : s'.kernel.proc_table p ≡ own = ap (λ g. g p) procs ∙ update_self t p own in
    let d : s'.f_desc_table f ≡ released (s.f_desc_table f) =
      ap (λ g. g f) descs ∙ update_self s.f_desc_table f (released (s.f_desc_table f)) in
    let i = ap (λ g. g q) inodes ∙ update_self s.inode_table q _ in
    let last : ((s.f_desc_table f).fd_cnt + 2 ^ 32 - 1) % 2 ^ 32 ≡ (s.f_desc_table f).fd_cnt - 1 =
      omega arith in
    let test : ((s.f_desc_table f).fd_cnt - 1 == 0) ≡ ((s.f_desc_table f).fd_cnt == 1) =
      ground arith in
    record {
      entry = ap (λ (r : Proc). r.filp fd) mine ∙ update_self (t p).filp fd none;
      entries = λ r i out. elim (ℕ_discrete r p) [
        | yes here ↦
            let same : i ≢ fd = elim out [ inl o ↦ absurd (o here) | inr o ↦ o ] in
            ap (λ x. (s'.kernel.proc_table x).filp i) here
            ∙ ap (λ (x : Proc). x.filp i) mine
            ∙ update_ne (t p).filp fd i none (λ e. same (sym e))
            ∙ ap (λ x. (t x).filp i) (sym here)
        | no there ↦
            ap (λ (x : Proc). x.filp i)
              (ap (λ g. g r) procs ∙ update_ne t p r own (λ e. there (sym e)))
      ];
      fd_cnt = omega (arith, ap (λ (x : FileDesc). x.fd_cnt) d);
      fd_inode =
          ap (λ (x : FileDesc). x.fd_inode) d
          ∙ ap (λ n. if n == 0 then none else (s.f_desc_table f).fd_inode) last
          ∙ ap (λ b. if b then none else (s.f_desc_table f).fd_inode) test
          ∙ ap (λ o. if (s.f_desc_table f).fd_cnt == 1 then none else o) inode;
      i_cnt = omega (arith, ap (λ (x : Inode). x.i_cnt) i);
      descriptors = λ g ne. ap (λ h. h g) descs ∙ update_ne s.f_desc_table f g _ (λ e. ne (sym e));
      inodes = λ x ne. ap (λ h. h x) inodes ∙ update_ne s.inode_table q x _ (λ e. ne (sym e));
    }

-- close of process `p` on an entry with an open file, served by task_fs: it returns 0, the entry is
-- free, the descriptor and the inode have one user less, the descriptor gives up its inode with its last
-- user, and no other entry, descriptor or inode changes.
pub close-Closed :
    (driver : Message → Message) (strlen : ℕ → ℕ) (msg : Message) (s : Fs) (p fd f q : ℕ)
    → (s.kernel.proc_table p).filp fd ≡ some f
    → (s.f_desc_table f).fd_inode ≡ some q
    → 1 ≤ (s.f_desc_table f).fd_cnt
    → (s.f_desc_table f).fd_cnt < 2 ^ 31
    → 1 ≤ (s.inode_table q).i_cnt
    → (s' : Fs) × (close (ask_fs driver p) strlen msg fd s ≡ done 0 s') × Closed s s' p fd f q
unfolding close fs_round served answer
close-Closed driver strlen msg s p fd f q entry inode some_fd few used =
    let m : Message = record msg { source = p; type = close_type; m3i1 = fd } in
    let s0 : Fs = record s { fs_msg = m; pcaller = p } in
    let c = closed_state s0 p fd f q in
    let a : Message = record m { type = syscall_ret; m3i1 = 0 } in
    let s' : Fs = record c { fs_msg = a; outbox = (p, a) ∷ s.outbox } in
    let reply : ℕ → Code Fs ℕ = λ r. set_retval r >> pure p in
    let run = >>=-done do_close reply (do_close-closed s0 f q entry inode used) in
    let round = >>=-done (served driver close_type p) answer {s = s0} run in
    (
      s',
      >>=-done (ask_fs driver p task_fs m) (λ (r : Message). pure r.m3i1) {s = s}
          (>>=-done (fs_round driver m) (λ _. get >>= λ (z : Fs). pure z.fs_msg) {s = s} round),
      tables-Closed s s' p fd f q refl refl refl inode some_fd few used,
    )
