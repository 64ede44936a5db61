-- ===== src/Fs/Share/Counts.antt =====
-- fs_fork of fs/main.c counts the references of the child.
use dlos.Prelude.{
  ℕ, zero, suc, ◌+◌, ◌≡◌, refl, sym, true, false, ℕ_discrete, Option, none, some, ◌==◌,
  if◌then◌else◌, update, update_self, update_ne, arith, ap, ◌∙◌,
}
use dlos.Kernel.Proc.{done, pure, >>=-done}
use dlos.Fs.State.{Inode, FileDesc, Fs, nr_files, set_inode}
use dlos.Fs.Files.{with_some}
use dlos.Fs.Share.{share_file, fork_files, fs_fork}

abbrev pub points_to : Option ℕ → ℕ → ℕ
points_to none f = 0
points_to (some g) f = if g == f then 1 else 0

-- How many of `n` entries from entry `i` on point to descriptor `f`.
abbrev pub references : ℕ → ℕ → (ℕ → Option ℕ) → ℕ → ℕ
references zero i filp f = 0
references (suc n) i filp f = points_to (filp i) f + references n (i + 1) filp f

abbrev pub inode_of : (ℕ → Option ℕ) → Option ℕ → Option ℕ
inode_of inodes none = none
inode_of inodes (some f) = inodes f

-- How many point to a descriptor of inode `p`, where `inodes` are those of the descriptors.
abbrev pub inode_references : ℕ → ℕ → (ℕ → Option ℕ) → (ℕ → Option ℕ) → ℕ → ℕ
inode_references zero i filp inodes p = 0
inode_references (suc n) i filp inodes p =
    points_to (inode_of inodes (filp i)) p + inode_references n (i + 1) filp inodes p

-- Every descriptor that a process has is open.
abbrev pub AllOpen : (ℕ → Option ℕ) → (ℕ → Option ℕ) → Type 0
AllOpen filp inodes = (i f : ℕ) → filp i ≡ some f → (p : ℕ) × (inodes f ≡ some p)

abbrev pub fd_inodes : Fs → ℕ → Option ℕ
fd_inodes s f = (s.f_desc_table f).fd_inode

abbrev pub more_users : FileDesc → ℕ → FileDesc
more_users d n = record d { fd_cnt = d.fd_cnt + n }

abbrev pub more_references : Inode → ℕ → Inode
more_references p n = record p { i_cnt = p.i_cnt + n }

-- A count that goes up twice.
more_users-sum : (d : FileDesc) (a b : ℕ) → more_users (more_users d a) b ≡ more_users d (a + b)
more_users-sum d a b = ap (λ n. record d { fd_cnt = n }) (omega arith)

more_references-sum :
    (p : Inode) (a b : ℕ) → more_references (more_references p a) b ≡ more_references p (a + b)
more_references-sum p a b = ap (λ n. record p { i_cnt = n }) (omega arith)

more_users-none : (d : FileDesc) → d ≡ more_users d 0
more_users-none d = ap (λ n. record d { fd_cnt = n }) (omega arith)

more_references-none : (p : Inode) → p ≡ more_references p 0
more_references-none p = ap (λ n. record p { i_cnt = n }) (omega arith)

-- One user more for entry `i` of a table.
descriptor-one :
    (t : ℕ → FileDesc) (i j : ℕ)
    → update t i (more_users (t i) 1) j ≡ more_users (t j) (if i == j then 1 else 0)
descriptor-one t i j = elim (ℕ_discrete i j) [
  | yes here ↦
      let test : (i == j) ≡ true = ground (arith, here) in
      ap (update t i (more_users (t i) 1)) (sym here)
      ∙ update_self t i (more_users (t i) 1)
      ∙ ap (λ x. more_users (t x) 1) here
      ∙ ap (λ b. more_users (t j) (if b then 1 else 0)) (sym test)
  | no there ↦
      let test : (i == j) ≡ false = ground (arith, there) in
      update_ne t i j (more_users (t i) 1) there
      ∙ more_users-none (t j)
      ∙ ap (λ b. more_users (t j) (if b then 1 else 0)) (sym test)
]

inode-one :
    (t : ℕ → Inode) (i j : ℕ)
    → update t i (more_references (t i) 1) j ≡ more_references (t j) (if i == j then 1 else 0)
inode-one t i j = elim (ℕ_discrete i j) [
  | yes here ↦
      let test : (i == j) ≡ true = ground (arith, here) in
      ap (update t i (more_references (t i) 1)) (sym here)
      ∙ update_self t i (more_references (t i) 1)
      ∙ ap (λ x. more_references (t x) 1) here
      ∙ ap (λ b. more_references (t j) (if b then 1 else 0)) (sym test)
  | no there ↦
      let test : (i == j) ≡ false = ground (arith, there) in
      update_ne t i j (more_references (t i) 1) there
      ∙ more_references-none (t j)
      ∙ ap (λ b. more_references (t j) (if b then 1 else 0)) (sym test)
]

-- The counts went up by `refs` and `irefs`, and nothing else changed.
pub record Shared (s s' : Fs) (refs irefs : ℕ → ℕ) : Type 0 where
  pub rest : s' ≡ record s { f_desc_table = s'.f_desc_table; inode_table = s'.inode_table }
  pub descriptors : (f : ℕ) → s'.f_desc_table f ≡ more_users (s.f_desc_table f) (refs f)
  pub inodes : (p : ℕ) → s'.inode_table p ≡ more_references (s.inode_table p) (irefs p)

share_file-Shared :
    (o : Option ℕ) (s : Fs) (inodes : ℕ → Option ℕ)
    → ((f : ℕ) → fd_inodes s f ≡ inodes f)
    → ((f : ℕ) → o ≡ some f → (p : ℕ) × (inodes f ≡ some p))
    → (s' : Fs) × (share_file o s ≡ done tt s')
      × Shared s s' (points_to o) (points_to (inode_of inodes o))
unfolding share_file
share_file-Shared none s inodes same is_open = (
  s,
  refl,
  record {
    rest = refl;
    descriptors = λ f. more_users-none (s.f_desc_table f);
    inodes = λ p. more_references-none (s.inode_table p);
  },
)
share_file-Shared (some f) s inodes same is_open =
    let (p, e) = is_open f refl in
    let d : FileDesc = record (s.f_desc_table f) { fd_cnt = (s.f_desc_table f).fd_cnt + 1 } in
    let s0 : Fs = record s { f_desc_table = update s.f_desc_table f d } in
    let inode : (s0.f_desc_table f).fd_inode ≡ some p =
      ap (λ (x : FileDesc). x.fd_inode) (update_self s.f_desc_table f d) ∙ same f ∙ e in
    (
      record s0 {
        inode_table =
            update s0.inode_table p
              (record (s0.inode_table p) { i_cnt = (s0.inode_table p).i_cnt + 1 });
      },
      ap (λ o. with_some o (λ q. set_inode q λ r. record r { i_cnt = r.i_cnt + 1 }) s0) inode,
      record {
        rest = refl;
        descriptors = λ g. descriptor-one s.f_desc_table f g;
        inodes = λ q.
            inode-one s.inode_table p q
            ∙ ap (λ o. more_references (s.inode_table q) (points_to o q)) (sym e);
      },
    )

fork_files-Shared :
    (n i child : ℕ) (s : Fs) (filp inodes : ℕ → Option ℕ)
    → (s.kernel.proc_table child).filp ≡ filp
    → ((f : ℕ) → fd_inodes s f ≡ inodes f)
    → AllOpen filp inodes
    → (s' : Fs) × (fork_files n i child s ≡ done tt s')
      × Shared s s' (references n i filp) (inode_references n i filp inodes)
unfolding fork_files
fork_files-Shared zero i child s filp inodes e same v = (
  s,
  refl,
  record {
    rest = refl;
    descriptors = λ f. more_users-none (s.f_desc_table f);
    inodes = λ p. more_references-none (s.inode_table p);
  },
)
fork_files-Shared (suc n) i child s filp inodes e same v =
    let entry : (s.kernel.proc_table child).filp i ≡ filp i = ap (λ g. g i) e in
    let (s1, run1, d) = share_file-Shared (filp i) s inodes same (v i) in
    let filp1 : (s1.kernel.proc_table child).filp ≡ filp =
      ap (λ (x : Fs). (x.kernel.proc_table child).filp) d.rest ∙ e in
    let (s2, run2, d') =
      fork_files-Shared n (i + 1) child s1 filp inodes filp1
        (λ f. ap (λ (x : FileDesc). x.fd_inode) (d.descriptors f) ∙ same f) v in
    (
      s2,
      >>=-done (share_file ((s.kernel.proc_table child).filp i)) (λ _. fork_files n (i + 1) child)
            (ap (λ o. share_file o s) entry ∙ run1)
          ∙ run2,
      record {
        rest = cc (d.rest, d'.rest);
        descriptors = λ f.
            d'.descriptors f
            ∙ ap (λ x. more_users x (references n (i + 1) filp f)) (d.descriptors f)
            ∙ more_users-sum (s.f_desc_table f) (points_to (filp i) f)
                (references n (i + 1) filp f);
        inodes = λ p.
            d'.inodes p
            ∙ ap (λ x. more_references x (inode_references n (i + 1) filp inodes p)) (d.inodes p)
            ∙ more_references-sum (s.inode_table p) (points_to (inode_of inodes (filp i)) p)
                (inode_references n (i + 1) filp inodes p);
      },
    )

-- fs_fork for a child that has open files only: it returns 0; each descriptor's count grows by the
-- number of the child's entries that point to it, each inode's count by the number of those that
-- point to a descriptor of it, and nothing else changes.
pub fs_fork-Shared :
    (s : Fs)
    → AllOpen (s.kernel.proc_table s.fs_msg.m3i2).filp (fd_inodes s)
    → (s' : Fs) × (fs_fork s ≡ done 0 s')
      × Shared s s'
          (references nr_files 0 (s.kernel.proc_table s.fs_msg.m3i2).filp)
          (inode_references nr_files 0 (s.kernel.proc_table s.fs_msg.m3i2).filp (fd_inodes s))
unfolding fs_fork
fs_fork-Shared s v =
    let child = s.fs_msg.m3i2 in
    let filp = (s.kernel.proc_table child).filp in
    let (s', run, d) = fork_files-Shared nr_files 0 child s filp (fd_inodes s) refl (λ f. refl) v in
    (s', >>=-done (fork_files nr_files 0 child) (λ _. pure 0) run, d)
