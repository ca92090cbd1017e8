-- ===== src/Sys/Open.antt =====
-- A file opened for reading and closed again.
use native.Mathlib.Decide.{ℕ_discrete}
use os_elephant.Base.{
  ℕ, ◌+◌, ◌-◌, ◌%◌, ◌^◌, ◌<◌, ◌≤◌, ◌≡◌, ◌≢◌, inl, inr, refl, sym, ap, ◌∙◌, subst, Bool, true, false,
  Option, none, some, ◌==◌, ltb, if◌then◌else◌, update, has, get_elem?, set, bit_and, ok, arith,
  Bool-cases,
}
use os_elephant.Fs.{Inode}
use os_elephant.Thread.{Kernel}
use os_elephant.Inode.{OpenInodes, inode_load, inode_open, inode_close}
use os_elephant.Inode.Cache.{IsCache, Opened, inode_open-Opened}
use os_elephant.FileTable.{get_free_slot_in_global_filetable, pcb_fd_install, fd_local2global}
use os_elephant.FileTable.Slots.{is_free, FirstFree, get_free_slot-FirstFree}
use os_elephant.FileTable.Descriptors.{
  fd_local2global-pcb_fd_install, get_elem-set_same, get_elem-set_other,
}
use os_elephant.Sys.{
  Sys, negative, set_write_deny, installed_file, open_at, file_open, file_close, clear_fd,
  sys_close,
}

-- The list and the counts after a close do not depend on `write_deny`.
inode_close-set_write_deny :
    (deny : Bool) (p : ℕ) (s : OpenInodes)
    → ((inode_close p (set_write_deny deny p s)).open_inodes ≡ (inode_close p s).open_inodes)
      × ((q : ℕ)
          → ((inode_close p (set_write_deny deny p s)).inodes q).inode_open_count
            ≡ ((inode_close p s).inodes q).inode_open_count)
unfolding inode_close
inode_close-set_write_deny deny p s =
    let self : (p == p) ≡ true = ground arith in
    elim (Bool-cases (((s.inodes p).inode_open_count + 2 ^ 32 - 1) % 2 ^ 32 == 0)) [
      | inl last ↦ rw (self, last) (refl, λ q. ground arith)
      | inr more ↦ rw (self, more) (refl, λ q. ground arith)
    ]

-- The descriptors after one of them is freed.
clear_fd-get_elem? :
    (k : Kernel) (fd j : ℕ) (w : Option ℕ)
    → get_elem? (k.tasks k.current).fd_table fd ≡ some w
    → get_elem? ((clear_fd fd k).tasks (clear_fd fd k).current).fd_table j
      ≡ (if j == fd then some none else get_elem? (k.tasks k.current).fd_table j)
clear_fd-get_elem? k fd j w h =
    let self : (k.current == k.current) ≡ true = ground arith in
    let fds = (k.tasks k.current).fd_table in
    rw self (elim (ℕ_discrete j fd) [
      | yes e ↦
          ground (arith, get_elem-set_same fds fd none w h, ap (get_elem? (set fds fd none)) e)
      | no ne ↦ ground (arith, get_elem-set_other fds fd none j ne)
    ])

-- What `file_open` for reading leaves, where its parts succeed.
file_open-lem :
    (s : Sys) (id flag new slot p local : ℕ) (opened : OpenInodes) (k : Kernel)
    → (bit_and flag 1 == 0) ≡ true
    → (bit_and flag 2 == 0) ≡ true
    → get_free_slot_in_global_filetable s.file_table ≡ some slot
    → inode_open s.volume.part id new (λ q. 0) s.volume.disk s.inodes ≡ ok (p, opened)
    → pcb_fd_install slot s.kernel ≡ ok (some local, k)
    → file_open id flag new s
      ≡ ok (
        some local,
        record s {
          kernel = k;
          file_table =
              update s.file_table slot (record { fd_pos = 0; fd_flag = flag; fd_inode = p });
          inodes = opened;
        },
      )
unfolding file_open open_at installed_file
file_open-lem s id flag new slot p local opened k r w free opens installs =
    rw (free, opens, r, w, installs) refl

sys_close-lem :
    (s : Sys) (fd g p : ℕ)
    → 2 < fd
    → fd < 2 ^ 31
    → fd_local2global fd s.kernel ≡ ok g
    → (s.file_table g).fd_inode ≡ p
    → p ≢ 0
    → sys_close fd s
      ≡ ok (
        some 0,
        record s {
          kernel = clear_fd fd s.kernel;
          file_table = update s.file_table g (record (s.file_table g) { fd_inode = 0 });
          inodes = inode_close p (set_write_deny false p s.inodes);
        },
      )
unfolding sys_close file_close
sys_close-lem s fd g p lo hi leads at filled =
    let positive : negative fd ≡ false = ground arith in
    let above : ltb 2 fd ≡ true = ground arith in
    let in_use : (p == 0) ≡ false = ground (arith, filled) in
    rw (positive, above, leads, at, in_use) refl

-- What a system has in common with itself after a file was opened and closed.
pub record Back (s after : Sys) : Type 0 where
  pub descriptors :
      (j : ℕ)
      → get_elem? (after.kernel.tasks after.kernel.current).fd_table j
        ≡ get_elem? (s.kernel.tasks s.kernel.current).fd_table j
  pub slots : (g : ℕ) → is_free after.file_table g ≡ is_free s.file_table g
  pub open_inodes : after.inodes.open_inodes ≡ s.inodes.open_inodes
  pub counts :
      (q : ℕ)
      → has q s.inodes.open_inodes ≡ true
      → (after.inodes.inodes q).inode_open_count ≡ (s.inodes.inodes q).inode_open_count

-- An opened file, with its descriptor and slot, is closed.
closes :
    (s : Sys) (id flag new slot p local : ℕ) (opened : OpenInodes) (k : Kernel)
    → Opened s.inodes id new p opened
    → p ≢ 0
    → is_free s.file_table slot ≡ true
    → 3 ≤ local
    → local < 8
    → get_elem? (s.kernel.tasks s.kernel.current).fd_table local ≡ some none
    → fd_local2global local k ≡ ok slot
    → ((j : ℕ)
        → get_elem? (k.tasks k.current).fd_table j ≡ (
            if j == local
            then some (some slot)
            else get_elem? (s.kernel.tasks s.kernel.current).fd_table j))
    → (after : Sys) × (sys_close local (record s {
      kernel = k;
      file_table = update s.file_table slot (record { fd_pos = 0; fd_flag = flag; fd_inode = p });
      inodes = opened;
    })
        ≡ ok (some 0, after))
      × Back s after
closes s id flag new slot p local opened k o filled was_free from to fd_free leads fds =
    let self : (slot == slot) ≡ true = ground arith in
    let mine : (local == local) ≡ true = ground arith in
    let between : Sys = record s {
      kernel = k;
      file_table = update s.file_table slot (record { fd_pos = 0; fd_flag = flag; fd_inode = p });
      inodes = opened;
    } in
    let at : (between.file_table slot).fd_inode ≡ p = rw self refl in
    let in_table : get_elem? (k.tasks k.current).fd_table local ≡ some (some slot) =
      fds local ∙ rw mine refl in
    let (same_list, same_counts) = inode_close-set_write_deny false p opened in
    (
      _,
      sys_close-lem between local slot p (omega arith) (omega arith) leads at filled,
      record {
        descriptors = λ j.
            clear_fd-get_elem? k local j (some slot) in_table ∙ elim (ℕ_discrete j local) [
              | yes e ↦
                  ground
                    (arith, fd_free, ap (get_elem? (s.kernel.tasks s.kernel.current).fd_table) e)
              | no ne ↦ ground (arith, fds j)
            ];
        slots = λ g. ground (arith, was_free, filled);
        open_inodes = same_list ∙ o.list_back;
        counts = λ q h. same_counts q ∙ ap (λ n. n.inode_open_count) (o.inodes_back q h);
      },
    )

-- With a free slot in the file table and a free descriptor of the process from 3 to 7, in a cache
-- of inodes whose counts have room, with no inode at NULL and an address for a new inode that is
-- not NULL and not in use, and with a disk that holds the inode under its number: `file_open`
-- without a flag for writing returns a descriptor and `sys_close` of it then returns 0, with all
-- descriptors, the free slots, the list of open inodes and their counts as they were.
pub sys_close-file_open :
    (s : Sys) (id flag new slot i : ℕ) (inode : Inode)
    → (bit_and flag 1 == 0) ≡ true
    → (bit_and flag 2 == 0) ≡ true
    → get_free_slot_in_global_filetable s.file_table ≡ some slot
    → 3 ≤ i
    → i < 8
    → get_elem? (s.kernel.tasks s.kernel.current).fd_table i ≡ some none
    → IsCache s.inodes
    → ((p : ℕ)
        → has p s.inodes.open_inodes ≡ true
        → (s.inodes.inodes p).inode_open_count + 1 < 2 ^ 32)
    → has new s.inodes.open_inodes ≡ false
    → has 0 s.inodes.open_inodes ≡ false
    → new ≢ 0
    → inode_load s.volume.part id (λ q. 0) s.volume.disk ≡ ok inode
    → inode.inode_id ≡ id
    → (fd : ℕ) × (between after : Sys) × (file_open id flag new s ≡ ok (some fd, between))
      × (sys_close fd between ≡ ok (some 0, after))
      × Back s after
sys_close-file_open s id flag new slot i inode r w free lo hi fd_free cache room fresh no_null
      new_ok load number =
    let (p, opened, opens, o) =
      inode_open-Opened s.volume.part id new (λ q. 0) s.volume.disk s.inodes inode cache room fresh
        load number in
    let first = subst (FirstFree s.file_table 3 32) free (get_free_slot-FirstFree s.file_table) in
    let (local, k, installs, from, to, was_free, leads, fds) =
      fd_local2global-pcb_fd_install s.kernel slot i first.1 lo hi fd_free in
    let filled : p ≢ 0 = elim o.which [
      | inl is_new ↦ λ e. new_ok (sym is_new ∙ e)
      | inr member ↦
          λ e. ground (arith, no_null, subst (λ q. has q s.inodes.open_inodes ≡ true) e member)
    ] in
    let (after, runs, back) =
      closes s id flag new slot p local opened k o filled first.2 from to was_free leads fds in
    (
      local,
      _,
      after,
      file_open-lem s id flag new slot p local opened k r w free opens installs,
      runs,
      back,
    )
