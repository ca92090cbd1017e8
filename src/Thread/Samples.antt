-- ===== src/Thread/Samples.antt =====
-- A kernel with four threads, for tests: thread 4096 runs, 12288 is ready, 16384 waits, and 8192 is
-- the idle thread, blocked.
use os_elephant.Base.{ℕ, refl, false, [], ◌∷◌, ◌==◌, if◌then◌else◌, arith}
use os_elephant.Thread.{
  TaskStatus, running, ready, blocked, waiting, died, Pcb, Kernel, initial_fds, stack_magic_value,
}
use os_elephant.Thread.Queue.{IsScheduled}

abbrev pub sample_pcb : TaskStatus → Pcb
sample_pcb stat = record {
  self_kstack = 4096;
  pid = 1;
  status = stat;
  priority = 31;
  name = [];
  ticks = 0;
  elapsed_ticks = 7;
  fd_table = initial_fds;
  pgdir = 0;
  current_work_dir_inode_id = 0;
  stack_magic = stack_magic_value;
}

abbrev pub sample_status : ℕ → TaskStatus
sample_status t =
    if t == 4096
    then running
    else if t == 8192
    then blocked
    else if t == 12288
    then ready
    else if t == 16384
    then waiting
    else died

abbrev pub sample : Kernel
sample = record {
  tasks = λ t. sample_pcb (sample_status t);
  current = 4096;
  main_thread = 4096;
  idle_thread = 8192;
  ready_list = 12288 ∷ [];
  all_list = 4096 ∷ 8192 ∷ 12288 ∷ 16384 ∷ [];
  next_pid = 4;
  uptime = 0;
  interrupts = false;
  v2p = λ a. a;
  cr3 = 0x100000;
  esp0 = 0;
}

pub sample-IsScheduled : IsScheduled sample
sample-IsScheduled = record {
  consistent = record {
    queued = λ t. ground arith;
    distinct = (refl, tt);
    alone = λ t ne. ground arith;
    no_null = refl;
    idle = λ e. cc;
  };
  on = refl;
}
