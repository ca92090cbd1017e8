-- ===== src/Thread.antt =====
-- thread/c14c_thread.c and thread/thread.h, with the timer interrupt of device/c13c_timer.c and
-- `process_activate` of user/c12e_process.c. A thread is named by the address of its PCB. The lists
-- of list_elem are sequences here: LinkedList.Deque and LinkedList.Walk show that lib/list.c's
-- operations are those of sequences. A switch of threads ends the command with another `current`;
-- what a thread does when it is switched to again is another command.
pub mod Queue
pub mod Schedule
pub mod Switch
pub mod Others
pub mod Rounds
pub mod Samples
mod Tests
use os_elephant.Base.Command.{and_then, pure, ◌>>=◌, ◌>>◌, assert, modify}
use os_elephant.Base.{
  ℕ, ◌+◌, ◌-◌, ◌*◌, ◌%◌, ◌^◌, Bool, true, false, not, Option, none, some, List, [], ◌∷◌, ◌++◌, ◌==◌,
  if◌then◌else◌, has, is_nil, update, Outcome, ok, panic,
}

pub data TaskStatus : Type 0 where
  running ready blocked waiting hanging died : TaskStatus

abbrev pub is_running : TaskStatus → Bool
is_running running = true
is_running _ = false

abbrev pub is_ready : TaskStatus → Bool
is_ready ready = true
is_ready _ = false

-- TASK_BLOCKED, TASK_WAITING and TASK_HANGING: not to be scheduled.
abbrev pub is_asleep : TaskStatus → Bool
is_asleep blocked = true
is_asleep waiting = true
is_asleep hanging = true
is_asleep _ = false

-- `struct task_struct`, without the list nodes, the address space and the heap.
pub record Pcb : Type 0 where
  pub self_kstack : ℕ
  pub pid : ℕ
  pub status : TaskStatus
  pub priority : ℕ
  pub name : List ℕ
  pub ticks : ℕ
  pub elapsed_ticks : ℕ
  pub fd_table : List (Option ℕ)
  pub pgdir : ℕ
  pub current_work_dir_inode_id : ℕ
  pub stack_magic : ℕ

-- The globals of the scheduler, the timer's count, and the registers that a switch sets. `v2p` is
-- what `addr_v2p` answers in the current page tables (Paging).
pub record Kernel : Type 0 where
  pub tasks : ℕ → Pcb
  pub current : ℕ
  pub main_thread : ℕ
  pub idle_thread : ℕ
  pub ready_list : List ℕ
  pub all_list : List ℕ
  pub next_pid : ℕ
  pub uptime : ℕ
  pub interrupts : Bool
  pub v2p : ℕ → ℕ
  pub cr3 : ℕ
  pub esp0 : ℕ

abbrev pub Cmd : Type 0 → Type 0
Cmd A = Kernel → Outcome (A × Kernel)

abbrev pub page_size : ℕ
page_size = 4096

abbrev pub stack_magic_value : ℕ
stack_magic_value = 0x19870916

abbrev pub set_task : ℕ → Pcb → Kernel → Kernel
set_task t p k = record k { tasks = update k.tasks t p }

abbrev pub set_status : ℕ → TaskStatus → Kernel → Kernel
set_status t s k = set_task t (record (k.tasks t) { status = s }) k

abbrev pub intr_disable : Cmd Bool
intr_disable k = ok (k.interrupts, record k { interrupts = false })

abbrev pub intr_set_status : Bool → Cmd (Unit {0})
intr_set_status s k = ok (tt, record k { interrupts = s })

-- `next_pid` is a `signed short int`, read as its bit pattern. The lock around it is not taken
-- here: the two steps are one.
unfoldable pub allocate_pid : Cmd ℕ
allocate_pid k = let pid = (k.next_pid + 1) % 2 ^ 16 in ok (pid, record k { next_pid = pid })

-- The descriptors of a new thread: standard input, output and error, and five that are free.
abbrev pub initial_fds : List (Option ℕ)
initial_fds = some 0 ∷ some 1 ∷ some 2 ∷ none ∷ none ∷ none ∷ none ∷ none ∷ []

unfoldable pub init_thread : ℕ → List ℕ → ℕ → Cmd (Unit {0})
unfolding allocate_pid
init_thread pthread name priority = do
  pid ← allocate_pid
  modify λ k.
      set_task pthread
        (record {
          self_kstack = (pthread + page_size) % 2 ^ 32;
          pid = pid;
          status = if pthread == k.main_thread then running else ready;
          priority = priority % 256;
          name = name;
          ticks = priority % 256;
          elapsed_ticks = 0;
          fd_table = initial_fds;
          pgdir = 0;
          current_work_dir_inode_id = 0;
          stack_magic = stack_magic_value;
        })
        k

-- The thread's two appearances in the queues, at the end of `thread_start` and `process_execute`.
pub enqueue : ℕ → Cmd (Unit {0})
enqueue thread = do
  assert λ k. not (has thread k.ready_list)
  modify λ k. record k { ready_list = k.ready_list ++ thread ∷ [] }
  assert λ k. not (has thread k.all_list)
  modify λ k. record k { all_list = k.all_list ++ thread ∷ [] }

unfoldable pub page_dir_activate : ℕ → Kernel → Kernel
page_dir_activate pthread k =
    let p = k.tasks pthread in
    record k { cr3 = if not (p.pgdir == 0) then k.v2p p.pgdir else 0x100000 }

unfoldable pub process_activate : ℕ → Cmd (Unit {0})
unfolding page_dir_activate
process_activate pthread = do
  assert λ k. not (pthread == 0)
  modify (page_dir_activate pthread)
  modify λ k.
      if not ((k.tasks pthread).pgdir == 0)
      then record k { esp0 = (pthread + page_size) % 2 ^ 32 }
      else k

unfoldable pub thread_unblock : ℕ → Cmd (Unit {0})
thread_unblock pthread = do
  old_status ← intr_disable
  assert λ k. is_asleep (k.tasks pthread).status
  assert λ k. not (has pthread k.ready_list)
  modify λ k. set_status pthread ready (record k { ready_list = pthread ∷ k.ready_list })
  intr_set_status old_status

-- The first step of `schedule`: a thread whose time is up goes to the end of the queue.
pub requeue : Cmd (Unit {0})
requeue k =
    if is_running (k.tasks k.current).status
    then (if has k.current k.ready_list
        then panic
        else ok (
          tt,
          set_task k.current
              (record (k.tasks k.current) { ticks = (k.tasks k.current).priority; status = ready })
              (record k { ready_list = k.ready_list ++ k.current ∷ [] }),
        ))
    else ok (tt, k)

-- `switch_to`: from here on the processor runs `next`.
switch_to : ℕ → Cmd (Unit {0})
switch_to next = modify λ k. record k { current = next }

-- The last step: the first of the queue gets the processor.
pub dispatch : List ℕ → Cmd (Unit {0})
unfolding process_activate switch_to
dispatch [] = λ k. panic
dispatch (next ∷ rest) = do
  modify λ k. set_status next running (record k { ready_list = rest })
  process_activate next
  switch_to next

unfoldable pub schedule : Cmd (Unit {0})
schedule = do
  assert λ k. not k.interrupts
  requeue
  λ k. if is_nil k.ready_list then thread_unblock k.idle_thread k else ok (tt, k)
  λ k. dispatch k.ready_list k

-- `thread_block` up to the switch: the result is the interrupt flag that the thread sets back when
-- it runs again.
unfoldable pub thread_block : TaskStatus → Cmd Bool
thread_block stat = do
  assert λ k. is_asleep stat
  old_status ← intr_disable
  modify λ k. set_status k.current stat k
  schedule
  pure old_status

-- `thread_yield` up to the switch, likewise.
unfoldable pub thread_yield : Cmd Bool
thread_yield = do
  old_status ← intr_disable
  assert λ k. not (has k.current k.ready_list)
  modify λ k. set_status k.current ready (record k { ready_list = k.ready_list ++ k.current ∷ [] })
  schedule
  pure old_status

-- The end of the timer interrupt: the slice is over, or gets one tick shorter.
pub charge : Cmd (Unit {0})
charge k =
    if (k.tasks k.current).ticks == 0
    then schedule k
    else ok (
      tt,
      set_task k.current (record (k.tasks k.current) { ticks = (k.tasks k.current).ticks - 1 }) k,
    )

-- One timer interrupt; the processor clears the interrupt flag on the way in.
unfoldable pub intr_timer_handler : Cmd (Unit {0})
intr_timer_handler = do
  modify λ k. record k { interrupts = false }
  assert λ k. (k.tasks k.current).stack_magic == stack_magic_value
  modify λ k.
      set_task k.current
        (record (k.tasks k.current) {
          elapsed_ticks = ((k.tasks k.current).elapsed_ticks + 1) % 2 ^ 32;
        })
        k
  modify λ k. record k { uptime = (k.uptime + 1) % 2 ^ 32 }
  charge
