-- ===== src/Ioqueue/Samples.antt =====
-- A port for tests: its ring holds one byte, in the last place of the buffer; thread 16384 waits
-- to put a byte and none to get one.
use os_elephant.Base.{◌≡◌, refl, [], ◌∷◌, ◌==◌, if◌then◌else◌, arith}
use os_elephant.Thread.Samples.{sample, sample-IsScheduled}
use os_elephant.Sync.{lock_init}
use os_elephant.Ioqueue.{Port}
use os_elephant.Ioqueue.Fifo.{Holds}
use os_elephant.Ioqueue.Refine.{IsPort}

abbrev pub sample_port : Port
sample_port = record {
  kernel = sample;
  queue = record {
    lock = lock_init;
    producer = 16384;
    consumer = 0;
    buf = λ i. if i == 63 then 65 else 0;
    head = 0;
    tail = 63;
  };
}

sample_port-Holds : Holds sample_port.queue (65 ∷ [])
sample_port-Holds = record {
  tail_bound = omega arith;
  room = omega arith;
  head_at = refl;
  byte_at = λ i lt. let e : i ≡ 0 = omega arith in rw e refl;
}

pub sample_port-IsPort : IsPort sample_port (65 ∷ [])
sample_port-IsPort = record {
  off = refl;
  sched = sample-IsScheduled;
  holds = sample_port-Holds;
  producer = λ ne. refl;
  consumer = λ ne. absurd (ne refl);
  apart = λ ne e. ne e;
}
