-- ===== src/Ioqueue/Tests.antt =====
-- The ring's theorems on the sample port.
use os_elephant.Base.{ℕ, ◌≡◌, true, not, ◌||◌, [], ◌∷◌, ◌==◌, if◌then◌else◌, some, ok, is_nil}
use os_elephant.Thread.{ready}
use os_elephant.Thread.Queue.{status}
use os_elephant.Ioqueue.{Port, ioq_getchar, ioq_putchar}
use os_elephant.Ioqueue.Refine.{IsPort, has_room, ioq_getchar-IsPort, ioq_putchar-IsPort}
use os_elephant.Ioqueue.Samples.{sample_port, sample_port-IsPort}

ioq_getchar-IsPort_example :
    (next : Port) × (ioq_getchar sample_port ≡ ok (some 65, next))
    × IsPort next []
    × ((t : ℕ)
        → status next.kernel t ≡ (
            if is_nil {A = ℕ} (65 ∷ [])
              || (sample_port.queue.producer == 0)
              || not (t == sample_port.queue.producer)
            then status sample_port.kernel t
            else ready))
ioq_getchar-IsPort_example = ioq_getchar-IsPort (65 ∷ []) sample_port-IsPort

ioq_putchar-IsPort_example :
    (next : Port) × (ioq_putchar 66 sample_port ≡ ok (true, next))
    × IsPort next (65 ∷ 66 ∷ [])
    × ((t : ℕ)
        → status next.kernel t ≡ (
            if not (has_room (65 ∷ []))
              || (sample_port.queue.consumer == 0)
              || not (t == sample_port.queue.consumer)
            then status sample_port.kernel t
            else ready))
ioq_putchar-IsPort_example = ioq_putchar-IsPort 66 sample_port-IsPort
