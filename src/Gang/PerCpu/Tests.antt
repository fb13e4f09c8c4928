-- ===== src/Gang/PerCpu/Tests.antt =====
-- Sixteen threads, two processors and eight chunks.
use network_demo.Base.{ℕ, ◌+◌, ◌/◌, ◌%◌, ◌≡◌, ◌≢◌, ◌<◌, ◌≤◌, length, arith}
use network_demo.Gang.Partition.{nothing, dispatch, cut}
use network_demo.Gang.Partition.Laws.{Tiles, Balanced}
use network_demo.Gang.PerCpu.{submitted, aborts, submit_per_cpu}
use network_demo.Gang.PerCpu.Laws.{copies, workers, submit_per_cpu_lem}

abbrev threads : ℕ
threads = 16

abbrev end_of_range : ℕ
end_of_range = 80

submit_per_cpu_lem_example :
    (end_of_range ≡ 0 → submit_per_cpu threads 2 end_of_range 10 ≡ submitted nothing)
    × (threads < 2 → submit_per_cpu threads 2 end_of_range 10 ≡ submitted nothing)
    × (workers threads 2 end_of_range 10 % 2 ≢ 0
        → submit_per_cpu threads 2 end_of_range 10 ≡ aborts)
    × (0 < end_of_range
        → 2 ≤ threads
        → workers threads 2 end_of_range 10 % 2 ≡ 0
        → (submit_per_cpu threads 2 end_of_range 10
            ≡ submitted (
                dispatch
                  (workers threads 2 end_of_range 10)
                  (copies 2 (cut 0 end_of_range (workers threads 2 end_of_range 10)))))
          × (0 < workers threads 2 end_of_range 10)
          × (length (cut 0 end_of_range (workers threads 2 end_of_range 10))
              ≡ workers threads 2 end_of_range 10)
          × Tiles 0 (cut 0 end_of_range (workers threads 2 end_of_range 10)) (0 + end_of_range)
          × Balanced
              (end_of_range / workers threads 2 end_of_range 10)
              (cut 0 end_of_range (workers threads 2 end_of_range 10)))
submit_per_cpu_lem_example =
    submit_per_cpu_lem threads 2 end_of_range 10 (omega arith) (omega arith) (omega arith)
