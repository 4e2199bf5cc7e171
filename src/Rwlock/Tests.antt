-- ===== src/Rwlock/Tests.antt =====
-- Two CPUs at a reader-writer lock: CPU 0 has it for writing, CPU 1 waits to read.
use aco_os.Base.{ℕ, ◌≡◌, ◌≢◌, refl, update, arith}
use aco_os.Rwlock.{
  idle, reading, writing, w_wait, r_wait, rwlock_init, advance, System, asks_r, asks_w, advances,
  Reach, start, later,
}
use aco_os.Base.Count.{count}
use aco_os.Rwlock.Exclusion.{
  counts_reader, counts_writer, Reach-writing, Reach-no_reader, Reach-readers,
}

unfoldable next : ℕ → System → System
unfolding advance
next i s = record {
  mem = (advance (s.phase i) s.mem).0;
  phase = update s.phase i (advance (s.phase i) s.mem).1;
}

asked : System
asked = record { mem = rwlock_init; phase = update (λ i. idle) 0 w_wait }

held : System
held = next 0 (next 0 (next 0 (next 0 (next 0 asked))))

waits : System
unfolding held asked next
waits = record held { phase = update held.phase 1 r_wait }

waits-Reach : Reach 2 waits
unfolding waits held asked next advance
waits-Reach =
    later
      (later
        (later
          (later
            (later (later (later start (asks_w 0 (omega arith) refl)) (advances 0 (omega arith)))
              (advances 0 (omega arith)))
            (advances 0 (omega arith)))
          (advances 0 (omega arith)))
        (advances 0 (omega arith)))
      (asks_r 1 (omega arith) refl)

writes : waits.phase 0 ≡ writing
unfolding waits held asked next advance
writes = refl

Reach-writing_example : ◌≡◌ {A = ℕ} 0 0
Reach-writing_example =
    Reach-writing 2 waits 0 0 (omega arith) waits-Reach (omega arith) (omega arith) writes writes

Reach-no_reader_example : waits.phase 1 ≢ reading
Reach-no_reader_example =
    Reach-no_reader 2 waits 0 1 (omega arith) waits-Reach (omega arith) (omega arith) writes

Reach-readers_example :
    (waits.mem.readers ≡ count counts_reader 2 waits.phase)
    × (waits.mem.writers ≡ count counts_writer 2 waits.phase)
Reach-readers_example = Reach-readers 2 waits (omega arith) waits-Reach
