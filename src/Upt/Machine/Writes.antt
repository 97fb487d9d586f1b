-- ===== src/Upt/Machine/Writes.antt =====
-- How many writes the serial writer has on their way.
use linux_pbs.Base.{
  ℕ, zero, suc, ◌+◌, ◌≤◌, ◌-◌, ◌<◌, ◌≡◌, ◌≢◌, refl, Bool, true, false, ◌||◌, List, [], ◌∷◌, ◌++◌,
  arith, if◌then◌else◌, if-both, if-by,
}
use linux_pbs.Upt.Machine.State.{Machine, process_event}
use linux_pbs.Upt.Machine.Writer.{
  Outcome, done, aborted, failed, start_write, enqueue_write, write_end, delay_end,
  stop_serial_write_delay_timer,
}

-- `late` counts the delay waits that ended, but not with an abort, while an async_write had not
-- completed. Each may add one write to the one that a write in progress has, if it does not wait for
-- the delay.
pub record IsWriting (late : ℕ) (stops busy delayed : Bool) (queue : List (List ℕ))
    (outstanding : ℕ) : Type 0 where
  pub running : stops ≡ false
  pub front_kept : busy ≡ true → queue ≢ []
  pub few_writes : outstanding + (if delayed then 1 else 0) ≤ (if busy then 1 else 0) + late

abbrev pub Writes : ℕ → Machine → Type 0
Writes late m =
    IsWriting late m.stopping m.write_in_progress m.write_delay_active m.write_queue
      m.writes_outstanding

-- One more, where the delay's wait ends during a write.
abbrev pub late_after : Outcome → ℕ → ℕ → ℕ
late_after aborted outstanding late = late
late_after _ zero late = late
late_after _ (suc n) late = late + 1

start_write-Writes :
    (late : ℕ) (m : Machine)
    → m.stopping ≡ false
    → m.writes_outstanding ≤ late
    → m.write_delay_active ≡ false
    → Writes late (start_write m)
unfolding start_write
start_write-Writes late m r e d = record {
  running = ground arith;
  front_kept = ground arith;
  few_writes = ground arith;
}

-- The same where no write is in progress, with a delay that was orphaned.
free_write-Writes :
    (late : ℕ) (m : Machine)
    → m.write_in_progress ≡ false
    → Writes late m
    → Writes late (start_write m)
unfolding start_write
free_write-Writes late m e v = record {
  running = ground arith;
  front_kept = ground arith;
  few_writes = ground arith;
}

append_some : (xs : List (List ℕ)) (x : List ℕ) → xs ++ x ∷ [] ≢ []
append_some [] x e = ground arith
append_some (y ∷ xs) x e = ground arith

queued-Writes :
    (late : ℕ) (m : Machine) (bytes : List ℕ)
    → Writes late m
    → Writes late (record m { write_queue = m.write_queue ++ bytes ∷ [] })
queued-Writes late m bytes v = record {
  running = v.running;
  front_kept = λ _. append_some m.write_queue bytes;
  few_writes = v.few_writes;
}

pub enqueue_write-Writes :
    (late : ℕ) (bytes : List ℕ) (m : Machine) → Writes late m → Writes late (enqueue_write bytes m)
unfolding enqueue_write
enqueue_write-Writes late bytes m v =
    let more = queued-Writes late m bytes v in
    if-both (Writes late) (m.stopping || _) v (
      if-by (Writes late) m.write_in_progress (λ _. more)
        λ ready.
          free_write-Writes late (record m { write_queue = m.write_queue ++ bytes ∷ [] }) ready
            more)

pub write_end-Writes :
    (late : ℕ) (o : Outcome) (m : Machine)
    → 0 < m.writes_outstanding
    → Writes late m
    → Writes late (write_end o (record m { writes_outstanding = m.writes_outstanding - 1 }))
unfolding write_end process_event
write_end-Writes late o m e v = record {
  running = ground arith;
  front_kept = ground arith;
  few_writes = ground arith;
}

pub stop_serial_write_delay_timer-Writes :
    (late : ℕ) (m : Machine) → Writes late m → Writes late (stop_serial_write_delay_timer m)
unfolding stop_serial_write_delay_timer
stop_serial_write_delay_timer-Writes late m v = record {
  running = ground arith;
  front_kept = ground arith;
  few_writes = ground arith;
}

-- A late end is counted.
late_enough :
    (busy delayed : Bool) (outstanding late : ℕ)
    → outstanding + (if delayed then 1 else 0) ≤ (if busy then 1 else 0) + late
    → (outstanding ≤ late_after done outstanding late)
      × (outstanding ≤ late_after failed outstanding late)
late_enough busy delayed zero late h = (omega arith, omega arith)
late_enough busy delayed (suc n) late h = (ground arith, ground arith)

pub delay_end-Writes :
    (late : ℕ) (o : Outcome) (m : Machine)
    → Writes late m
    → Writes (late_after o m.writes_outstanding late) (delay_end o m)
unfolding delay_end process_event
delay_end-Writes late done m v =
    if-by (Writes (late_after done m.writes_outstanding late)) m.stopping
      (λ stops. absurd (ground arith))
      λ _.
        start_write-Writes (late_after done m.writes_outstanding late)
          (record m { write_delay_active = false }) v.running
          (late_enough m.write_in_progress m.write_delay_active m.writes_outstanding late
            v.few_writes).0
          refl
delay_end-Writes late aborted m v = record {
  running = ground arith;
  front_kept = ground arith;
  few_writes = ground arith;
}
delay_end-Writes late failed m v = record {
  running = ground arith;
  front_kept = ground arith;
  few_writes = ground (
    arith,
    v.running,
    late_enough m.write_in_progress m.write_delay_active m.writes_outstanding late v.few_writes,
  );
}
