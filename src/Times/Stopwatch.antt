-- ===== src/Times/Stopwatch.antt =====
-- The stopwatch of libpcapcapture/util.h.
use ip_ndn_stack_cpp.Prelude.{ℕ, ◌+◌, ◌*◌, ◌<◌, ◌≡◌, arith}
use ip_ndn_stack_cpp.Word.{u64_mod}
use ip_ndn_stack_cpp.Times.{Timeval, now_us, stopwatch_start, stopwatch_stop}

-- A stopwatch gives the microseconds between its start and its end, if these are fewer than 2^64,
-- whatever the clock is and even where it wraps around.
pub stopwatch_stop-stopwatch_start :
    (start end : Timeval) (elapsed : ℕ)
    → end.tv_sec * 1000000 + end.tv_usec ≡ start.tv_sec * 1000000 + start.tv_usec + elapsed
    → elapsed < u64_mod
    → stopwatch_stop end (stopwatch_start start) ≡ elapsed
unfolding stopwatch_stop stopwatch_start now_us
stopwatch_stop-stopwatch_start start end elapsed e lt = omega (arith, e)
