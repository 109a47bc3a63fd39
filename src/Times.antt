-- ===== src/Times.antt =====
-- Broken-down times and stopwatches: libpcapcapture/ttime.cpp, dbl2time of libpcapcapture/packet.cpp and
-- the clock of libpcapcapture/util.h. The C library's calendar and the floating-point numbers are
-- parameters; times are not before 1970.
pub mod Stopwatch
use mathlib.Core.Option
use ip_ndn_stack_cpp.Prelude.{ℕ, ◌+◌, ◌-◌, ◌*◌, ◌/◌, ◌%◌, Option}
use ip_ndn_stack_cpp.Word.{u64_mod}

pub record Timeval : Type 0 where
  pub tv_sec : ℕ
  pub tv_usec : ℕ

-- `formal_time_t`.
pub record Time : Type 0 where
  pub year : ℕ
  pub month : ℕ
  pub day : ℕ
  pub hour : ℕ
  pub minute : ℕ
  pub sec : ℕ
  pub m_sec : ℕ

-- The fields of a `struct tm` that the source reads or sets.
pub record Tm : Type 0 where
  pub tm_year : ℕ
  pub tm_mon : ℕ
  pub tm_mday : ℕ
  pub tm_hour : ℕ
  pub tm_min : ℕ
  pub tm_sec : ℕ

-- `mktime` reads `tm_isdst` too, an int by its pattern.
pub record Calendar : Type 0 where
  pub localtime : ℕ → Tm
  pub mktime : ℕ → Tm → ℕ

-- Doubles; `to_int` is the conversion to int, which drops the fraction, and which is undefined, `none`,
-- where an int does not hold the rest; `to_long` is the same to a 64-bit integer, for values below one
-- million.
pub record Floating : Type 1 where
  pub Double : Type 0
  pub of_int : ℕ → Double
  pub to_int : Double → Option ℕ
  pub to_long : Double → ℕ
  pub add : Double → Double → Double
  pub sub : Double → Double → Double
  pub mul : Double → Double → Double
  pub div : Double → Double → Double

module _ (cal : Calendar) where
  unfoldable pub time_val_to_time : Timeval → Time
  time_val_to_time timess =
      let timetemp = cal.localtime timess.tv_sec in
      record {
        year = timetemp.tm_year + 1900;
        month = timetemp.tm_mon + 1;
        day = timetemp.tm_mday;
        hour = timetemp.tm_hour;
        minute = timetemp.tm_min;
        sec = timetemp.tm_sec;
        m_sec = timess.tv_usec / 1000;
      }

module _ (fl : Floating) where
  -- The fraction behind the whole seconds, as microseconds.
  abbrev pub timeval_of : fl.Double → ℕ → Timeval
  timeval_of time temp_time1 =
      let temp_time2 = fl.sub time (fl.of_int temp_time1) in
      record {
        tv_sec = temp_time1;
        tv_usec = fl.to_long (fl.mul (fl.mul temp_time2 (fl.of_int 1000)) (fl.of_int 1000));
      }

  -- `none` where the conversion to int is undefined.
  unfoldable pub dbl2time : fl.Double → Option Timeval
  dbl2time time = Option.map (timeval_of time) (fl.to_int time)

module _ (cal : Calendar) (fl : Floating) where
  unfoldable pub double_time_to_time : fl.Double → Option Time
  double_time_to_time times = Option.map (time_val_to_time cal) (dbl2time fl times)

  -- `unset` is what `tm_isdst` holds, which the source does not set.
  unfoldable pub time_to_double : ℕ → Time → fl.Double
  time_to_double unset timed =
      let t1 = cal.mktime unset (record {
        tm_year = timed.year;
        tm_mon = timed.month;
        tm_mday = timed.day;
        tm_hour = timed.hour;
        tm_min = timed.minute;
        tm_sec = timed.sec;
      }) in
      fl.add (fl.of_int t1) (fl.div (fl.of_int timed.m_sec) (fl.of_int 1000))

-- The clock in microseconds, for what gettimeofday gives.
unfoldable pub now_us : Timeval → ℕ
now_us tv = (tv.tv_sec * 1000000 + tv.tv_usec) % u64_mod

-- A stopwatch is the time of its start.
unfoldable pub stopwatch_start : Timeval → ℕ
stopwatch_start tv = now_us tv

unfoldable pub stopwatch_stop : Timeval → ℕ → ℕ
stopwatch_stop tv start = (now_us tv + (u64_mod - start)) % u64_mod
