-- ===== src/Monitor/Cpu.antt =====
-- GetProcessCPU and GetMemoryUsageMB (MMO/Server/Observability/ServerMonitor.h). What GetProcessTimes,
-- GetProcessMemoryInfo and GetSystemInfo report is an argument, `none` if the call failed.
use mmorpg_server.Base.{
  ℕ, ◌+◌, ◌-◌, ◌*◌, ◌%◌, ◌^◌, ◌≤◌, ◌<◌, ◌≡◌, refl, true, false, Option, none, some, arith, ltb,
  ◌==◌, if◌then◌else◌,
}
use mmorpg_server.Base.Int.{pos}
use mmorpg_server.Platform.{Platform}

-- `(float)n` of a 64-bit number, and the operations on floats.
pub record CpuFloats (P : Platform) : Type 0 where
  pub of_word : ℕ → P.Float
  pub div : P.Float → P.Float → P.Float
  pub mul : P.Float → P.Float → P.Float

-- _lastKernel, _lastUser and _lastCpuTime.
pub record CpuState : Type 0 where
  pub last_kernel : ℕ
  pub last_user : ℕ
  pub last_cpu_time : ℕ

pub record ProcessTimes : Type 0 where
  pub kernel : ℕ
  pub user : ℕ

-- Subtraction of 64-bit numbers.
unfoldable pub sub_word : ℕ → ℕ → ℕ
sub_word a b = (a + 2 ^ 64 - b) % 2 ^ 64

unfoldable pub cpu_diff : ProcessTimes → CpuState → ℕ
unfolding sub_word
cpu_diff t st = (sub_word t.kernel st.last_kernel + sub_word t.user st.last_user) % 2 ^ 64

-- Milliseconds, in units of 100 ns.
unfoldable pub time_diff : ℕ → CpuState → ℕ
unfolding sub_word
time_diff now st = sub_word now st.last_cpu_time * 10000 % 2 ^ 64

module _ (P : Platform) (N : CpuFloats P) where
  -- min(usage, 100.0f), which is a macro.
  unfoldable pub at_most_100 : P.Float → P.Float
  at_most_100 usage = if P.lt usage (P.of_int (pos 100)) then usage else P.of_int (pos 100)

  unfoldable pub usage_of : ℕ → ℕ → ℕ → P.Float
  usage_of cpu time cores =
      N.div (N.mul (N.div (N.of_word cpu) (N.of_word time)) (P.of_int (pos 100)))
        (P.of_int (pos cores))

  unfoldable pub get_process_cpu : Option ProcessTimes → ℕ → ℕ → CpuState → P.Float × CpuState
  unfolding cpu_diff time_diff at_most_100 usage_of
  get_process_cpu none now cores st = (P.of_int (pos 0), st)
  get_process_cpu (some t) now cores st =
      let after : CpuState = record {
        last_kernel = t.kernel;
        last_user = t.user;
        last_cpu_time = now;
      } in
      let time = time_diff now st in
      let usage = if ltb 0 time then usage_of (cpu_diff t st) time cores else P.of_int (pos 0) in
      if st.last_cpu_time == 0 then (P.of_int (pos 0), after) else (at_most_100 usage, after)

  unfoldable pub get_memory_usage_mb : Option ℕ → P.Float
  get_memory_usage_mb none = P.of_int (pos 0)
  get_memory_usage_mb (some private_usage) =
      N.div (N.of_word private_usage) (N.mul (P.of_int (pos 1024)) (P.of_int (pos 1024)))

  sub_word-exact : (a b : ℕ) → b ≤ a → a - b < 2 ^ 64 → sub_word (a % 2 ^ 64) (b % 2 ^ 64) ≡ a - b
  unfolding sub_word
  sub_word-exact a b le lt = omega arith

  -- The clocks as 64-bit numbers: what they show of the true times.
  abbrev pub shown_state : ℕ → ℕ → ℕ → CpuState
  shown_state kernel user time = record {
    last_kernel = kernel % 2 ^ 64;
    last_user = user % 2 ^ 64;
    last_cpu_time = time % 2 ^ 64;
  }

  cpu_diff-exact :
      (kernel kernel' user user' time : ℕ)
      → kernel ≤ kernel'
      → user ≤ user'
      → (kernel' - kernel) + (user' - user) < 2 ^ 64
      → cpu_diff
          (record { kernel = kernel' % 2 ^ 64; user = user' % 2 ^ 64 })
          (shown_state kernel user time)
        ≡ (kernel' - kernel) + (user' - user)
  unfolding cpu_diff
  cpu_diff-exact kernel kernel' user user' time kle ule fits =
      rw
        (
          sub_word-exact kernel' kernel kle (omega (arith, fits)),
          sub_word-exact user' user ule (omega (arith, fits)),
        )
        (omega (arith, fits))

  time_diff-exact :
      (kernel user time time' : ℕ)
      → time ≤ time'
      → (time' - time) * 10000 < 2 ^ 64
      → time_diff (time' % 2 ^ 64) (shown_state kernel user time) ≡ (time' - time) * 10000
  unfolding time_diff
  time_diff-exact kernel user time time' le fits =
      rw (sub_word-exact time' time le (omega (arith, fits))) (omega (arith, fits))

  -- The clocks are 64 bits wide, and may wrap between two calls of GetProcessCPU: if the time between the
  -- calls is not zero and fits 64 bits, as does the processor time, and the first call's clock was not 0,
  -- the second call gives the share of the true processor time in the true time, over the cores, and at
  -- most 100. It leaves the clocks of its call for the next.
  pub get_process_cpu_exact :
      (kernel kernel' user user' time time' cores : ℕ)
      → kernel ≤ kernel'
      → user ≤ user'
      → time < time'
      → (kernel' - kernel) + (user' - user) < 2 ^ 64
      → (time' - time) * 10000 < 2 ^ 64
      → (time % 2 ^ 64 == 0) ≡ false
      → get_process_cpu
          (some (record { kernel = kernel' % 2 ^ 64; user = user' % 2 ^ 64 }))
          (time' % 2 ^ 64)
          cores
          (shown_state kernel user time)
        ≡ (
          at_most_100
              (usage_of ((kernel' - kernel) + (user' - user)) ((time' - time) * 10000) cores),
          shown_state kernel' user' time',
        )
  unfolding get_process_cpu
  get_process_cpu_exact kernel kernel' user user' time time' cores kle ule tlt cpu_fits time_fits
        on =
      let st = shown_state kernel user time in
      let cpu : cpu_diff (record { kernel = kernel' % 2 ^ 64; user = user' % 2 ^ 64 }) st
          ≡ (kernel' - kernel) + (user' - user) =
        cpu_diff-exact kernel kernel' user user' time kle ule cpu_fits in
      let ms : time_diff (time' % 2 ^ 64) st ≡ (time' - time) * 10000 =
        time_diff-exact kernel user time time' (omega (arith, tlt)) time_fits in
      let some_time : ltb 0 ((time' - time) * 10000) ≡ true = ground (arith, tlt) in
      rw (on, cpu, ms, some_time) refl
