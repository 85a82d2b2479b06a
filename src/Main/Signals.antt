-- ===== src/Main/Signals.antt =====
-- pkg/signals/signal.go: what the signals do to the process.
use crdmetrics.Prelude.{ℕ, ◌+◌, ◌≤◌, Bool, true, false, ◌≡◌, Result, ok, panic}

-- SetupSignalHandler, given whether `onlyOneSignalHandler` is closed: a second call closes it again,
-- which panics
unfoldable pub setup_signal_handler : Bool → Result Bool
setup_signal_handler false = ok true
setup_signal_handler true = panic

-- The life of the process once `Run` is called: it waits for its cache, with or without a signal that
-- came meanwhile; it serves; its context is cancelled while it serves; and its exit code at the end.
pub data Life : Type 0 where
  waiting : Life
  interrupted : Life
  serving : Life
  cancelled : Life
  crashed : Life
  exited : ℕ → Life

-- What a SIGTERM or SIGINT does, by the goroutine of `SetupSignalHandler`: the first cancels the
-- context, and the second exits with 1.
unfoldable pub on_signal : Life → Life
on_signal waiting = interrupted
on_signal interrupted = exited 1
on_signal serving = cancelled
on_signal cancelled = exited 1
on_signal crashed = crashed
on_signal (exited code) = exited code

-- in a life like this, some goroutine may panic
abbrev pub IsRunning : Life → Type 0
IsRunning crashed = ⊥
IsRunning (exited code) = ⊥
IsRunning _ = Unit

-- The lives of the process in which it gets so many signals. With a cancelled context the wait for the
-- cache may fail, for which `main` exits with 1; and `Run` returns once the context is cancelled,
-- and `main` returns after it. A panic of any goroutine, a worker's or a reflector's among them, ends the
-- process at any time.
pub data Lives : ℕ → Life → Type 0 where
  begins : Lives 0 waiting
  gets_signal : {n : ℕ} {l : Life} → Lives n l → Lives (n + 1) (on_signal l)
  syncs : {n : ℕ} → Lives n waiting → Lives n serving
  syncs_still : {n : ℕ} → Lives n interrupted → Lives n cancelled
  crashes : {n : ℕ} {l : Life} → Lives n l → IsRunning l → Lives n crashed
  fails : {n : ℕ} → Lives n interrupted → Lives n (exited 1)
  returns : {n : ℕ} → Lives n cancelled → Lives n (exited 0)

-- what a life of so many signals can be
abbrev IsLifeOf : ℕ → Life → Type 0
IsLifeOf n waiting = n ≡ 0
IsLifeOf n interrupted = n ≡ 1
IsLifeOf n serving = n ≡ 0
IsLifeOf n cancelled = n ≡ 1
IsLifeOf n crashed = Unit
IsLifeOf n (exited code) = (1 ≤ n) × (code ≤ 1)
