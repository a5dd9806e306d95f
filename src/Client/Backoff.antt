-- ===== src/Client/Backoff.antt =====
-- `#backoff` of ts/synclog/src/client.ts: the delay before a retry, and the promise that ends with
-- the timer or with an abort, whichever comes first.
pub mod Laws
use synclog.Prelude.{
  ℕ, suc, ◌+◌, ◌-◌, ◌*◌, ◌^◌, ◌≡◌, Bool, true, false, min, if◌then◌else◌, nat_eq, leb, ◌&&◌,
}
use synclog.Transport.{Milliseconds, finite, nan}
use synclog.Client.{SyncClient}

-- `Math.min(max, base * 2 ** (attempt - 1))`, for the attempts 1, 2, 3, … A double overflows to
-- infinity, whose minimum with the maximum is the maximum, as it is of the product here; but
-- `2 ** 1024` is infinite, and 0 times that is `NaN`.
unfoldable pub delay : {W : Type 0} → SyncClient W → ℕ → Milliseconds
delay client attempt =
    if nat_eq client.retry_base_delay_ms 0 && leb 1024 (attempt - 1)
    then nan
    else finite (min client.retry_max_delay_ms (client.retry_base_delay_ms * 2 ^ (attempt - 1)))

-- The promise: its timer, its listener on the signal, the signal, and the calls of `resolve`.
pub record Wait : Type 0 where
  pub timer : Bool
  pub listening : Bool
  pub aborted : Bool
  pub resolved : ℕ

-- The body of the promise's constructor.
unfoldable pub start : Bool → Wait
start aborted =
    if aborted
    then record { timer = false; listening = false; aborted = true; resolved = 1 }
    else record { timer = true; listening = true; aborted = false; resolved = 0 }

-- The timer's callback.
unfoldable pub on_timer : Wait → Wait
on_timer w = record w { timer = false; listening = false; resolved = w.resolved + 1 }

-- `onAbort`, registered with `once: true`.
unfoldable pub on_abort : Wait → Wait
on_abort w = record w {
  timer = false;
  listening = false;
  aborted = true;
  resolved = w.resolved + 1;
}

-- What can happen to the promise: its timer fires, or the signal is aborted, which runs the
-- listener if it is there. A signal is aborted once.
pub data Step : Wait → Wait → Type 0 where
  timer_fires : (w : Wait) → w.timer ≡ true → Step w (on_timer w)
  abort_heard : (w : Wait) → w.aborted ≡ false → w.listening ≡ true → Step w (on_abort w)
  abort_unheard :
      (w : Wait) → w.aborted ≡ false → w.listening ≡ false → Step w (record w { aborted = true })

pub data Reach (s : Wait) : Wait → Type 0 where
  here : Reach s s
  next : {t u : Wait} → Reach s t → Step t u → Reach s u
