-- ===== src/Telegram/Polling/Loop.antt =====
-- `pollTelegramUpdates` of `src/telegram/telegram-polling-worker.ts`: the wait for the lease, the long
-- polls and the release. Both loops take the number of rounds to look at. The callback `onReady` is
-- left out: the worker passes one that resolves a promise and cannot throw.
pub mod Relations
pub mod Asks
pub mod Lease
pub mod Waiting
use telegram_news_agent.Prelude.{
  ℕ, zero, suc, ◌+◌, Bool, true, false, ◌||◌, Option, none, some, List, ◌∷◌, leb, if◌then◌else◌,
}
use telegram_news_agent.Effects.{Outcome, returns, throws, pure, throw, catch, attempt, ◌>>=◌, ◌>>◌}
use telegram_news_agent.Telegram.Updates.{Json}
use telegram_news_agent.Telegram.Polling.{
  Fault, is_telegram_conflict, is_lease_lost, retry_delay, Answer, Call, Ports, State, Action,
  perform,
}
use telegram_news_agent.Telegram.Polling.Batch.{sleep_for, handle_batch}

pub record Settings : Type 0 where
  pub lease_acquire_timeout_ms : ℕ
  pub lease_acquire_retry_ms : ℕ
  pub max_failure_ledger_attempts : ℕ

-- How the wait for the lease ends; `waiting` where it still goes on after so many rounds.
pub data Wait : Type 0 where
  owned aborted waiting : Wait

module _ {W : Type 0} (p : Ports W) (settings : Settings) where
  abbrev release_lease : Action W (Unit {0})
  release_lease = perform (λ _. Call.release) p.release

  -- `try { await sleep } catch { if (signal.aborted) return; throw }`
  abbrev after_sleep_error : Fault → Action W Wait
  after_sleep_error e s = if p.is_aborted s.world then returns aborted s else throws e s

  abbrev sleep_then : Action W Wait → Action W Wait
  sleep_then rest =
      attempt
        (perform (λ _. Call.sleep settings.lease_acquire_retry_ms)
          (p.sleep settings.lease_acquire_retry_ms))
        (λ _. rest) after_sleep_error

  pub after_acquire : ℕ → Action W Wait → Bool → Action W Wait
  after_acquire deadline rest true s =
      if p.is_aborted s.world then (release_lease >> pure aborted) s else returns owned s
  after_acquire deadline rest false s =
      if leb deadline (p.now s.world) then throws Fault.lease_held s else sleep_then rest s

  pub wait_for_lease : ℕ → ℕ → Action W Wait
  unfolding after_acquire
  wait_for_lease zero deadline s = returns waiting s
  wait_for_lease (suc n) deadline s =
      if p.is_aborted s.world
      then returns aborted s
      else (perform Call.acquire p.acquire >>= after_acquire deadline (wait_for_lease n deadline)) s

  pub after_batch : Action W (Unit {0}) → Option (List Json) → Action W (Unit {0})
  after_batch rest none s = throws (Fault.protocol "updates_not_array") s
  after_batch rest (some updates_batch) s =
      (handle_batch p settings.max_failure_ledger_attempts updates_batch >> rest)
        (record s { poll_attempt = 0; world = p.mark_poll s.world })

  pub after_poll_error : Action W (Unit {0}) → Fault → Action W (Unit {0})
  after_poll_error rest e s =
      if is_lease_lost e || is_telegram_conflict e
      then throws e s
      else if p.is_aborted s.world
      then returns tt s
      else (sleep_for p (retry_delay s.poll_attempt) >> rest)
          (record s { poll_attempt = suc s.poll_attempt })

  pub poll : ℕ → Action W (Unit {0})
  unfolding after_batch after_poll_error
  poll zero s = returns tt s
  poll (suc n) s =
      if p.is_aborted s.world
      then returns tt s
      else attempt (perform (λ _. Call.get_updates s.offset) (p.get_updates s.offset))
          (after_batch (poll n)) (after_poll_error (poll n)) s

  -- the `catch` around the loop
  abbrev unless_aborted : Fault → Action W (Unit {0})
  unless_aborted e s = if p.is_aborted s.world then returns tt s else throws e s

  -- The `finally`: the promise of the heartbeat never rejects, since it catches all its errors.
  pub polling_owned : ℕ → Action W (Unit {0})
  unfolding poll
  polling_owned n =
      attempt (catch (poll n) unless_aborted) (λ _. release_lease) (λ e. release_lease >> throw e)

  pub after_wait : ℕ → Wait → Action W (Unit {0})
  unfolding polling_owned
  after_wait n owned s =
      if p.is_aborted s.world
      then returns tt s
      else polling_owned n (record s {
        world = p.start_heartbeat s.world;
        offset = 0;
        poll_attempt = 0;
        failure_ledger_attempt = 0;
      })
  after_wait n _ s = returns tt s

  pub poll_telegram_updates : ℕ → ℕ → Action W (Unit {0})
  unfolding wait_for_lease after_wait
  poll_telegram_updates waits polls s =
      (wait_for_lease waits (p.now s.world + settings.lease_acquire_timeout_ms)
          >>= after_wait polls)
        s
