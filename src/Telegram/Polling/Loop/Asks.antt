-- ===== src/Telegram/Polling/Loop/Asks.antt =====
-- What the poller of `src/telegram/telegram-polling-worker.ts` asks Telegram for.
use telegram_news_agent.Prelude.{
  ℕ, zero, suc, ◌+◌, Bool, true, false, List, ◌∷◌, arith, if◌then◌else◌,
}
use telegram_news_agent.Effects.{Outcome, returns, throws, continue, settle, handle, ◌>>◌, throw}
use telegram_news_agent.Effects.Rules.{Ensures, Ensures-continue, Ensures-map}
use telegram_news_agent.Telegram.Polling.{Fault, Call, Ports, State, Action, noted, answered}
use telegram_news_agent.Telegram.Polling.Batch.{sleep_for, handle_batch}
use telegram_news_agent.Telegram.Polling.Batch.Requests.{
  Backed, AsksBacked, IsSound, handle_batch-IsSound,
}
use telegram_news_agent.Telegram.Polling.Loop.Relations.{poll-Moves}
use telegram_news_agent.Telegram.Polling.Loop.{
  Settings, Wait, owned, aborted, waiting, release_lease, after_sleep_error, unless_aborted,
  after_acquire, wait_for_lease, poll, polling_owned, after_wait, poll_telegram_updates,
}

module _ {W : Type 0} (p : Ports W) (settings : Settings) where
  abbrev Sound : {A : Type 0} → Outcome Fault (State W) A → Type 0
  Sound = Ensures (λ _ t. IsSound p t) (λ _ t. IsSound p t)

  abbrev KeepsSound : {A : Type 0} → Action W A → Type 0
  KeepsSound m = (s : State W) → IsSound p s → Sound (m s)

  Sound-of :
      {A : Type 0} (s : State W) (o : Outcome Fault (State W) A)
      → Ensures (λ _ t. IsSound p s → IsSound p t) (λ _ t. IsSound p s → IsSound p t) o
      → IsSound p s
      → Sound o
  Sound-of s o f h =
      Ensures-map (λ _ t. IsSound p s → IsSound p t) (λ _ t. IsSound p t)
        (λ _ t. IsSound p s → IsSound p t) (λ _ t. IsSound p t) o f (λ _ _ k. k h) (λ _ _ k. k h)

  of-Sound :
      {A : Type 0} (s : State W) (o : Outcome Fault (State W) A)
      → (IsSound p s → Sound o)
      → Ensures (λ _ t. IsSound p s → IsSound p t) (λ _ t. IsSound p s → IsSound p t) o
  of-Sound s (returns a t) f = f
  of-Sound s (throws e t) f = f

  Backed-asked :
      (offset asked : ℕ) (calls : List Call)
      → Backed offset calls
      → Backed offset (Call.get_updates asked ∷ calls)
  Backed-asked zero asked calls h = tt
  Backed-asked (suc id) asked calls h = h

  Backed-slept :
      (offset ms : ℕ) (calls : List Call)
      → Backed offset calls
      → Backed offset (Call.sleep ms ∷ calls)
  Backed-slept zero ms calls h = tt
  Backed-slept (suc id) ms calls h = h

  slept-IsSound : (delay : ℕ → ℕ) → KeepsSound (sleep_for p delay)
  slept-IsSound delay s h = ground (arith, Backed-slept s.offset (delay (p.random s.world)) s.calls)

  poll-IsSound : (n : ℕ) → KeepsSound (poll p settings n)
  poll-IsSound n s = Sound-of s (poll p settings n s) (
      poll-Moves p settings (λ s t. IsSound p s → IsSound p t) (λ s h. h) (λ s t u f g h. g (f h))
        (λ limit batch s.
          of-Sound s (handle_batch p limit batch s) (handle_batch-IsSound p limit batch s))
        (λ delay s. of-Sound s (sleep_for p delay s) (slept-IsSound delay s))
        (λ s w h. ((h.1, h.0), Backed-asked s.offset s.offset s.calls h.1)) (λ s n w h. h) n s)

  release_lease-IsSound : KeepsSound (release_lease p settings)
  release_lease-IsSound s h = ground arith

  finally-IsSound :
      (s : State W) (o : Outcome Fault (State W) (Unit {0}))
      → Sound o
      → Sound (
          settle
            (handle o (unless_aborted p settings))
            (λ _. release_lease p settings)
            (λ e. release_lease p settings >> throw e))
  finally-IsSound s (returns _ t) h = release_lease-IsSound t h
  finally-IsSound s (throws e t) h = ground (arith, release_lease-IsSound t h)

  polling_owned-IsSound : (n : ℕ) → KeepsSound (polling_owned p settings n)
  unfolding polling_owned
  polling_owned-IsSound n s h = finally-IsSound s (poll p settings n s) (poll-IsSound n s h)

  -- before the first poll, where the offset is not set yet
  abbrev Asked : {A : Type 0} → Outcome Fault (State W) A → Type 0
  Asked = Ensures (λ _ t. AsksBacked t.calls) (λ _ t. AsksBacked t.calls)

  after_wait-Asked :
      (n : ℕ) (w : Wait) (s : State W) → AsksBacked s.calls → Asked (after_wait p settings n w s)
  unfolding after_wait
  after_wait-Asked n owned s h = go (p.is_aborted s.world)
    where
      t : State W
      t = record s {
        world = p.start_heartbeat s.world;
        offset = 0;
        poll_attempt = 0;
        failure_ledger_attempt = 0;
      }

      go : (b : Bool) → Asked (if b then returns tt s else polling_owned p settings n t)
      go true = h
      go false =
          Ensures-map (λ _ u. IsSound p u) (λ _ u. AsksBacked u.calls) (λ _ u. IsSound p u)
            (λ _ u. AsksBacked u.calls) (polling_owned p settings n t)
            (polling_owned-IsSound n t (h, tt)) (λ _ _ k. k.0) (λ _ _ k. k.0)
  after_wait-Asked n aborted s h = h
  after_wait-Asked n waiting s h = h

  abbrev KeepsAsked : {A : Type 0} → Action W A → Type 0
  KeepsAsked m = (s : State W) → AsksBacked s.calls → Asked (m s)

  after_acquire-KeepsAsked :
      (deadline : ℕ) (rest : Action W Wait) (b : Bool)
      → KeepsAsked rest
      → KeepsAsked (after_acquire p settings deadline rest b)
  unfolding after_acquire
  after_acquire-KeepsAsked deadline rest true k s h = ground arith
  after_acquire-KeepsAsked deadline rest false k s h =
      ground (arith, slept (p.sleep settings.lease_acquire_retry_ms s.world))
    where
      slept :
          (o : Outcome Fault W (Unit {0}))
          → Asked (
              settle
                (noted (λ _. Call.sleep settings.lease_acquire_retry_ms) s o)
                (λ _. rest)
                (after_sleep_error p settings))
      slept (returns _ w) =
          k (record s { world = w; calls = Call.sleep settings.lease_acquire_retry_ms ∷ s.calls }) h
      slept (throws e w) = ground arith

  wait-Asked :
      (n deadline : ℕ) (s : State W)
      → AsksBacked s.calls
      → Asked (wait_for_lease p settings n deadline s)
  unfolding wait_for_lease
  wait-Asked zero deadline s h = h
  wait-Asked (suc n) deadline s h =
      ground (arith, acquired (p.acquire s.world) (wait-Asked n deadline))
    where
      rest : Action W Wait
      rest = wait_for_lease p settings n deadline

      acquired :
          (o : Outcome Fault W Bool)
          → KeepsAsked rest
          → Asked (continue (noted Call.acquire s o) (after_acquire p settings deadline rest))
      acquired (returns b w) k =
          after_acquire-KeepsAsked deadline rest b k
            (record s { world = w; calls = Call.acquire (answered b) ∷ s.calls }) h
      acquired (throws e w) k = h

  -- Whatever the answers, failures and losses of the lease: each request of the poller asks for an offset that is zero or
  -- lies directly above an update that was settled before, provided that no other request was made before.
  pub poll_telegram_updates-AsksBacked :
      (waits polls : ℕ) (s : State W)
      → AsksBacked s.calls
      → Ensures
          (λ _ t. AsksBacked t.calls)
          (λ _ t. AsksBacked t.calls)
          (poll_telegram_updates p settings waits polls s)
  unfolding poll_telegram_updates
  poll_telegram_updates-AsksBacked waits polls s h =
      Ensures-continue (λ _ t. AsksBacked t.calls) (λ _ t. AsksBacked t.calls)
        (λ _ t. AsksBacked t.calls)
        (wait_for_lease p settings waits (p.now s.world + settings.lease_acquire_timeout_ms) s)
        (after_wait p settings polls) (wait-Asked waits _ s h) (after_wait-Asked polls)
