-- ===== src/Telegram/Polling/Loop/Lease.antt =====
-- The lease of the poller in `src/telegram/telegram-polling-worker.ts` is released once.
use telegram_news_agent.Prelude.{
  ℕ, zero, suc, ◌+◌, ◌≡◌, refl, Bool, true, false, ◌∷◌, arith, indicator,
}
use telegram_news_agent.Effects.{Outcome, returns, throws, continue, settle, handle, throw, ◌>>◌}
use telegram_news_agent.Effects.Rules.{Ensures, Ensures-continue, Moves}
use telegram_news_agent.Telegram.Polling.{Fault, answered, Call, Ports, State, Action, noted}
use telegram_news_agent.Telegram.Polling.Batch.Leases.{
  grants, releases, SameLease, SameLease-trans, sleep_for-SameLease, handle_batch-SameLease,
}
use telegram_news_agent.Telegram.Polling.Loop.{
  Settings, Wait, owned, aborted, waiting, release_lease, unless_aborted, after_sleep_error,
  after_acquire, wait_for_lease, poll, polling_owned, after_wait, poll_telegram_updates,
}
use telegram_news_agent.Telegram.Polling.Loop.Relations.{poll-Moves}

module _ {W : Type 0} (p : Ports W) (settings : Settings) where
  poll-SameLease : (n : ℕ) → Moves SameLease (poll p settings n)
  poll-SameLease =
      poll-Moves p settings SameLease (λ s. (refl, refl)) SameLease-trans (handle_batch-SameLease p)
        (sleep_for-SameLease p) (λ s w. (refl, refl)) (λ s n w. (refl, refl))

  -- One release more, and no grant.
  abbrev Releases : State W → State W → Type 0
  Releases s t = (grants t ≡ grants s) × (releases t ≡ suc (releases s))

  finally-Releases :
      (s : State W) (o : Outcome Fault (State W) (Unit {0}))
      → Ensures (λ _ t. SameLease s t) (λ _ t. SameLease s t) o
      → Ensures
          (λ _ t. Releases s t)
          (λ _ t. Releases s t)
          (settle
            (handle o (unless_aborted p settings))
            (λ _. release_lease p settings)
            (λ e. release_lease p settings >> throw e))
  finally-Releases s (returns _ t) h = ground arith
  finally-Releases s (throws e t) h = ground arith

  polling_owned-Releases : (n : ℕ) → Moves Releases (polling_owned p settings n)
  unfolding polling_owned
  polling_owned-Releases n s = finally-Releases s (poll p settings n s) (poll-SameLease n s)

  -- The wait ends with the lease owned exactly where it was granted and not released again.
  abbrev Owes : Wait → State W → State W → Type 0
  Owes owned s t =
      (grants t + releases s ≡ suc (grants s + releases t)) × (p.is_aborted t.world ≡ false)
  Owes _ s t = grants t + releases s ≡ grants s + releases t

  abbrev Settled : State W → State W → Type 0
  Settled s t = grants t + releases s ≡ grants s + releases t

  abbrev Waits : State W → Outcome Fault (State W) Wait → Type 0
  Waits s = Ensures (λ w t. Owes w s t) (λ _ t. Settled s t)

  after_acquire-Waits :
      (deadline : ℕ) (rest : Action W Wait) (granted : Bool) (s u : State W)
      → ((t : State W) → Waits t (rest t))
      → grants u + releases s ≡ grants s + releases u + indicator granted
      → Waits s (after_acquire p settings deadline rest granted u)
  unfolding after_acquire
  after_acquire-Waits deadline rest true s u k h = ground arith
  after_acquire-Waits deadline rest false s u k h =
      ground (arith, slept (p.sleep settings.lease_acquire_retry_ms u.world))
    where
      later :
          (t : State W) → Settled s t → (o : Outcome Fault (State W) Wait) → Waits t o → Waits s o
      later t e (returns owned v) f = ground arith
      later t e (returns aborted v) f = ground arith
      later t e (returns waiting v) f = ground arith
      later t e (throws _ v) f = ground arith

      slept :
          (o : Outcome Fault W (Unit {0}))
          → Waits s (
              settle
                (noted (λ _. Call.sleep settings.lease_acquire_retry_ms) u o)
                (λ _. rest)
                (after_sleep_error p settings))
      slept (returns _ w) =
          let t : State W = record u {
            world = w;
            calls = Call.sleep settings.lease_acquire_retry_ms ∷ u.calls;
          } in
          later t (omega arith) (rest t) (k t)
      slept (throws e w) = ground arith

  wait_for_lease-Waits :
      (n deadline : ℕ) (s : State W) → Waits s (wait_for_lease p settings n deadline s)
  unfolding wait_for_lease
  wait_for_lease-Waits zero deadline s = refl
  wait_for_lease-Waits (suc n) deadline s =
      ground (arith, acquired (p.acquire s.world) (wait_for_lease-Waits n deadline))
    where
      rest : Action W Wait
      rest = wait_for_lease p settings n deadline

      acquired :
          (o : Outcome Fault W Bool)
          → ((t : State W) → Waits t (rest t))
          → Waits s (continue (noted Call.acquire s o) (after_acquire p settings deadline rest))
      acquired (returns b w) k =
          after_acquire-Waits deadline rest b s
            (record s { world = w; calls = Call.acquire (answered b) ∷ s.calls }) k (ground arith)
      acquired (throws e w) k = refl

  after_wait-Settled :
      (n : ℕ) (w : Wait) (s t : State W)
      → Owes w s t
      → Ensures (λ _ u. Settled s u) (λ _ u. Settled s u) (after_wait p settings n w t)
  unfolding after_wait
  after_wait-Settled n owned s t h = ground (
    arith,
    polling_owned-Releases n (record {
      world = p.start_heartbeat t.world;
      offset = 0;
      poll_attempt = 0;
      failure_ledger_attempt = 0;
      calls = t.calls;
    }),
  )
  after_wait-Settled n aborted s t h = h
  after_wait-Settled n waiting s t h = h

  -- Whether the poller returns or throws, it has released the lease exactly as often as it was granted.
  pub poll_telegram_updates-releases :
      (waits polls : ℕ) (s : State W)
      → Ensures
          (λ _ t. grants t + releases s ≡ grants s + releases t)
          (λ _ t. grants t + releases s ≡ grants s + releases t)
          (poll_telegram_updates p settings waits polls s)
  unfolding poll_telegram_updates
  poll_telegram_updates-releases waits polls s =
      Ensures-continue (λ w t. Owes w s t) (λ _ t. Settled s t) (λ _ t. Settled s t)
        (wait_for_lease p settings waits (p.now s.world + settings.lease_acquire_timeout_ms) s)
        (after_wait p settings polls)
        (wait_for_lease-Waits waits (p.now s.world + settings.lease_acquire_timeout_ms) s)
        (λ w t. after_wait-Settled polls w s t)
