-- ===== src/Scheduler/RunOnce/Unresolved.antt =====
-- How a failed occurrence of `src/scheduler/application/run-scheduled-news-once.use-case.ts` is settled
-- when nobody knows whether its article was published.
use telegram_news_agent.Prelude.{
  ℕ, ◌≡◌, refl, Bool, true, false, ◌||◌, String, arith, if◌then◌else◌, str_eq, eq_iff,
}
use telegram_news_agent.Effects.{
  Outcome, returns, throws, pure, catch, continue, settle, ◌>>=◌, ◌>>◌,
}
use telegram_news_agent.Scheduler.Errors.{Fault, error_code}
use telegram_news_agent.Scheduler.Contracts.{Claim, schedule, Call, Ports}
use telegram_news_agent.Scheduler.Ownership.{State, Action, perform, stop}
use telegram_news_agent.Scheduler.Ownership.Counting.{
  Class, Between, Between-from, Makes, calls_in, perform-Makes, then-Makes, catch-Makes, stop-Makes,
}
use telegram_news_agent.Scheduler.RunOnce.{
  settle as settle_run, report_failure, settings_of, chat_of, notify_paused, failed_result,
}

abbrev is_finish : Call → Bool
is_finish (Call.finish _ _) = true
is_finish _ = false

abbrev pub finishes : Class
finishes = record { has = is_finish; renewals_out = λ _. refl }

module _ {W : Type 0} (p : Ports W) where
  -- the pause and its notice
  pausing-Makes :
      (chat_id : ℕ) (code : String) (is_paused : Bool)
      → Makes p finishes 0 0
          (if is_paused then notify_paused p chat_id >> pure code else pure "claim_lost")
  pausing-Makes chat_id code true =
      then-Makes p finishes 0 0 0 (notify_paused p chat_id) _
        (catch-Makes p finishes 0 0 (perform p (Call.notify chat_id) (p.notify chat_id)) _
          (perform-Makes p finishes (Call.notify chat_id) (p.notify chat_id)) (λ e s. ground arith))
        (λ _ s. ground arith)
  pausing-Makes chat_id code false = λ s. ground arith

  chosen-Makes :
      (chat_id : ℕ) (code : String) (is_unresolved is_left : Bool) (rest : Action W String)
      → (is_unresolved || is_left ≡ true)
      → Makes p finishes 0 0 (
          if is_unresolved
          then catch
              (perform p (Call.pause code) (p.pause code) >>= λ is_paused.
                if is_paused then notify_paused p chat_id >> pure code else pure "claim_lost")
              (λ _. pure "schedule_pause_failed")
          else if is_left
          then pure code
          else rest)
  chosen-Makes chat_id code true is_left rest h =
      catch-Makes p finishes 0 0 _ _
        (then-Makes p finishes 0 0 0 (perform p (Call.pause code) (p.pause code)) _
          (perform-Makes p finishes (Call.pause code) (p.pause code)) (pausing-Makes chat_id code))
        (λ e s. ground arith)
  chosen-Makes chat_id code false true rest h = λ s. ground arith
  chosen-Makes chat_id code false false rest h = λ s. ground arith

  settle-Makes :
      (chat_id : ℕ) (code : String)
      → (str_eq code "publication_unresolved"
            || (str_eq code "claim_lost" || str_eq code "review_delivery_failed")
          ≡ true)
      → Makes p finishes 0 0 (settle_run p chat_id code)
  unfolding settle_run
  settle-Makes chat_id code h =
      chosen-Makes chat_id code (str_eq code "publication_unresolved")
        (str_eq code "claim_lost" || str_eq code "review_delivery_failed") _ h

  -- Where the code of the error is that of an unresolved publication, reporting the failure makes no
  -- call that finishes the occurrence, whether it returns or throws.
  pub report_failure-Makes :
      (claim : Claim) (e : Fault) (s : State W)
      → (error_code e ≡ "publication_unresolved")
      → Between p finishes 0 0 s (report_failure p claim e s)
  unfolding report_failure
  report_failure-Makes claim e s h = go (stop p schedule s) (stop-Makes p finishes schedule s)
    where
      chat : ℕ
      chat = chat_of claim (settings_of (p.settings_for claim))

      settled :
          (code : String) (t : State W)
          → (calls_in p finishes t ≡ calls_in p finishes s)
          → (str_eq code "publication_unresolved"
                || (str_eq code "claim_lost" || str_eq code "review_delivery_failed")
              ≡ true)
          → Between p finishes 0 0 s (
              (settle_run p chat code >>= λ settled.
              pure (failed_result (settings_of (p.settings_for claim)) settled))
                t)
      settled code t q k = Between-from p finishes 0 0 s t _ q (
          then-Makes p finishes 0 0 0 (settle_run p chat code) _ (settle-Makes chat code k)
            (λ _ u. ground arith) t)

      go :
          (o : Outcome Fault (State W) (Unit {0}))
          → Between p finishes 0 0 s o
          → Between p finishes 0 0 s (
              continue (settle o (λ _. pure (error_code e)) (λ _. pure "claim_lost")) (λ code.
                settle_run p chat code >>= λ settled.
                pure (failed_result (settings_of (p.settings_for claim)) settled)))
      go (returns _ t) q =
          settled (error_code e) t (omega (arith, q))
            (ground (arith, eq_iff (error_code e) "publication_unresolved", h))
      go (throws _ t) q = settled "claim_lost" t (omega (arith, q)) refl
