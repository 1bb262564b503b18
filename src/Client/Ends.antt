-- ===== src/Client/Ends.antt =====
-- What Unlock and Close of client/client.go do to the refreshers of the client.
use go_ldlm.Client.Stopping.{
  IsSentClosed, stop_selecting, stop_refreshing, refresh_panics, stop-finished, stop_all-Stops,
  lookup-IsAmong, IsAmong, stop_all_panics, stop_all_ends, stop_all_outcome, set_here,
}
use mathlib.Core.Path.{subst}
use go_ldlm.Client.Requests.{Reply, unlock, retried_answers, unlock_answered, retried, CallError}
use go_ldlm.Client.Goroutine.{refresh_failure, refresher_step, refresh_returns}
use go_ldlm.Client.{
  Client, Refresher, selecting, refreshing, finished, phase_of, stop, stop_all, close,
  maybe_remove_refresher, RpcResult,
}
use go_ldlm.Grpc.{UnlockResponse}
use go_ldlm.Errors.{Error}
use Prim.Native.String
use go_ldlm.Common.{
  if_false, delete, lookup, lookup-delete, Outcome, Method, blocks, returns, panics, string_panic,
  ℕ, String, ◌==◌, ◌≡◌, refl, sym, ap, ◌∙◌, inl, inr, ◌⊎◌, Bool, false, Option, none, some, arith,
  if◌then◌else◌, pure, continue,
}

pub continue_state :
    {A B : Type 0} (o : Outcome A) (b : B) (c : Client) → (continue o (λ _. pure b) c).1 ≡ c
unfolding continue pure
continue_state (returns a) b c = refl
continue_state (panics e) b c = refl
continue_state blocks b c = refl

sent_closed :
    {A B : Type 0} (f : A → Method Client B) (o : Outcome A) (c : Client)
    → IsSentClosed o
    → IsSentClosed (continue o f c).0
unfolding continue
sent_closed f o c h = rw h refl

removed_lem :
    (name : String) (r : Refresher) (c : Client)
    → c.no_auto_refresh ≡ false
    → lookup name c.refresh_map ≡ some r
    → maybe_remove_refresher name c ≡ stop r (record c { refresh_map = delete name c.refresh_map })
unfolding maybe_remove_refresher
removed_lem name r c auto there = if_false _ _ _ auto ∙ simp there refl

-- The answer of Unlock, once the refresher has been dealt with.
abbrev answer :
    (String → String → ℕ → RpcResult UnlockResponse)
    → String
    → String
    → Client
    → Option (Bool × Option (CallError ⊎ Error))
answer service name key c = unlock_answered (retried c.max_retries (service name key))

unlock_lem :
    (service : String → String → ℕ → RpcResult UnlockResponse) (name key : String) (c : Client)
    {x : Outcome (Unit {0}) × Client}
    → maybe_remove_refresher name c ≡ x
    → unlock service name key c ≡ continue x.0 (λ _. pure (answer service name key c)) x.1
unfolding unlock
unlock_lem service name key c h =
    ap (λ x. continue x.0 (λ _. pure (answer service name key c)) x.1) h

answers_lem :
    (service : String → String → ℕ → RpcResult UnlockResponse) (name key : String) (c c' : Client)
    → unlock service name key c ≡ (returns (answer service name key c), c')
    → (a : Bool × Option (CallError ⊎ Error)) × ((unlock service name key c).0 ≡ returns (some a))
answers_lem service name key c c' h =
    let (a, e) = retried_answers c.max_retries (service name key) in
    (a, ap (λ x. x.0) h ∙ ap returns e)

-- Closing a client twice: where a Close returns, the goroutine of a refresher in its map that was at
-- its select has ended, and since the refresher stays in the map, another Close panics, and with
-- automatic refreshes on, so does an Unlock of that name.
pub close_twice_panics :
    (closed again : Option Error) (name key : String)
    (service : String → String → ℕ → RpcResult UnlockResponse) (r : Refresher) (c : Client)
    → lookup name c.refresh_map ≡ some r
    → phase_of r.id c ≡ selecting
    → (close closed c).0 ≡ returns closed
    → let c' = (close closed c).1 in
      (phase_of r.id c' ≡ finished)
      × IsSentClosed (close again c').0
      × (c.no_auto_refresh ≡ false → IsSentClosed (unlock service name key c').0)
unfolding close
close_twice_panics closed again name key service r c there waits returned =
    elim (stop_all_outcome c.refresh_map c) [
      | inr o ↦ absurd (
          ground (
            arith,
            returned,
            sent_closed (λ _. pure closed) (stop_all c.refresh_map c).0 (stop_all c.refresh_map c).1
                o,
          ))
      | inl o ↦
          let d = (stop_all c.refresh_map c).1 in
          let all = stop_all-Stops c.refresh_map c in
          let among = lookup-IsAmong name r c.refresh_map there in
          let ended = stop_all_ends c.refresh_map r c among waits o in
          rw (continue_state {B = Option Error} (stop_all c.refresh_map c).0 closed d) (
            ended,
            sent_closed (λ _. pure again) _ _
                (stop_all_panics d.refresh_map r d (subst (IsAmong r) (sym all.same_map) among)
                  ended),
            λ auto.
                ap (λ x. x.0)
                  (unlock_lem service name key d (
                    removed_lem name r d (all.same_auto ∙ auto)
                      (ap (lookup name) all.same_map ∙ there)))
                ∙ sent_closed (λ _. pure (answer service name key d)) _ _
                    (stop-finished r (record d { refresh_map = delete name d.refresh_map }) ended),
          )
    ]

-- With automatic refreshes on, Unlock of a name whose refresher's goroutine is at its select ends
-- that goroutine and takes the name, and no other, out of the map, whatever the service answers;
-- its call returns within the retries allowed.
pub unlock_ends_refresher :
    (service : String → String → ℕ → RpcResult UnlockResponse) (name key : String) (r : Refresher)
    (c : Client)
    → c.no_auto_refresh ≡ false
    → lookup name c.refresh_map ≡ some r
    → phase_of r.id c ≡ selecting
    → let (o, c') = unlock service name key c in
      ((a : Bool × Option (CallError ⊎ Error)) × (o ≡ returns (some a)))
      × (phase_of r.id c' ≡ finished)
      × ((j : String)
          → lookup j c'.refresh_map ≡ (if name == j then none else lookup j c.refresh_map))
unfolding continue pure
unlock_ends_refresher service name key r c auto there waits =
    let c1 = record c { refresh_map = delete name c.refresh_map } in
    let done =
      unlock_lem service name key c (removed_lem name r c auto there ∙ stop_selecting r c1 waits) in
    (
      answers_lem service name key c _ done,
      ap (λ x. phase_of r.id x.1) done ∙ set_here c.goroutines r.id waits,
      λ j. ap (λ x. lookup j x.1.refresh_map) done ∙ lookup-delete name j c.refresh_map,
    )

-- With automatic refreshes on, Unlock of a name whose refresher is in its call of RefreshLock does
-- not end the goroutine: it returns, and when RefreshLock then returns an error, as it does for a
-- lock that is gone, the goroutine panics.
pub missed_stop_panics :
    (service : String → String → ℕ → RpcResult UnlockResponse) (name key : String) (r : Refresher)
    (reply : Reply) (e : CallError ⊎ Error) (c : Client)
    → c.no_auto_refresh ≡ false
    → lookup name c.refresh_map ≡ some r
    → phase_of r.id c ≡ refreshing
    → refresh_failure reply ≡ some e
    → let (o, c') = unlock service name key c in
      ((a : Bool × Option (CallError ⊎ Error)) × (o ≡ returns (some a)))
      × ((refresher_step r (refresh_returns reply) c').0
          ≡ panics (string_panic (String.◌++◌ "error refreshing lock " r.name)))
unfolding continue pure
missed_stop_panics service name key r reply e c auto there busy fails =
    let c1 = record c { refresh_map = delete name c.refresh_map } in
    let done =
      unlock_lem service name key c (removed_lem name r c auto there ∙ stop_refreshing r c1 busy) in
    (
      answers_lem service name key c _ done,
      ap (λ x. (refresher_step r (refresh_returns reply) x.1).0) done
          ∙ refresh_panics r reply e c1 busy fails,
    )
