-- ===== src/Integration/Zha/Retry.antt =====
-- When a send drives the bolt, and what it leaves behind.
use onesti_lock.Base.{
  ℕ, ◌-◌, ◌≤◌, ◌&&◌, ◌<◌, suc, Bool, true, false, List, [], ◌∷◌, ◌≡◌, ◌≢◌, ◌↔◌, refl, arith,
}
use onesti_lock.Integration.Zha.{
  Transport, World, Sent, Attempt, timed_out, index_error, zigbee_error, other_error, replied, Wake,
  lookup_failed, no_entity, entity, Act, command_sent, bolt_driven, send, outcome, wake,
  wake_echo_pending, is_delivered,
}

abbrev pub bolts : List Act → ℕ
bolts [] = 0
bolts (bolt_driven ∷ acts) = suc (bolts acts)
bolts (command_sent ∷ acts) = bolts acts

abbrev pub sends : List Act → ℕ
sends [] = 0
sends (bolt_driven ∷ acts) = sends acts
sends (command_sent ∷ acts) = suc (sends acts)

abbrev BoltCause : Sent → World → Type 0
BoltCause x w =
    (bolts x.acts ≤ 1)
    × (bolts x.acts ≡ 1
        → (w.first ≡ timed_out)
          × ((now : ℕ) × (goes_through : Bool) × (w.wakes ≡ entity now goes_through)))
    × (sends x.acts ≤ 2)
    × ((sends x.acts ≡ 2) ↔ ((w.has_cluster ≡ true) × (w.first ≡ timed_out)))

once : (w : World) (x : Sent) → x.acts ≡ command_sent ∷ [] → w.first ≢ timed_out → BoltCause x w
once w x e other = ground arith

twice :
    (command : ℕ) (t : Transport) (wakes : Wake) (second : Attempt)
    → let w : World = record {
      has_cluster = true;
      first = timed_out;
      wakes = wakes;
      second = second;
    } in
      BoltCause (send command w t) w
unfolding send wake
twice command t lookup_failed index_error = ground arith
twice command t lookup_failed (replied r) = ground arith
twice command t lookup_failed _ = ground arith
twice command t no_entity index_error = ground arith
twice command t no_entity (replied r) = ground arith
twice command t no_entity _ = ground arith
twice command t (entity now b) index_error =
    (omega arith, λ e. (refl, (now, b, refl)), omega arith, (λ e. (refl, refl), λ e. refl))
twice command t (entity now b) (replied r) =
    (omega arith, λ e. (refl, (now, b, refl)), omega arith, (λ e. (refl, refl), λ e. refl))
twice command t (entity now b) _ =
    (omega arith, λ e. (refl, (now, b, refl)), omega arith, (λ e. (refl, refl), λ e. refl))

-- A send drives the bolt at most once, and only where the first attempt timed out and ZHA has a
-- lock entity; it sends the command at most twice, and twice exactly where the first attempt timed out.
pub send_acts :
    (command : ℕ) (w : World) (t : Transport)
    → (bolts (send command w t).acts ≤ 1)
      × (bolts (send command w t).acts ≡ 1
          → (w.first ≡ timed_out) × ((now : ℕ) × (ok : Bool) × (w.wakes ≡ entity now ok)))
      × (sends (send command w t).acts ≤ 2)
      × ((sends (send command w t).acts ≡ 2) ↔ ((w.has_cluster ≡ true) × (w.first ≡ timed_out)))
unfolding send wake
send_acts command w t = go w.has_cluster w.first
  where
    go :
        (has_cluster : Bool) (first : Attempt)
        → let w' : World = record w { has_cluster = has_cluster; first = first } in
          BoltCause (send command w' t) w'
    go false first = ground arith
    go true timed_out = twice command t w.wakes w.second
    go true index_error =
        once (record w { has_cluster = true; first = index_error })
          (send command (record w { has_cluster = true; first = index_error }) t) refl (λ e. cc e)
    go true (replied r) =
        once (record w { has_cluster = true; first = replied r })
          (send command (record w { has_cluster = true; first = replied r }) t) refl (λ e. cc e)
    go true zigbee_error =
        once (record w { has_cluster = true; first = zigbee_error })
          (send command (record w { has_cluster = true; first = zigbee_error }) t) refl (λ e. cc e)
    go true other_error =
        once (record w { has_cluster = true; first = other_error })
          (send command (record w { has_cluster = true; first = other_error }) t) refl (λ e. cc e)

-- The attempt that decides: the second one after a timeout, else the first.
abbrev pub deciding : World → Attempt
deciding w = elim w.first [ timed_out ↦ w.second | _ ↦ w.first ]

-- The lock took the command, as far as an attempt can tell.
abbrev pub accepted : ℕ → Attempt → Bool
accepted command index_error = true
accepted command (replied r) = is_delivered (outcome command r)
accepted command _ = false

-- A send counts as delivered exactly where a cluster is there and the deciding attempt ended in a
-- reply that counts as delivered or in the IndexError of an answer that cannot be read.
pub send-is_delivered :
    (command : ℕ) (w : World) (t : Transport)
    → is_delivered (send command w t).result ≡ (w.has_cluster && accepted command (deciding w))
unfolding send is_delivered
send-is_delivered command w t = go w.has_cluster w.first w.second
  where
    go :
        (has_cluster : Bool) (first second : Attempt)
        → let w' : World = record w { has_cluster = has_cluster; first = first; second = second } in
          is_delivered (send command w' t).result
          ≡ (w'.has_cluster && accepted command (deciding w'))
    go false first second = refl
    go true index_error second = refl
    go true (replied r) second = refl
    go true timed_out index_error = refl
    go true timed_out (replied r) = refl
    go true timed_out _ = refl
    go true _ second = refl

-- Where a send makes a lock event count as the echo of a wake, which it did not before, the first
-- attempt timed out, a lock command went through, and the event is less than 30 seconds after it.
pub send_wake_echo :
    (command : ℕ) (w : World) (t : Transport) (later : ℕ)
    → wake_echo_pending later t ≡ false
    → wake_echo_pending later (send command w t).transport ≡ true
    → (now : ℕ) × (w.first ≡ timed_out) × (w.wakes ≡ entity now true) × (later - now < 30000)
unfolding send wake wake_echo_pending
send_wake_echo command w t later quiet = go w.has_cluster w.first w.wakes w.second
  where
    go :
        (has_cluster : Bool) (first : Attempt) (wakes : Wake) (second : Attempt)
        → let w' : World = record {
          has_cluster = has_cluster;
          first = first;
          wakes = wakes;
          second = second;
        } in
          wake_echo_pending later (send command w' t).transport ≡ true
          → (now : ℕ) × (first ≡ timed_out) × (wakes ≡ entity now true) × (later - now < 30000)
    go false first wakes second e = cc (e, quiet)
    go true timed_out (entity now true) index_error e = (now, refl, refl, ground arith)
    go true timed_out (entity now true) (replied r) e = (now, refl, refl, ground arith)
    go true timed_out (entity now true) _ e = (now, refl, refl, ground arith)
    go true timed_out (entity now false) index_error e = cc (e, quiet)
    go true timed_out (entity now false) (replied r) e = cc (e, quiet)
    go true timed_out (entity now false) _ e = cc (e, quiet)
    go true timed_out _ index_error e = cc (e, quiet)
    go true timed_out _ (replied r) e = cc (e, quiet)
    go true timed_out _ _ e = cc (e, quiet)
    go true index_error wakes second e = cc (e, quiet)
    go true (replied r) wakes second e = cc (e, quiet)
    go true _ wakes second e = cc (e, quiet)
