-- ===== src/Relay/Forwarding/Steps.antt =====
-- The steps of a context of relay/src/forwarding.rs from state to state, one for each method.
use real_layer.Base.{
  ℕ, Option, none, some, ◌⊎◌, ◌≤◌, ◌≢◌, list_beq_iff, list_eq, nat_eq, ◌||◌, ◌≡◌, refl, ap, Bool,
  true, false, arith, ◌==◌,
}
use real_layer.Network.Session.Types.{SessionId}
use real_layer.Relay.Forwarding.{
  ForwardingDirection, client_to_exit, exit_to_client, ForwardingState, created, connecting,
  established, forwarding, closing, closed, forwarding_state_eq, is_repeated, is_violation,
}

-- A call of a method that changes the context.
pub data Op : Type 0 where
  connect establish close finish_close : Op
  bind : SessionId → Op
  forward : SessionId → ForwardingDirection → Op
  number : ℕ → Op

-- The states before and after a call that succeeds.
pub data Step : Op → ForwardingState → ForwardingState → Type 0 where
  dial : Step connect created connecting
  answered : Step establish connecting established
  bound : {id : SessionId} → Step (bind id) established established
  first_packet :
      {id : SessionId} {d : ForwardingDirection} → Step (forward id d) established forwarding
  next_packet :
      {id : SessionId} {d : ForwardingDirection} → Step (forward id d) forwarding forwarding
  give_up : Step close connecting closing
  finish : Step close established closing
  hang_up : Step close forwarding closing
  again : Step close closing closing
  end : Step finish_close closing closed
  numbered : {n : ℕ} {s : ForwardingState} → Step (number n) s s

pub live-Step :
    (id : SessionId) (d : ForwardingDirection) (s : ForwardingState)
    → (s == established || s == forwarding) ≡ true
    → Step (forward id d) s forwarding
live-Step id d created h = absurd (ground arith)
live-Step id d connecting h = absurd (ground arith)
live-Step id d established h = first_packet
live-Step id d forwarding h = next_packet
live-Step id d closing h = absurd (ground arith)
live-Step id d closed h = absurd (ground arith)

pub closing-Step :
    (s : ForwardingState) → (s == created || s == closed) ≡ false → Step close s closing
closing-Step created h = absurd (ground arith)
closing-Step connecting h = give_up
closing-Step established h = finish
closing-Step forwarding h = hang_up
closing-Step closing h = again
closing-Step closed h = absurd (ground arith)

pub not_live :
    (s : ForwardingState)
    → (s == closing || s == closed) ≡ true
    → (s == established || s == forwarding) ≢ true
not_live created h e = ground arith
not_live connecting h e = ground arith
not_live established h e = ground arith
not_live forwarding h e = ground arith
not_live closing h e = ground arith
not_live closed h e = ground arith

-- The states that a step starts from.
pub connect-from : {s t : ForwardingState} → Step connect s t → s ≡ created
connect-from dial = refl

pub establish-from : {s t : ForwardingState} → Step establish s t → s ≡ connecting
establish-from answered = refl

pub bind-from : {id : SessionId} {s t : ForwardingState} → Step (bind id) s t → s ≡ established
bind-from bound = refl

pub finish_close-from : {s t : ForwardingState} → Step finish_close s t → s ≡ closing
finish_close-from end = refl

pub close-from : {s t : ForwardingState} → Step close s t → (s == created || s == closed) ≡ false
close-from give_up = refl
close-from finish = refl
close-from hang_up = refl
close-from again = refl

pub forward-from :
    {id : SessionId} {d : ForwardingDirection} {s t : ForwardingState}
    → Step (forward id d) s t
    → (s == established || s == forwarding) ≡ true
forward-from first_packet = refl
forward-from next_packet = refl

pub is_repeated-some :
    (last : Option (SessionId × ForwardingDirection)) (id : SessionId) (d : ForwardingDirection)
    → is_repeated last id d ≡ true
    → last ≡ some (id, d)
unfolding is_repeated
is_repeated-some none id d h = absurd (ground arith)
is_repeated-some (some (a, client_to_exit)) id client_to_exit h =
    ap (λ i. some (i, client_to_exit)) ((list_beq_iff a id).0 (ground arith))
is_repeated-some (some (a, exit_to_client)) id exit_to_client h =
    ap (λ i. some (i, exit_to_client)) ((list_beq_iff a id).0 (ground arith))
is_repeated-some (some (a, client_to_exit)) id exit_to_client h = absurd (ground arith)
is_repeated-some (some (a, exit_to_client)) id client_to_exit h = absurd (ground arith)

-- A number that does not rise.
abbrev pub IsLate : Option ℕ → ℕ → Type 0
IsLate none n = n ≡ 0
IsLate (some last) n = (n ≡ 0) ⊎ (n ≤ last)

pub is_violation-IsLate : (last : Option ℕ) (n : ℕ) → is_violation last n ≡ true → IsLate last n
unfolding is_violation
is_violation-IsLate none n h = ground arith
is_violation-IsLate (some last) n h = ground arith

abbrev pub is_done : ForwardingState → Bool
is_done s = s == closing || s == closed

pub step_done :
    {op : Op} {s t : ForwardingState} → Step op s t → is_done s ≡ true → is_done t ≡ true
step_done dial h = absurd (ground arith)
step_done answered h = absurd (ground arith)
step_done bound h = absurd (ground arith)
step_done first_packet h = absurd (ground arith)
step_done next_packet h = absurd (ground arith)
step_done give_up h = refl
step_done finish h = refl
step_done hang_up h = refl
step_done again h = refl
step_done end h = refl
step_done numbered h = h
