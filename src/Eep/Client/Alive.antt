-- ===== src/Eep/Client/Alive.antt =====
-- When the EEP client goes on by itself: what an operation may do without losing that.
pub mod Steps
pub mod Rows
pub mod Reception
pub mod Runs
use linux_pbs.Base.{
  Bool, true, false, Bool-cases, inl, inr, arith, ◌||◌, ◌≡◌, refl, sym, subst, ◌∙◌, Option, none,
  some, List, [], ◌∷◌, ◌++◌,
}
use linux_pbs.Eep.Queue.{Command}
use linux_pbs.Eep.Client.State.{
  State, idle, connecting, connected, writing_request, waiting_for_response, Event, Post, process,
  check_queue, Client, post, process_event,
}
use linux_pbs.Eep.Client.Events.{transition}
use linux_pbs.Eep.Client.Inputs.{Timer}

abbrev pub any : (Post → Bool) → List Post → Bool
any p [] = false
any p (x ∷ xs) = p x || any p xs

pub any-more : (p : Post → Bool) (xs ys : List Post) → any p xs ≡ true → any p (xs ++ ys) ≡ true
any-more p [] ys h = ground arith
any-more p (x ∷ xs) ys h = elim (Bool-cases (p x)) [
  | inl e ↦ rw e refl
  | inr e ↦ ground (arith, any-more p xs ys)
]

pub any-last :
    (p : Post → Bool) (xs : List Post) (y : Post) → p y ≡ true → any p (xs ++ y ∷ []) ≡ true
any-last p [] y h = rw h refl
any-last p (x ∷ xs) y h = ground (arith, any-last p xs y h)

abbrev is_row : Option State → Bool
is_row none = false
is_row (some s) = true

-- A posted handler that the client follows in a state: an event of its rows, or a look at the queue.
abbrev pub wakes : State → Post → Bool
unfolding transition
wakes s (process e) = is_row (transition s e)
wakes connected check_queue = true
wakes _ _ = false

abbrev is_empty : List Command → Bool
is_empty [] = true
is_empty (c ∷ cs) = false

-- A state's timer runs; or the client is connected, with nothing to send.
abbrev timed_by : State → Bool → Bool → List Command → Bool → Bool → Bool → Bool
timed_by idle reconnect connect queue send ack response = reconnect
timed_by connecting reconnect connect queue send ack response = connect
timed_by connected reconnect connect queue send ack response = is_empty queue
timed_by writing_request reconnect connect queue send ack response = send
timed_by waiting_for_response reconnect connect queue send ack response = ack || response

abbrev pub timed : State → Client → Bool
timed s m =
    timed_by s m.reconnect_timer m.connect_timer m.command_queue m.send_timer m.ack_timer
      m.response_timer

-- The client is being closed, or a timer runs, or a handler waits that it will follow.
pub data AliveAt (s : State) (m : Client) : Type 0 where
  stopped : m.stopping ≡ true → AliveAt s m
  waits : timed s m ≡ true → AliveAt s m
  woken : any (wakes s) m.posted ≡ true → AliveAt s m

abbrev pub Alive : Client → Type 0
Alive m = AliveAt m.current_state m

-- An operation that only posts, and neither stops a timer nor adds a command: it may raise events.
abbrev pub Extends : Client → Client → Type 0
Extends m n =
    (n.stopping ≡ m.stopping)
    × (n.current_state ≡ m.current_state)
    × ((s : State) → timed s m ≡ true → timed s n ≡ true)
    × ((p : Post → Bool) → any p m.posted ≡ true → any p n.posted ≡ true)

pub Extends-refl : (m : Client) → Extends m m
Extends-refl m = (refl, refl, λ s h. h, λ p h. h)

pub Extends-trans : (l m n : Client) → Extends l m → Extends m n → Extends l n
Extends-trans l m n (f0, f1, f2, f3) (g0, g1, g2, g3) =
    (g0 ∙ f0, g1 ∙ f1, λ s h. g2 s (f2 s h), λ p h. g3 p (f3 p h))

pub Extends-post : (p : Post) (m : Client) → Extends m (post p m)
Extends-post p m = (refl, refl, λ s h. h, λ q h. any-more q m.posted (p ∷ []) h)

-- What may change in a client that stays alive in a state.
pub AliveAt-map :
    (s : State) (m n : Client)
    → (m.stopping ≡ true → n.stopping ≡ true)
    → (timed s m ≡ true → timed s n ≡ true)
    → (any (wakes s) m.posted ≡ true → any (wakes s) n.posted ≡ true)
    → AliveAt s m
    → AliveAt s n
AliveAt-map s m n f g k (stopped h) = stopped (f h)
AliveAt-map s m n f g k (waits h) = waits (g h)
AliveAt-map s m n f g k (woken h) = woken (k h)

pub AliveAt-Extends : (s : State) (m n : Client) → Extends m n → AliveAt s m → AliveAt s n
AliveAt-Extends s m n f = AliveAt-map s m n (λ h. f.0 ∙ h) (f.2 s) (f.3 (wakes s))

pub at_state :
    (m n : Client) → n.current_state ≡ m.current_state → AliveAt m.current_state n → Alive n
at_state m n e a = subst (λ s. AliveAt s n) (sym e) a

pub Alive-Extends : (m n : Client) → Extends m n → Alive m → Alive n
Alive-Extends m n f a = at_state m n f.1 (AliveAt-Extends m.current_state m n f a)

pub AliveAt-post : (s : State) (p : Post) (m : Client) → wakes s p ≡ true → AliveAt s (post p m)
AliveAt-post s p m h = woken (any-last (wakes s) m.posted p h)

abbrev pub cancel : Timer → Client → Client
cancel Timer.reconnect m = record m { reconnect_timer = false }
cancel Timer.connect m = record m { connect_timer = false }
cancel Timer.send m = record m { send_timer = false }
cancel Timer.response m = record m { response_timer = false }
cancel Timer.ack m = record m { ack_timer = false }
cancel Timer.watchdog m = record m { watchdog_timer = false }
cancel Timer.health_status m = record m { health_status_timer = false }

-- The state that a timer keeps alive.
abbrev pub owner : Timer → State
owner Timer.reconnect = idle
owner Timer.connect = connecting
owner Timer.send = writing_request
owner _ = waiting_for_response

ends_at :
    (t : Timer) (s : State) (e : Event) (m n : Client)
    → wakes (owner t) (process e) ≡ true
    → Extends (cancel t m) n
    → AliveAt s m
    → AliveAt s (process_event e n)
ends_at Timer.reconnect idle e m n w f a = AliveAt-post idle (process e) n w
ends_at Timer.connect connecting e m n w f a = AliveAt-post connecting (process e) n w
ends_at Timer.send writing_request e m n w f a = AliveAt-post writing_request (process e) n w
ends_at Timer.response waiting_for_response e m n w f a =
    AliveAt-post waiting_for_response (process e) n w
ends_at Timer.ack waiting_for_response e m n w f a =
    AliveAt-post waiting_for_response (process e) n w
ends_at t s e m n w f a =
    AliveAt-Extends s (cancel t m) (process_event e n)
      (Extends-trans (cancel t m) n (process_event e n) f (Extends-post (process e) n))
      (AliveAt-map s m (cancel t m) (λ h. h) (λ h. h) (λ h. h) a)

-- A timer is stopped where an event is posted that its state follows.
pub ends-Alive :
    (t : Timer) (e : Event) (m n : Client)
    → wakes (owner t) (process e) ≡ true
    → Extends (cancel t m) n
    → (cancel t m).current_state ≡ m.current_state
    → Alive m
    → Alive (process_event e n)
ends-Alive t e m n w f c a =
    at_state m (process_event e n) (f.1 ∙ c) (ends_at t m.current_state e m n w f a)
