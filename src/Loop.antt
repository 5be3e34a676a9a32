-- ===== src/Loop.antt =====
-- libsponge/util/eventloop: rules on file descriptors, polled and served. `none` is an exception.
mod Turn
mod Serving
mod Waiting
mod Tests
use nju_networking_lab.Base.{
  ℕ, List, [], ◌∷◌, Option, none, some, ◌>>=◌, Bool, true, false, not, ◌&&◌, ◌||◌,
}
use nju_networking_lab.Base.{◌==◌, if◌then◌else◌}
use nju_networking_lab.Descriptor.{FileDescriptor}

pub data Direction : Type 0 where
  input output : Direction

pub data Result : Type 0 where
  success timeout exit : Result

-- `S` is the state that the callbacks capture, with the descriptors in it; `E` is what the system
-- gives to a callback when it reads or writes.
pub record Rule (S E : Type 0) : Type 0 where
  pub fd : S → FileDescriptor
  pub direction : Direction
  pub callback : E → S → Option S
  pub interest : S → Bool
  pub cancel : S → Option S

-- The flags of `revents`, and what the system gives to the callback.
pub record Polled (E : Type 0) : Type 0 where
  pub in_ready : Bool
  pub out_ready : Bool
  pub error : Bool
  pub hup : Bool
  pub given : E

-- What `poll` answers: the signal EINTR, a timeout, another error, or the flags of the descriptors,
-- in the order that they were given in.
pub data Poll (E : Type 0) : Type 0 where
  interrupted : Poll E
  timed_out : Poll E
  failed : Poll E
  polled : List (Polled E) → Poll E

module _ {S E : Type 0} where
  -- The number of reads, or of writes, of the rule's descriptor.
  unfoldable pub service_count : Rule S E → S → ℕ
  service_count r s = elim r.direction [
    | input ↦ (r.fd s).read_count
    | output ↦ (r.fd s).write_count
  ]

  unfoldable pub add_rule : Rule S E → List (Rule S E) → List (Rule S E)
  add_rule r [] = r ∷ []
  add_rule r (q ∷ rules) = q ∷ add_rule r rules

  -- No more can come: an input that is at its end, or a closed descriptor.
  unfoldable pub is_over : Rule S E → S → Bool
  is_over r s =
      let at_end = (r.fd s).eof in
      let reads : Bool = elim r.direction [ input ↦ true | output ↦ false ] in
      (reads && at_end) || (r.fd s).closed

  -- The first loop: the rules that stay, each with whether it is interested.
  unfoldable pub set_up : List (Rule S E) → S → Option (List (Rule S E × Bool) × S)
  set_up [] s = some ([], s)
  set_up (r ∷ rules) s =
      let rest = λ (x : S). set_up rules x in
      if is_over r s
      then (r.cancel s >>= λ s'. rest s')
      else (rest s >>= λ x. some ((r, r.interest s) ∷ x.0, x.1))

  abbrev pub any_interested : List (Rule S E × Bool) → Bool
  any_interested [] = false
  any_interested ((r, i) ∷ rules) = i || any_interested rules

  abbrev pub rules_of : List (Rule S E × Bool) → List (Rule S E)
  rules_of [] = []
  rules_of ((r, i) ∷ rules) = r ∷ rules_of rules

  -- `revents & events`
  unfoldable pub is_ready : Rule S E → Bool → Polled E → Bool
  is_ready r interested p =
      interested && elim r.direction [ input ↦ p.in_ready | output ↦ p.out_ready ]

  -- A ready rule: its callback has to read or write, or to lose interest.
  unfoldable pub serve : Rule S E → E → S → Option S
  serve r given s = r.callback given s >>= λ s'.
      (if (service_count r s == service_count r s') && r.interest s' then none else some s')

  -- The second loop: the rules that stay, and the state.
  unfoldable pub serve_all :
      List (Rule S E × Bool) → List (Polled E) → S → Option (List (Rule S E) × S)
  serve_all [] ps s = some ([], s)
  serve_all (ri ∷ rules) [] s = none
  serve_all ((r, interested) ∷ rules) (p ∷ ps) s =
      let ready = is_ready r interested p in
      let rest = λ (x : S). serve_all rules ps x in
      let keep = λ (x : S). rest x >>= λ y. some (r ∷ y.0, y.1) in
      if p.error
      then none
      else if p.hup && (interested && not ready)
      then (r.cancel s >>= λ s'. rest s')
      else if ready
      then (serve r p.given s >>= λ s'. keep s')
      else keep s

  -- No descriptor has a flag.
  abbrev pub quiet : List (Rule S E × Bool) → S → Option (Result × List (Rule S E) × S)
  quiet rules s = some (success, rules_of rules, s)

  -- What `poll` answers is acted upon. An error of `poll` other than EINTR is caught and passed over.
  unfoldable pub answer :
      List (Rule S E × Bool) → Poll E → S → Option (Result × List (Rule S E) × S)
  answer rules interrupted s = some (exit, rules_of rules, s)
  answer rules timed_out s = some (timeout, rules_of rules, s)
  answer rules failed s = quiet rules s
  answer rules (polled ps) s = serve_all rules ps s >>= λ x. some (success, x.0, x.1)

  -- `system_poll` answers for the descriptors of the rules, with the events that are asked for.
  unfoldable pub wait_next_event :
      (List (Rule S E × Bool) → Poll E)
      → List (Rule S E)
      → S
      → Option (Result × List (Rule S E) × S)
  wait_next_event system_poll rules s = set_up rules s >>= λ x.
      (if not (any_interested x.0)
        then some (exit, rules_of x.0, x.1)
        else answer x.0 (system_poll x.0) x.1)
